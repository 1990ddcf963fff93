-- ===== src/Sidebar.antt =====
-- frontend/tenant-dashboard/components/layout/sidebar.tsx: the navigation of the dashboard, which
-- also guards its pages.
pub mod Laws
use modera_shield.Base.{
  String, Bool, true, false, not, ◌&&◌, Option, none, some, List, [], ◌∷◌, map, ◌==◌, if◌then◌else◌,
  present, to_upper_case, take_chars,
}
use modera_shield.Client.Browser.{
  World, StoredTenant, get_stored_api_key, get_stored_tenant, remove_stored_api_key, visit,
}
use modera_shield.Page.{Page, set_ui, set_world}

pub record Ui : Type 0 where
  pub is_collapsed : Bool
  pub tenant : StoredTenant
  pub show_user_menu : Bool

abbrev pub initial : Ui
initial = record {
  is_collapsed = false;
  tenant = record { id = "—"; name = "Authenticated Tenant" };
  show_user_menu = false;
}

abbrev pub with_tenant : Option StoredTenant → Ui → Ui
with_tenant none u = u
with_tenant (some stored) u = record u { tenant = stored }

abbrev check_key : Option String → Page Ui → Page Ui
check_key none p = set_world (visit "/login") p
check_key (some key) p = set_ui (with_tenant (get_stored_tenant p.world)) p

-- The effect of the first render and of each change of the path.
unfoldable pub check_session : Page Ui → Page Ui
check_session p = check_key (present (get_stored_api_key p.world)) p

pub record NavItem : Type 0 where
  pub name : String
  pub href : String
  pub badge : Option String

abbrev pub nav_items : List NavItem
nav_items =
    record { name = "Overview"; href = "/dashboard"; badge = none }
    ∷ record { name = "Moderation Queue"; href = "/dashboard/queue"; badge = some "Coming Soon" }
    ∷ record { name = "Submissions"; href = "/dashboard/submissions"; badge = none }
    ∷ record { name = "Rules & Thresholds"; href = "/dashboard/rules"; badge = none }
    ∷ record { name = "API Keys"; href = "/dashboard/api-keys"; badge = none }
    ∷ record { name = "Documentation"; href = "/docs"; badge = none }
    ∷ record { name = "Integrations"; href = "/dashboard/integrations"; badge = none }
    ∷ record { name = "Settings"; href = "/dashboard/settings"; badge = none }
    ∷ []

unfoldable pub handle_logout : Page Ui → Page Ui
handle_logout p = set_world (λ w. visit "/login" (remove_stored_api_key w)) p

unfoldable toggle_collapsed : Ui → Ui
toggle_collapsed u = record u { is_collapsed = not u.is_collapsed }

-- The click on the user's section.
toggle_user_menu : Ui → Ui
toggle_user_menu u =
    if u.is_collapsed then u else record u { show_user_menu = not u.show_user_menu }

pub record NavRow : Type 0 where
  pub href : String
  pub is_active : Bool
  pub label : Option String
  pub title : Option String
  pub badge : Option String

abbrev when_shown : Bool → Option String → Option String
when_shown true text = none
when_shown false text = text

nav_row : String → Bool → NavItem → NavRow
nav_row pathname is_collapsed item = record {
  href = item.href;
  is_active = pathname == item.href;
  label = when_shown is_collapsed (some item.name);
  title = when_shown (not is_collapsed) (some item.name);
  badge = when_shown is_collapsed (present item.badge);
}

-- The sidebar: the tenant's name, or its first two letters where it is collapsed, the rows, and
-- whether the menu with "Log out" is there.
pub record View : Type 0 where
  pub tenant : String
  pub rows : List NavRow
  pub has_menu : Bool

unfoldable view : String → Ui → View
unfolding nav_row
view pathname u = record {
  tenant = if u.is_collapsed then to_upper_case (take_chars 2 u.tenant.name) else u.tenant.name;
  rows = map (nav_row pathname u.is_collapsed) nav_items;
  has_menu = u.show_user_menu && not u.is_collapsed;
}
