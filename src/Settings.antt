-- ===== src/Settings.antt =====
-- frontend/tenant-dashboard/app/dashboard/settings/page.tsx: the forms of the settings, which the
-- page keeps in its state.
pub mod View
use modera_shield.Base.{String, Bool, true, false, Option, none, some}
use modera_shield.Client.Browser.{StoredTenant, get_stored_tenant}
use modera_shield.Page.{Page, set_ui}

pub data Tab : Type 0 where
  profile_tab org security notifications : Tab

pub record Profile : Type 0 where
  pub name : String
  pub email : String

pub record NotificationConfig : Type 0 where
  pub moderation_spike : Bool
  pub weekly_report : Bool
  pub system_alerts : Bool

pub record Ui : Type 0 where
  pub active_tab : Tab
  pub tenant : StoredTenant
  pub save_success : Bool
  pub profile : Profile
  pub notification_config : NotificationConfig

abbrev initial : Ui
initial = record {
  active_tab = profile_tab;
  tenant = record { id = "—"; name = "Authenticated Tenant" };
  save_success = false;
  profile = record { name = "Developer Admin"; email = "admin@moderashield.dev" };
  notification_config = record {
    moderation_spike = true;
    weekly_report = false;
    system_alerts = true;
  };
}

abbrev with_tenant : Option StoredTenant → Ui → Ui
with_tenant none u = u
with_tenant (some stored) u = record u { tenant = stored }

-- The effect of the first render.
unfoldable load_tenant : Page Ui → Page Ui
load_tenant p = set_ui (with_tenant (get_stored_tenant p.world)) p

-- `handleSave`; two and a half seconds later its timer runs `hide_success`.
unfoldable handle_save : Ui → Ui
handle_save u = record u { save_success = true }

unfoldable hide_success : Ui → Ui
hide_success u = record u { save_success = false }

-- The inputs of the forms that are kept.
unfoldable choose_tab : Tab → Ui → Ui
choose_tab tab u = record u { active_tab = tab }

unfoldable type_name : String → Ui → Ui
type_name text u = record u { profile = record u.profile { name = text } }

pub type_email : String → Ui → Ui
type_email text u = record u { profile = record u.profile { email = text } }

pub type_tenant : String → Ui → Ui
type_tenant text u = record u { tenant = record u.tenant { name = text } }

pub check_spike : Bool → Ui → Ui
check_spike checked u = record u {
  notification_config = record u.notification_config { moderation_spike = checked };
}

pub check_alerts : Bool → Ui → Ui
check_alerts checked u = record u {
  notification_config = record u.notification_config { system_alerts = checked };
}
