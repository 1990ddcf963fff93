-- ===== src/TopNav.antt =====
-- frontend/tenant-dashboard/components/layout/topnav.tsx: the bar above each page.
pub mod Laws
use modera_shield.Base.{
  String, Bool, true, false, not, ◌&&◌, Option, none, some, List, [], ◌∷◌, length, nat_eq, M,
  modify, ◌>>=◌, ◌>>◌, try_catch, ◌==◌, if◌then◌else◌, present, or_default,
}
use modera_shield.Client.Http.{Env}
use modera_shield.Client.Api.{Connection, test_connection}
use modera_shield.Page.{Page, on_world, set_ui}

pub record Props : Type 0 where
  pub title : Option String
  pub description : Option String
  pub date_range : String
  -- whether `setDateRange` is given
  pub can_set_range : Bool
  pub show_date_selector : Bool

pub record Ui : Type 0 where
  pub is_live : Option Bool
  pub notifications : List String
  pub show_notifications : Bool

abbrev initial : Ui
initial = record {
  is_live = none;
  notifications =
      "Flag rate spiked above 5% on 2026-08-25" ∷ "Python SDK upgraded to v1.2.0"
      ∷ "New moderation request failure detected" ∷ [];
  show_notifications = false;
}

abbrev set_live : Bool → M (Page Ui) (Unit {0})
set_live live = modify (set_ui λ u. record u { is_live = some live })

-- The effect of the first render: `testConnection().then(…).catch(…)`.
unfoldable pub test_live : Env → M (Page Ui) (Unit {0})
test_live env =
    try_catch (on_world (test_connection env none) >>= λ (res : Connection). set_live res.ok)
      (λ _. set_live false)

unfoldable toggle_notifications : Ui → Ui
toggle_notifications u = record u { show_notifications = not u.show_notifications }

unfoldable clear_notifications : Ui → Ui
clear_notifications u = record u { notifications = [] }

pub data Badge : Type 0 where
  unknown live_mode demo_mode : Badge

abbrev badge_of : Option Bool → Badge
badge_of none = unknown
badge_of (some true) = live_mode
badge_of (some false) = demo_mode

-- The list under the bell: folded, empty, or the texts with "Clear All".
pub data Bell : Type 0 where
  folded nothing_new : Bell
  news : List String → Bell

abbrev unfolded : List String → Bell
unfolded [] = nothing_new
unfolded (n ∷ ns) = news (n ∷ ns)

pub record View : Type 0 where
  pub title : String
  pub description : Option String
  pub badge : Badge
  pub selector : Option String
  pub has_dot : Bool
  pub bell : Bell

abbrev title_or : Option String → String
title_or none = "Dashboard"
title_or (some title) = title

unfoldable view : Props → Ui → View
view props u = record {
  title = title_or (present props.title);
  description = present props.description;
  badge = badge_of u.is_live;
  selector =
      if props.show_date_selector && props.can_set_range then some props.date_range else none;
  has_dot = not (nat_eq (length u.notifications) 0);
  bell = if u.show_notifications then unfolded u.notifications else folded;
}
