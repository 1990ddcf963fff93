-- ===== src/Settings/View.antt =====
-- What frontend/tenant-dashboard/app/dashboard/settings/page.tsx shows: the tabs and the panel of
-- the active one.
use modera_shield.Base.{
  String, Bool, true, false, Option, none, some, List, [], ◌∷◌, length, filter, map, All, ◌==◌, ◌≡◌,
  refl, if◌then◌else◌,
}
use modera_shield.Settings.{
  Tab, profile_tab, org, security, notifications, Ui, type_name, type_email, type_tenant,
  check_spike, check_alerts,
}

pub record TabItem : Type 0 where
  pub id : Tab
  pub name : String

abbrev tabs : List TabItem
tabs =
    record { id = profile_tab; name = "My Profile" }
    ∷ record { id = org; name = "Organization Settings" }
    ∷ record { id = security; name = "Security & Credentials" }
    ∷ record { id = notifications; name = "Notification Preferences" }
    ∷ []

-- `activeTab === tab.id`
abbrev same_tab : Tab → Tab → Bool
same_tab profile_tab profile_tab = true
same_tab org org = true
same_tab security security = true
same_tab notifications notifications = true
same_tab _ _ = false

-- What stands in a panel; an input comes with what a change of it does.
pub data Control : Type 0 where
  input : (label : String) (kind : String) (value : String) (on_change : String → Ui → Ui) → Control
  read_only : (label : String) (value : String) → Control
  unused : (label : String) (kind : String) (placeholder : String) → Control
  checkbox :
      (title : String) (text : String) (checked : Bool) (on_change : Bool → Ui → Ui) → Control
  note : (text : String) → Control
  session : (device : String) (text : String) (badge : String) → Control

pub record Panel : Type 0 where
  pub title : String
  pub controls : List Control

profile_panel : Ui → Panel
profile_panel u = record {
  title = "Profile Information";
  controls =
      input "Full Name" "text" u.profile.name type_name
      ∷ input "Email Address" "email" u.profile.email type_email
      ∷ [];
}

org_panel : Ui → Panel
org_panel u = record {
  title = "Workspace Details";
  controls =
      input "Organization Name" "text" u.tenant.name type_tenant
      ∷ read_only "Tenant identifier ID (Read-only)" u.tenant.id
      ∷ note
          "Your workspace plan is configured as Developer Free tier. Quotas and limit constraints are managed based on tenant subscription agreements."
      ∷ [];
}

security_panel : Panel
security_panel = record {
  title = "Credentials & Active Sessions";
  controls =
      unused "Current Password" "password" "••••••••••••"
      ∷ unused "New Password" "password" "••••••••••••"
      ∷ session "Windows Chrome — Delhi, IN" "Current Session • 2026-08-26" "Online"
      ∷ [];
}

notifications_panel : Ui → Panel
notifications_panel u = record {
  title = "Alert Settings";
  controls =
      checkbox "Moderation Spike Alerts"
        "Receive email alerts if the classification flag rate exceeds 5% in an hour."
        u.notification_config.moderation_spike check_spike
      ∷ checkbox "System Telemetry Updates"
          "Receive notifications regarding database replication delays, latency reports, and updates."
          u.notification_config.system_alerts check_alerts
      ∷ [];
}

abbrev panel_of : Tab → Ui → Panel
panel_of profile_tab u = profile_panel u
panel_of org u = org_panel u
panel_of security u = security_panel
panel_of notifications u = notifications_panel u

pub record TabRow : Type 0 where
  pub name : String
  pub is_active : Bool

-- The rows of the tabs, the panel, and the message beside the button.
pub record View : Type 0 where
  pub rows : List TabRow
  pub panel : Panel
  pub saved : Option String

unfoldable pub view : Ui → View
unfolding profile_panel org_panel security_panel notifications_panel
view u = record {
  rows =
      map (λ (t : TabItem). record { name = t.name; is_active = same_tab u.active_tab t.id }) tabs;
  panel = panel_of u.active_tab u;
  saved = if u.save_success then some "Changes saved locally!" else none;
}

-- The text of the input with that label, and whether the checkbox with that title is ticked.
abbrev value_of : String → List Control → Option String
value_of l [] = none
value_of l (input label kind value on_change ∷ rest) =
    if label == l then some value else value_of l rest
value_of l (_ ∷ rest) = value_of l rest

abbrev checked_of : String → List Control → Option Bool
checked_of t [] = none
checked_of t (checkbox title text checked on_change ∷ rest) =
    if title == t then some checked else checked_of t rest
checked_of t (_ ∷ rest) = checked_of t rest

-- What is typed into an input, or set by a click on a checkbox, is what the panel then shows there.
abbrev Echoes : Ui → Control → Type 0
Echoes u (input label kind value on_change) =
    (typed : String) → value_of label (view (on_change typed u)).panel.controls ≡ some typed
Echoes u (checkbox title text checked on_change) =
    (next : Bool) → checked_of title (view (on_change next u)).panel.controls ≡ some next
Echoes u _ = Unit

panel_of-Echoes :
    (tab : Tab) (u : Ui)
    → All
        (Echoes (record u { active_tab = tab }))
        (view (record u { active_tab = tab })).panel.controls
unfolding view type_name type_email type_tenant check_spike check_alerts
panel_of-Echoes profile_tab u = (λ typed. refl, (λ typed. refl, tt))
panel_of-Echoes org u = (λ typed. refl, (tt, (tt, tt)))
panel_of-Echoes security u = (tt, (tt, (tt, tt)))
panel_of-Echoes notifications u = (λ next. refl, (λ next. refl, tt))

-- Whatever tab is active, each input and each checkbox of its panel shows what was last typed or
-- ticked there, and exactly one tab is active.
view-Echoes :
    (u : Ui)
    → All (Echoes u) (view u).panel.controls
      × (length (filter (λ (r : TabRow). r.is_active) (view u).rows) ≡ 1)
unfolding view
view-Echoes u = (panel_of-Echoes u.active_tab u, one u.active_tab)
  where
    one :
        (tab : Tab)
        → length (
            filter
              (λ (r : TabRow). r.is_active)
              (map (λ (t : TabItem). record { name = t.name; is_active = same_tab tab t.id }) tabs))
          ≡ 1
    one profile_tab = refl
    one org = refl
    one security = refl
    one notifications = refl
