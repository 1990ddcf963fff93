-- ===== src/Docs/View.antt =====
-- The page of frontend/tenant-dashboard/app/docs/page.tsx: its state, its navigation and its
-- sections in their order.
use modera_shield.Base.{
  String, Bool, Option, none, some, List, [], ◌∷◌, map, any, ◌==◌, if◌then◌else◌, present,
}
use modera_shield.Client.Browser.{World, get_stored_api_key}
use modera_shield.Docs.Block.{Section}
use modera_shield.Docs.Guides.{intro, quickstart, auth, limits}
use modera_shield.Docs.Reference.{text_mod, python_sdk, errors}
use modera_shield.Docs.Webhooks.{webhooks}

-- The hook of the page, and the section that the browser was last scrolled to.
pub record Ui : Type 0 where
  pub active_section : String
  pub scrolled_to : Option String

abbrev initial : Ui
initial = record { active_section = "intro"; scrolled_to = none }

abbrev key_or_sample : Option String → String
key_or_sample none = "msk_your_key_here"
key_or_sample (some key) = key

-- `getStoredApiKey() || "msk_your_key_here"`
unfoldable pub user_api_key : World → String
user_api_key w = key_or_sample (present (get_stored_api_key w))

pub record NavItem : Type 0 where
  pub id : String
  pub title : String

abbrev pub doc_nav_items : List NavItem
doc_nav_items =
    record { id = "intro"; title = "Introduction" }
    ∷ record { id = "quickstart"; title = "Quickstart" }
    ∷ record { id = "auth"; title = "Authentication" }
    ∷ record { id = "text-mod"; title = "Text Moderation" }
    ∷ record { id = "python-sdk"; title = "Python SDK" }
    ∷ record { id = "errors"; title = "Error Handling" }
    ∷ record { id = "limits"; title = "Rate Limits" }
    ∷ record { id = "webhooks"; title = "Webhooks" }
    ∷ []

-- The sections of the page, for a key to show in the examples.
unfoldable pub sections : String → List Section
sections key =
    intro ∷ quickstart ∷ auth key ∷ text_mod key ∷ python_sdk key ∷ errors ∷ limits ∷ webhooks ∷ []

-- `document.getElementById(id)?.scrollIntoView(…)`
unfoldable pub scroll_to : List Section → String → Option String → Option String
scroll_to sections id before =
    if any (λ (s : Section). s.id == id) sections then some id else before

-- The click on a row of the navigation.
unfoldable pub click : World → NavItem → Ui → Ui
click w item u = record {
  active_section = item.id;
  scrolled_to = scroll_to (sections (user_api_key w)) item.id u.scrolled_to;
}

pub record NavRow : Type 0 where
  pub title : String
  pub is_active : Bool

unfoldable nav_row : Ui → NavItem → NavRow
nav_row u item = record { title = item.title; is_active = u.active_section == item.id }

pub record View : Type 0 where
  pub rows : List NavRow
  pub shown : List Section

unfoldable pub view : World → Ui → View
unfolding nav_row
view w u = record { rows = map (nav_row u) doc_nav_items; shown = sections (user_api_key w) }
