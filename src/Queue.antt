-- ===== src/Queue.antt =====
-- frontend/tenant-dashboard/app/dashboard/queue/page.tsx: the flagged requests of the tenant.
pub mod Laws
pub mod Fetching
use Prim.Native.String.{◌++◌}
use modera_shield.Base.{
  ℕ, String, Bool, true, false, ◌||◌, Option, none, some, List, [], ◌∷◌, map, length, filter, M,
  modify, ◌>>=◌, ◌>>◌, try_catch, finally, ◌==◌, if◌then◌else◌, replace_underscore, present,
}
use modera_shield.Client.Types.{RecentRequestItem}
use modera_shield.Client.Browser.{World, visit}
use modera_shield.Client.Http.{Env}
use modera_shield.Client.Api.{get_requests}
use modera_shield.Page.{Page, on_world, set_ui, error_of}

pub record Ui : Type 0 where
  pub is_loading : Bool
  pub flagged_items : List RecentRequestItem
  pub error : Option String

abbrev pub initial : Ui
initial = record { is_loading = true; flagged_items = []; error = none }

-- `x === true` on `boolean | null`
abbrev is_true : Option Bool → Bool
is_true (some true) = true
is_true (some false) = false
is_true none = false

unfoldable pub is_flagged_item : RecentRequestItem → Bool
is_flagged_item item = item.status == "flagged" || is_true item.is_flagged

abbrev load_flagged : Env → M (Page Ui) (Unit {0})
load_flagged env = do
  res ← on_world (get_requests env 1 100)
  modify (set_ui λ u. record u { flagged_items = filter is_flagged_item res.items })

abbrev show_error : String → M (Page Ui) (Unit {0})
show_error message =
    modify (set_ui λ u. record u { error = error_of message "Failed to load flagged queue." })

unfoldable pub fetch_flagged : Env → M (Page Ui) (Unit {0})
fetch_flagged env = do
  modify (set_ui λ u. record u { is_loading = true })
  modify (set_ui λ u. record u { error = none })
  finally (try_catch (load_flagged env) show_error) (set_ui λ u. record u { is_loading = false })

-- A row of the table; its date is shown in the browser's format.
pub record Row : Type 0 where
  pub id : String
  pub content_type : String
  pub flags : List String
  pub model : Option String
  pub time_detected : String
  pub inspect : String

unfoldable row : RecentRequestItem → Row
row item = record {
  id = item.id;
  content_type = item.content_type;
  flags = map replace_underscore item.categories;
  model = item.model;
  time_detected = item.created_at;
  inspect = "/dashboard/submissions/" ++ item.id;
}

-- What stands below the banner; a failure has the "Retry" button, which calls `fetchFlagged`.
pub data View : Type 0 where
  loading : View
  failed : String → View
  clean : View
  table : (count : ℕ) → List Row → View

abbrev listed : List RecentRequestItem → View
listed [] = clean
listed (item ∷ items) = table (length (item ∷ items)) (map row (item ∷ items))

abbrev settled : Option String → List RecentRequestItem → View
settled (some error) items = failed error
settled none items = listed items

unfoldable view : Ui → View
view u = if u.is_loading then loading else settled (present u.error) u.flagged_items

-- A click on a row, or on its link, which stops the click from reaching the row.
unfoldable pub open_row : RecentRequestItem → World → World
open_row item = visit ("/dashboard/submissions/" ++ item.id)
