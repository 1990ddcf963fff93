-- ===== src/Submissions.antt =====
-- frontend/tenant-dashboard/app/dashboard/submissions/page.tsx: the log of the requests, a page of
-- 25 at a time, with filters on the page that is loaded.
pub mod Filters
pub mod Bar
pub mod Fetching
pub mod Paging
use Prim.Native.Nat.{min, max}
use Prim.Native.String.{◌++◌}
use modera_shield.Base.{
  ℕ, ◌+◌, ◌-◌, ◌/◌, String, Bool, true, false, not, ◌||◌, Option, none, some, List, [], ◌∷◌, map,
  length, filter, Result, ok, thrown, M, modify, ◌>>=◌, ◌>>◌, try_catch, finally, ◌==◌, nat_eq,
  if◌then◌else◌, trim, to_lower_case, includes, present,
}
use modera_shield.Client.Types.{RecentRequestItem, RecentRequestsResponse}
use modera_shield.Client.Browser.{World, visit}
use modera_shield.Client.Http.{Env}
use modera_shield.Client.Api.{get_requests}
use modera_shield.Page.{Page, on_world, set_ui, error_of}

pub record Ui : Type 0 where
  pub is_loading : Bool
  pub error : Option String
  pub content : Option RecentRequestsResponse
  pub page : ℕ
  pub search_id : String
  pub status_filter : String

abbrev pub initial : Ui
initial = record {
  is_loading = true;
  error = none;
  content = none;
  page = 1;
  search_id = "";
  status_filter = "all";
}

abbrev page_size : ℕ
page_size = 25

abbrev load_page : Env → ℕ → M (Page Ui) (Unit {0})
load_page env page = do
  res ← on_world (get_requests env page page_size)
  modify (set_ui λ u. record u { content = some res })

abbrev show_error : String → M (Page Ui) (Unit {0})
show_error message =
    modify (set_ui λ u. record u { error = error_of message "Failed to load submissions." })

-- `fetchRequests` of the render whose page is `page`; the effect runs it when the page changes.
unfoldable pub fetch_requests : Env → ℕ → M (Page Ui) (Unit {0})
fetch_requests env page = do
  modify (set_ui λ u. record u { is_loading = true })
  modify (set_ui λ u. record u { error = none })
  finally (try_catch (load_page env page) show_error) (set_ui λ u. record u { is_loading = false })

unfoldable pub matches_id : String → RecentRequestItem → Bool
matches_id search_id item = includes (to_lower_case item.id) (trim (to_lower_case search_id))

unfoldable pub matches_status : String → RecentRequestItem → Bool
matches_status status_filter item = item.status == status_filter

abbrev filter_by_id : String → List RecentRequestItem → List RecentRequestItem
filter_by_id search_id items =
    if trim search_id == "" then items else filter (matches_id search_id) items

abbrev filter_by_status : String → List RecentRequestItem → List RecentRequestItem
filter_by_status status items =
    if status == "all" then items else filter (matches_status status) items

abbrev items_of : Option RecentRequestsResponse → List RecentRequestItem
items_of none = []
items_of (some res) = res.items

unfoldable pub filtered_items : Ui → List RecentRequestItem
filtered_items u = filter_by_status u.status_filter (filter_by_id u.search_id (items_of u.content))

handle_clear_filters : Ui → Ui
handle_clear_filters u = record u { search_id = ""; status_filter = "all" }

-- `Math.ceil(data.total / pageSize)`
abbrev pages_of : Option RecentRequestsResponse → ℕ
pages_of none = 1
pages_of (some res) = (res.total + 24) / page_size

unfoldable pub total_pages : Ui → ℕ
total_pages u = pages_of u.content

pub previous_page : Ui → Ui
previous_page u = record u { page = max 1 (u.page - 1) }

pub next_page : Ui → Ui
unfolding total_pages
next_page u = record u { page = min (total_pages u) (u.page + 1) }

-- A row of the table; the date is shown in the browser's format, a missing part as a dash.
pub record Row : Type 0 where
  pub id : String
  pub content_type : String
  pub status : String
  pub categories : List String
  pub model : String
  pub created_at : String
  pub details : String

abbrev or_dash : Option String → String
or_dash none = "—"
or_dash (some s) = s

unfoldable row : RecentRequestItem → Row
row item = record {
  id = item.id;
  content_type = item.content_type;
  status = item.status;
  categories = item.categories;
  model = or_dash (present item.model);
  created_at = item.created_at;
  details = "/dashboard/submissions/" ++ item.id;
}

-- The line below the table: how many of the total are shown, the page of how many, and whether the
-- two buttons are disabled.
pub record Controls : Type 0 where
  pub shown : ℕ
  pub total : ℕ
  pub page : ℕ
  pub pages : ℕ
  pub previous_disabled : Bool
  pub next_disabled : Bool

pub data View : Type 0 where
  loading : View
  failed : String → View
  nothing_found : View
  table : List Row → Controls → View

abbrev total_of : Option RecentRequestsResponse → ℕ
total_of none = 0
total_of (some res) = res.total

controls : Ui → Controls
controls u = record {
  shown = length (filtered_items u);
  total = total_of u.content;
  page = u.page;
  pages = total_pages u;
  previous_disabled = nat_eq u.page 1;
  next_disabled = nat_eq u.page (total_pages u);
}

abbrev listed : Controls → List RecentRequestItem → View
listed c [] = nothing_found
listed c (item ∷ items) = table (map row (item ∷ items)) c

abbrev settled : Option String → Controls → List RecentRequestItem → View
settled (some error) c items = failed error
settled none c items = listed c items

unfoldable view : Ui → View
view u = if u.is_loading then loading else settled (present u.error) (controls u) (filtered_items u)

-- The "Clear" button is there when a filter is set.
has_clear_button : Ui → Bool
has_clear_button u = not (u.search_id == "") || not (u.status_filter == "all")

-- `fetchRequests` up to its `await`, and from there on.
unfoldable begin : Ui → Ui
begin u = record u { is_loading = true; error = none }

unfoldable pub finish : Result RecentRequestsResponse → Ui → Ui
finish (ok res) u = record u { is_loading = false; content = some res }
finish (thrown e) u = record u {
  is_loading = false;
  error = error_of e "Failed to load submissions.";
}

-- What the user can do with the page as it is shown: a button that is not there, or is disabled,
-- does nothing. "Refresh" is always there, "Retry" with an error; both call `fetchRequests`, here up
-- to its `await`. A click on a row, or on its link, leaves the page (`open_row`).
pub data Click : Type 0 where
  previous next clear refresh retry : Click
  search choose opens : String → Click

abbrev on_table : View → (Controls → Ui) → Ui → Ui
on_table (table rows c) f u = f c
on_table loading f u = u
on_table (failed error) f u = u
on_table nothing_found f u = u

abbrev on_failure : View → Ui → Ui → Ui
on_failure (failed error) v u = v
on_failure (table rows c) v u = u
on_failure loading v u = u
on_failure nothing_found v u = u

abbrev turn : View → Click → Ui → Ui
turn v previous u = on_table v (λ c. if c.previous_disabled then u else previous_page u) u
turn v next u = on_table v (λ c. if c.next_disabled then u else next_page u) u
turn v clear u = if has_clear_button u then handle_clear_filters u else u
turn v refresh u = begin u
turn v retry u = on_failure v (begin u) u
turn v (search text) u = record u { search_id = text }
turn v (choose status) u = record u { status_filter = status }
turn v (opens id) u = u

pub click : Click → Ui → Ui
unfolding begin
click c u = turn (view u) c u

-- The browser after a click on the row of the request.
unfoldable pub open_row : String → World → World
open_row id = visit ("/dashboard/submissions/" ++ id)
