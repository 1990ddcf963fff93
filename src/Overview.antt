-- ===== src/Overview.antt =====
-- frontend/tenant-dashboard/app/dashboard/page.tsx: the overview of the tenant's metrics.
-- `arrival` is the order in which the answers of the four concurrent requests arrive; it decides
-- which error is shown where several of them fail.
pub mod View
pub mod Laws
pub mod Answers
pub mod Arrivals
pub mod Fetching
use Prim.Native.String.{◌++◌}
use modera_shield.Base.{
  ℕ, String, Bool, true, false, ◌||◌, Option, none, some, List, [], ◌∷◌, map, Result, M, pure,
  throw, modify, gets, ◌>>=◌, ◌>>◌, try_catch, finally, or_default, ◌==◌, nat_eq, if◌then◌else◌,
  includes, present, take_chars,
}
use modera_shield.Client.Types.{
  ReplyType, overview, category_metrics, usage, requests, OverviewMetrics, CategoryMetrics,
  UsageMetrics, UsageDay, RecentRequestsResponse, RecentRequestItem,
}
use modera_shield.Client.Browser.{World, get_stored_api_key, remove_stored_api_key, visit}
use modera_shield.Client.Http.{Env, Fetched, no_options, receive}
use modera_shield.Client.Api.{
  Connection, test_connection, overview_path, categories_path, usage_path, requests_path,
}
use modera_shield.Client.Concurrent.{start, failure, first_error, all_or_error}
use modera_shield.Page.{Page, on_world, set_ui, set_world, error_of}
use modera_shield.Charts.{
  Legend, CategoryBar, donut_data, legend, flag_rate, top_categories, counted,
}

pub record Ui : Type 0 where
  pub date_range : String
  pub is_loading : Bool
  pub error : Option String
  pub overview_data : Option OverviewMetrics
  pub category_data : Option CategoryMetrics
  pub usage_data : Option UsageMetrics
  pub requests_data : Option RecentRequestsResponse

abbrev pub initial : Ui
initial = record {
  date_range = "7d";
  is_loading = true;
  error = none;
  overview_data = none;
  category_data = none;
  usage_data = none;
  requests_data = none;
}

unfoldable pub days_of : String → ℕ
days_of range = if range == "30d" then 30 else (if range == "14d" then 14 else 7)

-- The selector in the bar above the page; the page fetches again when the range changes.
unfoldable choose_range : String → Ui → Ui
choose_range range u = record u { date_range = range }

-- The values of the four requests.
pub record Metrics : Type 0 where
  pub ov : OverviewMetrics
  pub cat : CategoryMetrics
  pub us : UsageMetrics
  pub req : RecentRequestsResponse

abbrev all_four :
    Result OverviewMetrics
    → Result CategoryMetrics
    → Result UsageMetrics
    → Result RecentRequestsResponse
    → Option Metrics
all_four (Result.ok ov) (Result.ok cat) (Result.ok us) (Result.ok req) =
    some (record { ov = ov; cat = cat; us = us; req = req })
all_four _ _ _ _ = none

abbrev failures :
    Result OverviewMetrics
    → Result CategoryMetrics
    → Result UsageMetrics
    → Result RecentRequestsResponse
    → ReplyType
    → Option String
failures ov cat us req overview = failure ov
failures ov cat us req category_metrics = failure cat
failures ov cat us req usage = failure us
failures ov cat us req requests = failure req
failures ov cat us req _ = none

-- The four calls in their order, which counts where `arrival` names none that failed.
abbrev calls : List ReplyType
calls = overview ∷ category_metrics ∷ usage ∷ requests ∷ []

abbrev append : List ReplyType → List ReplyType
append [] = calls
append (t ∷ ts) = t ∷ append ts

-- The browser when the four requests are sent, and their answers.
pub record Sent : Type 0 where
  pub ov : Fetched OverviewMetrics
  pub cat : Fetched CategoryMetrics
  pub us : Fetched UsageMetrics
  pub req : Fetched RecentRequestsResponse
  pub world : World

unfoldable pub send_four : Env → ℕ → World → Sent
send_four env days w =
    let (ov, w1) = start env overview overview_path no_options w in
    let (cat, w2) = start env category_metrics categories_path no_options w1 in
    let (us, w3) = start env usage (usage_path days) no_options w2 in
    let (req, w4) = start env requests (requests_path 1 5) no_options w3 in
    record { ov = ov; cat = cat; us = us; req = req; world = w4 }

unfoldable pub receive_four : List ReplyType → Sent → Result Metrics × World
receive_four arrival s =
    let (ov, w1) = receive s.ov s.world in
    let (cat, w2) = receive s.cat w1 in
    let (us, w3) = receive s.us w2 in
    let (req, w4) = receive s.req w3 in
    (
      all_or_error (all_four ov cat us req) (first_error (failures ov cat us req) (append arrival)),
      w4,
    )

-- `await Promise.all([…])`
abbrev pub load_four : Env → List ReplyType → ℕ → M World Metrics
load_four env arrival days w = receive_four arrival (send_four env days w)

abbrev load_metrics : Env → List ReplyType → ℕ → M (Page Ui) (Unit {0})
load_metrics env arrival days = do
  m ← on_world (load_four env arrival days)
  modify (
      set_ui λ u. record u {
        overview_data = some m.ov;
        category_data = some m.cat;
        usage_data = some m.us;
        requests_data = some m.req;
      })

abbrev names_key : String → Bool
names_key message = includes message "API key" || includes message "X-API-Key"

-- The test of the connection was answered.
abbrev connected : Env → List ReplyType → ℕ → Connection → M (Page Ui) (Unit {0})
connected env arrival days conn =
    if conn.ok
    then load_metrics env arrival days
    else (if names_key conn.message
        then modify (set_world λ w. visit "/login" (remove_stored_api_key w))
        else throw (or_default conn.message "Failed to load dashboard data."))

abbrev show_error : String → M (Page Ui) (Unit {0})
show_error message =
    modify (set_ui λ u. record u { error = error_of message "Failed to load dashboard data." })

abbrev with_key : Env → List ReplyType → String → Option String → M (Page Ui) (Unit {0})
with_key env arrival range none = modify (set_world (visit "/login"))
with_key env arrival range (some key) = do
  modify (set_ui λ u. record u { is_loading = true })
  modify (set_ui λ u. record u { error = none })
  finally
      (try_catch (on_world (test_connection env none) >>= connected env arrival (days_of range))
        show_error)
      (set_ui λ u. record u { is_loading = false })

-- `fetchDashboardData`, of the render whose `dateRange` is `range`.
unfoldable pub fetch_dashboard_data : Env → List ReplyType → String → M (Page Ui) (Unit {0})
fetch_dashboard_data env arrival range = do
  key ← gets (λ p. get_stored_api_key p.world)
  with_key env arrival range (present key)

-- The browser after a click on the row of a recent request.
unfoldable pub open_row : String → World → World
open_row id = visit ("/dashboard/submissions/" ++ id)
