-- ===== src/Analytics.antt =====
-- frontend/tenant-dashboard/app/dashboard/analytics/page.tsx: the metrics of a longer time.
-- `arrival` is the order in which the answers of the three concurrent requests arrive; it decides
-- which error is shown where several of them fail. This page does not look for a key first.
pub mod Laws
pub mod Fetching
use Prim.Native.String.{◌++◌}
use modera_shield.Base.{
  ℕ, ◌*◌, String, Bool, true, false, Option, none, some, List, [], ◌∷◌, map, Result, M, modify,
  ◌>>=◌, ◌>>◌, try_catch, finally, ◌==◌, nat_eq, if◌then◌else◌, present,
}
use modera_shield.Client.Types.{
  ReplyType, overview, category_metrics, usage, OverviewMetrics, CategoryMetrics, UsageMetrics,
  UsageDay,
}
use modera_shield.Client.Browser.{World}
use modera_shield.Client.Http.{Env, Fetched, no_options, receive}
use modera_shield.Client.Api.{overview_path, categories_path, usage_path}
use modera_shield.Client.Concurrent.{start, failure, first_error, all_or_error}
use modera_shield.Page.{Page, on_world, set_ui, error_of}
use modera_shield.Charts.{Legend, donut_data, legend, flag_rate, percent_of, category_data, counted}

pub record Ui : Type 0 where
  pub date_range : String
  pub is_loading : Bool
  pub error : Option String
  pub overview_data : Option OverviewMetrics
  pub usage_data : Option UsageMetrics
  pub categories : Option CategoryMetrics

abbrev initial : Ui
initial = record {
  date_range = "30d";
  is_loading = true;
  error = none;
  overview_data = none;
  usage_data = none;
  categories = none;
}

-- The selector in the bar above the page; the page fetches again when the range changes.
choose_range : String → Ui → Ui
choose_range range u = record u { date_range = range }

unfoldable pub days_of : String → ℕ
days_of range =
    if range == "90d"
    then 90
    else (if range == "30d" then 30 else (if range == "14d" then 14 else 7))

-- The values of the three requests.
pub record Metrics : Type 0 where
  pub ov : OverviewMetrics
  pub us : UsageMetrics
  pub cat : CategoryMetrics

abbrev all_three :
    Result OverviewMetrics → Result UsageMetrics → Result CategoryMetrics → Option Metrics
all_three (Result.ok ov) (Result.ok us) (Result.ok cat) =
    some (record { ov = ov; us = us; cat = cat })
all_three _ _ _ = none

abbrev failures :
    Result OverviewMetrics
    → Result UsageMetrics
    → Result CategoryMetrics
    → ReplyType
    → Option String
failures ov us cat overview = failure ov
failures ov us cat usage = failure us
failures ov us cat category_metrics = failure cat
failures ov us cat _ = none

-- The calls in their order, which counts where `arrival` names none that failed.
abbrev append : List ReplyType → List ReplyType
append [] = overview ∷ usage ∷ category_metrics ∷ []
append (t ∷ ts) = t ∷ append ts

-- The answers of the three requests, and the browser when they are sent.
pub record Sent : Type 0 where
  pub ov : Fetched OverviewMetrics
  pub us : Fetched UsageMetrics
  pub cat : Fetched CategoryMetrics
  pub world : World

unfoldable pub send_three : Env → ℕ → World → Sent
send_three env days w =
    let (ov, w1) = start env overview overview_path no_options w in
    let (us, w2) = start env usage (usage_path days) no_options w1 in
    let (cat, w3) = start env category_metrics categories_path no_options w2 in
    record { ov = ov; us = us; cat = cat; world = w3 }

unfoldable pub receive_three : List ReplyType → Sent → Result Metrics × World
receive_three arrival s =
    let (ov, w1) = receive s.ov s.world in
    let (us, w2) = receive s.us w1 in
    let (cat, w3) = receive s.cat w2 in
    (all_or_error (all_three ov us cat) (first_error (failures ov us cat) (append arrival)), w3)

abbrev pub load_three : Env → List ReplyType → ℕ → M World Metrics
load_three env arrival days w = receive_three arrival (send_three env days w)

abbrev load_metrics : Env → List ReplyType → ℕ → M (Page Ui) (Unit {0})
load_metrics env arrival days = do
  m ← on_world (load_three env arrival days)
  modify (
      set_ui λ u. record u {
        overview_data = some m.ov;
        usage_data = some m.us;
        categories = some m.cat;
      })

abbrev show_error : String → M (Page Ui) (Unit {0})
show_error message =
    modify (set_ui λ u. record u { error = error_of message "Failed to fetch analytics metrics." })

-- `fetchAnalytics`, of the render whose `dateRange` is `range`.
unfoldable pub fetch_analytics : Env → List ReplyType → String → M (Page Ui) (Unit {0})
fetch_analytics env arrival range = do
  modify (set_ui λ u. record u { is_loading = true })
  modify (set_ui λ u. record u { error = none })
  finally (try_catch (load_metrics env arrival (days_of range)) show_error)
      (set_ui λ u. record u { is_loading = false })

-- `failed_requests / total_requests` in percent, or the fixed text where there is no request.
abbrev failed_ratio : Option OverviewMetrics → String
failed_ratio none = "0.0%"
failed_ratio (some o) =
    if nat_eq o.total_requests 0
    then "0.0%"
    else percent_of o.failed_requests o.total_requests ++ "%"

pub record Figures : Type 0 where
  pub total : ℕ
  pub rate : String
  pub failed : String
  pub days : List UsageDay
  pub by_category : List (String × ℕ)
  pub outcomes : List Legend

abbrev days : Option UsageMetrics → List UsageDay
days none = []
days (some u) = u.days

unfoldable pub figures : Ui → Figures
figures u = record {
  total = counted (λ o. o.total_requests) u.overview_data;
  rate = flag_rate 2 u.overview_data;
  failed = failed_ratio u.overview_data;
  days = days u.usage_data;
  by_category = category_data u.categories;
  outcomes = map (legend u.overview_data) (donut_data u.overview_data);
}

pub data View : Type 0 where
  loading : View
  failed : String → View
  shown : Figures → View

abbrev settled : Option String → Option OverviewMetrics → Figures → View
settled (some error) none f = failed error
settled (some error) (some o) f = shown f
settled none o f = shown f

unfoldable pub view : Ui → View
view u = if u.is_loading then loading else settled (present u.error) u.overview_data (figures u)
