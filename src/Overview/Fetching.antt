-- ===== src/Overview/Fetching.antt =====
-- frontend/tenant-dashboard/app/dashboard/page.tsx: fetchDashboardData of a session that is verified
-- up to its `await` and from there on, and the effect that calls it when the range of dates changes.
use modera_shield.Base.{
  String, true, false, Option, none, some, List, ◌∷◌, Result, ok, thrown, ◌≡◌, refl, ◌==◌,
  or_default, eq_iff, All, arith, M, ◌>>=◌, present, if◌then◌else◌, throw, Bool-cases,
}
use modera_shield.Client.Types.{
  ReplyType, OverviewMetrics, CategoryMetrics, UsageMetrics, RecentRequestsResponse,
}
use modera_shield.Client.Browser.{World, get_stored_api_key}
use modera_shield.Client.Http.{Env}
use modera_shield.Client.Api.{Connection, test_connection}
use modera_shield.Page.{Page, error_of, Result-cases, on_world_lem}
use modera_shield.Overview.{
  Ui, initial, Metrics, choose_range, load_four, names_key, days_of, fetch_dashboard_data,
}
use modera_shield.Overview.View.{view, shown, figures}
use modera_shield.Fetching.{
  Fetches, Live, Event, fires, opened, run, step, AtRest, in_order, settle,
}
use modera_shield.Fetching.Laws.{IsShown}
use modera_shield.Fetching.Settled.{settle-IsShown}
use modera_shield.Fetching.Overtaken.{overtaken, IsStale, overtaken-IsStale}

unfoldable begin : Ui → Ui
begin u = record u { is_loading = true; error = none }

unfoldable finish : Result Metrics → Ui → Ui
finish (ok m) u = record u {
  is_loading = false;
  overview_data = some m.ov;
  category_data = some m.cat;
  usage_data = some m.us;
  requests_data = some m.req;
}
finish (thrown e) u = record u {
  is_loading = false;
  error = error_of e "Failed to load dashboard data.";
}

-- What the test of the connection leads to, unless it ends the session.
abbrev load_if : Env → List ReplyType → String → Connection → M World Metrics
load_if env arrival range c =
    if c.ok
    then load_four env arrival (days_of range)
    else throw (or_default c.message "Failed to load dashboard data.")

abbrev load : Env → List ReplyType → String → M World Metrics
load env arrival range = test_connection env none >>= load_if env arrival range

-- With a stored key that the test of the connection does not find missing, the handler is the two
-- parts around the requests.
fetch_dashboard_data_lem :
    (env : Env) (arrival : List ReplyType) (range key : String) (p : Page Ui) (c : Connection)
    → present (get_stored_api_key p.world) ≡ some key
    → (test_connection env none p.world).0 ≡ ok c
    → (c.ok ≡ false → names_key c.message ≡ false)
    → fetch_dashboard_data env arrival range p ≡ (
      ok tt,
      record {
        ui = finish (load env arrival range p.world).0 (begin p.ui);
        world = (load env arrival range p.world).1;
      },
    )
unfolding fetch_dashboard_data finish begin
fetch_dashboard_data_lem env arrival range key p c k e h =
    rw (k, on_world_lem (test_connection env none) (record { ui = begin p.ui; world = p.world }) e)
      (ground (
        arith,
        e,
        h,
        Bool-cases c.ok,
        Result-cases (load_four env arrival (days_of range) (test_connection env none p.world).1).0,
      ))

abbrev metrics_of :
    Option OverviewMetrics
    → Option CategoryMetrics
    → Option UsageMetrics
    → Option RecentRequestsResponse
    → Option Metrics
metrics_of (some ov) (some cat) (some us) (some req) =
    some (record { ov = ov; cat = cat; us = us; req = req })
metrics_of _ _ _ _ = none

abbrev content_of : Ui → Option Metrics
content_of u = metrics_of u.overview_data u.category_data u.usage_data u.requests_data

dashboard : Fetches Ui String Metrics
unfolding begin finish choose_range
dashboard = record {
  key = λ u. u.date_range;
  set_key = choose_range;
  same = λ j k. j == k;
  begin = begin;
  finish = finish;
  content = content_of;
  error = λ u. u.error;
  message = λ e. or_default e "Failed to load dashboard data.";
  is_loading = λ u. u.is_loading;
  same-eq = λ j k. (eq_iff j k).0;
  key-set_key = λ k u. refl;
  content-set_key = λ k u. refl;
  error-set_key = λ k u. refl;
  is_loading-set_key = λ k u. refl;
  key-begin = λ u. refl;
  content-begin = λ u. refl;
  error-begin = λ u. refl;
  is_loading-begin = λ u. refl;
  key-finish = key_kept;
  content-ok = λ a u. refl;
  content-thrown = λ e u. refl;
  error-ok = λ a u. refl;
  error-thrown = λ e u. refl;
  is_loading-finish = loaded;
}
  where
    key_kept : (r : Result Metrics) (u : Ui) → (finish r u).date_range ≡ u.date_range
    key_kept (ok m) u = refl
    key_kept (thrown e) u = refl

    loaded : (r : Result Metrics) (u : Ui) → (finish r u).is_loading ≡ false
    loaded (ok m) u = refl
    loaded (thrown e) u = refl

view-shown : (u : Ui) → u.is_loading ≡ false → u.error ≡ none → view u ≡ shown (figures u)
unfolding view
view-shown u l e = rw (l, e) refl

module _ (reply : String → Result Metrics) where
  -- The page, opened and after the events.
  abbrev after : List (Event String) → Live Ui String
  after es = run dashboard reply es (opened initial)

  -- The page, left alone from there: the timer fires and what is pending is answered.
  abbrev left_alone : List (Event String) → Live Ui String
  left_alone es = run dashboard reply (settle (after es)) (after es)

  -- Where every call is answered with values, the same for the same range, and the answers come in
  -- the order of the calls, then, whatever the user did, the overview that is left alone comes to
  -- rest and shows the figures of the answer for the range that is chosen.
  dashboard-IsShown :
      (es : List (Event String))
      → ((range : String) → (m : Metrics) × (reply range ≡ ok m))
      → All (λ e. in_order e ≡ true) es
      → AtRest (left_alone es)
        × IsShown dashboard reply (left_alone es).ui
        × (view (left_alone es).ui ≡ shown (figures (left_alone es).ui))
  unfolding dashboard
  dashboard-IsShown es total order =
      let (rest, done) = settle-IsShown dashboard reply total es initial order refl in
      (rest, done, view-shown _ done.is_loading done.error)

  -- When the range is changed while the answer for the first one is pending, and the answer for the
  -- new range arrives first, the overview ends with the new range above the figures of the first one,
  -- and without an error.
  dashboard-shows_first :
      (range : String) (m n : Metrics)
      → (range == "7d") ≡ false
      → reply "7d" ≡ ok m
      → reply range ≡ ok n
      → IsStale dashboard reply range m (after (fires ∷ overtaken range))
        × (view (after (fires ∷ overtaken range)).ui
            ≡ shown (figures (after (fires ∷ overtaken range)).ui))
  unfolding dashboard run step begin
  dashboard-shows_first range m n h p q =
      let stale = overtaken-IsStale dashboard reply "7d" range m n (begin initial) h p q in
      (stale, view-shown _ stale.is_loading stale.no_error)
