-- ===== src/Analytics/Fetching.antt =====
-- frontend/tenant-dashboard/app/dashboard/analytics/page.tsx: fetchAnalytics up to its `await` and
-- from there on, and the effect that calls it when the range of dates changes.
use modera_shield.Base.{
  String, true, false, Option, none, some, List, ◌∷◌, Result, ok, thrown, ◌≡◌, refl, ◌==◌,
  or_default, eq_iff, All, arith,
}
use modera_shield.Client.Types.{ReplyType, OverviewMetrics, CategoryMetrics, UsageMetrics}
use modera_shield.Client.Http.{Env}
use modera_shield.Page.{Page, error_of, Result-cases}
use modera_shield.Analytics.{
  Ui, initial, Metrics, choose_range, load_three, days_of, fetch_analytics, figures, shown, view,
}
use modera_shield.Fetching.{
  Fetches, Live, settle, opened, Event, fires, run, step, in_order, AtRest,
}
use modera_shield.Fetching.Laws.{IsShown}
use modera_shield.Fetching.Settled.{settle-IsShown}
use modera_shield.Fetching.Overtaken.{overtaken, overtaken-IsStale}

unfoldable begin : Ui → Ui
begin u = record u { is_loading = true; error = none }

unfoldable finish : Result Metrics → Ui → Ui
finish (ok m) u = record u {
  is_loading = false;
  overview_data = some m.ov;
  usage_data = some m.us;
  categories = some m.cat;
}
finish (thrown e) u = record u {
  is_loading = false;
  error = error_of e "Failed to fetch analytics metrics.";
}

-- The handler is the two parts around the requests.
fetch_analytics_lem :
    (env : Env) (arrival : List ReplyType) (range : String) (p : Page Ui)
    → fetch_analytics env arrival range p ≡ (
      ok tt,
      record {
        ui = finish (load_three env arrival (days_of range) p.world).0 (begin p.ui);
        world = (load_three env arrival (days_of range) p.world).1;
      },
    )
unfolding fetch_analytics finish begin
fetch_analytics_lem env arrival range p =
    ground (arith, Result-cases (load_three env arrival (days_of range) p.world).0)

abbrev metrics_of :
    Option OverviewMetrics → Option UsageMetrics → Option CategoryMetrics → Option Metrics
metrics_of (some ov) (some us) (some cat) = some (record { ov = ov; us = us; cat = cat })
metrics_of _ _ _ = none

pub analytics : Fetches Ui String Metrics
unfolding begin finish choose_range
analytics = record {
  key = λ u. u.date_range;
  set_key = choose_range;
  same = λ j k. j == k;
  begin = begin;
  finish = finish;
  content = λ u. metrics_of u.overview_data u.usage_data u.categories;
  error = λ u. u.error;
  message = λ e. or_default e "Failed to fetch analytics metrics.";
  is_loading = λ u. u.is_loading;
  same-eq = λ j k. (eq_iff j k).0;
  key-set_key = λ k u. refl;
  content-set_key = λ k u. refl;
  error-set_key = λ k u. refl;
  is_loading-set_key = λ k u. refl;
  key-begin = λ u. refl;
  content-begin = λ u. refl;
  error-begin = λ u. refl;
  is_loading-begin = λ u. refl;
  key-finish = key_kept;
  content-ok = λ a u. refl;
  content-thrown = λ e u. refl;
  error-ok = λ a u. refl;
  error-thrown = λ e u. refl;
  is_loading-finish = loaded;
}
  where
    key_kept : (r : Result Metrics) (u : Ui) → (finish r u).date_range ≡ u.date_range
    key_kept (ok m) u = refl
    key_kept (thrown e) u = refl

    loaded : (r : Result Metrics) (u : Ui) → (finish r u).is_loading ≡ false
    loaded (ok m) u = refl
    loaded (thrown e) u = refl

metrics_of-parts :
    (ov : Option OverviewMetrics) (us : Option UsageMetrics) (cat : Option CategoryMetrics)
    → (m : Metrics) → metrics_of ov us cat ≡ some m
    → us ≡ some m.us
metrics_of-parts ov us cat m e = ground (arith, e)

view-shown : (u : Ui) → u.is_loading ≡ false → u.error ≡ none → view u ≡ shown (figures u)
unfolding view
view-shown u l e = rw (l, e) refl

module _ (reply : String → Result Metrics) where
  -- The page, opened and after the events.
  abbrev pub after : List (Event String) → Live Ui String
  after es = run analytics reply es (opened initial)

  -- The page, left alone from there: the timer fires and what is pending is answered.
  abbrev pub left_alone : List (Event String) → Live Ui String
  left_alone es = run analytics reply (settle (after es)) (after es)

  -- Where every call is answered with values, the same for the same range, and the answers come in
  -- the order of the calls, then, whatever the user did, the analytics that are left alone come to
  -- rest and show the figures of the answer for the range that is chosen.
  pub analytics-IsShown :
      (es : List (Event String))
      → ((range : String) → (m : Metrics) × (reply range ≡ ok m))
      → All (λ e. in_order e ≡ true) es
      → AtRest (left_alone es)
        × IsShown analytics reply (left_alone es).ui
        × (view (left_alone es).ui ≡ shown (figures (left_alone es).ui))
  unfolding analytics
  analytics-IsShown es total order =
      let (rest, done) = settle-IsShown analytics reply total es initial order refl in
      (rest, done, view-shown _ done.is_loading done.error)

  -- When the range is changed while the answer for the first one is pending, both calls are
  -- answered with values, and the answer for the new range arrives first, the analytics come to
  -- rest with the new range above figures in which the usage is that of the first range.
  pub analytics-shows_first :
      (range : String) (m n : Metrics)
      → (range == "30d") ≡ false
      → reply "30d" ≡ ok m
      → reply range ≡ ok n
      → AtRest (after (fires ∷ overtaken range))
        × ((after (fires ∷ overtaken range)).ui.date_range ≡ range)
        × ((after (fires ∷ overtaken range)).ui.usage_data ≡ some m.us)
        × (view (after (fires ∷ overtaken range)).ui
            ≡ shown (figures (after (fires ∷ overtaken range)).ui))
  unfolding analytics run step begin
  analytics-shows_first range m n h p q =
      let stale = overtaken-IsStale analytics reply "30d" range m n (begin initial) h p q in
      (
        stale.at_rest,
        stale.chosen,
        metrics_of-parts _ _ _ m stale.shown,
        view-shown _ stale.is_loading stale.no_error,
      )
