-- ===== src/Analytics/Laws.antt =====
-- The three concurrent requests of the analytics
-- (frontend/tenant-dashboard/app/dashboard/analytics/page.tsx).
use modera_shield.Base.{String, true, false, none, some, List, ok, ◌≡◌}
use modera_shield.Client.Types.{ReplyType}
use modera_shield.Client.Http.{Env}
use modera_shield.Page.{Page, set_ui, on_world_lem}
use modera_shield.Analytics.{
  Ui, Metrics, load_three, days_of, fetch_analytics, figures, shown, view,
}

-- With values of all three requests the page shows the figures of these values.
fetch_analytics-shows :
    (env : Env) (arrival : List ReplyType) (range : String) (p : Page Ui) (m : Metrics)
    → (load_three env arrival (days_of range) p.world).0 ≡ ok m
    → view (fetch_analytics env arrival range p).1.ui
      ≡ shown (
          figures (record p.ui {
            is_loading = false;
            error = none;
            overview_data = some m.ov;
            usage_data = some m.us;
            categories = some m.cat;
          }))
unfolding fetch_analytics view
fetch_analytics-shows env arrival range p m e = rw (
    on_world_lem (load_three env arrival (days_of range))
      (set_ui (λ u. record u { is_loading = true; error = none }) p) e)
