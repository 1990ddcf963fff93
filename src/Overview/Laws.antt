-- ===== src/Overview/Laws.antt =====
-- The four concurrent requests of the overview and what the page shows after them
-- (frontend/tenant-dashboard/app/dashboard/page.tsx).
use modera_shield.Base.{
  ℕ, String, true, false, Option, none, some, List, ◌∷◌, ok, thrown, ◌≡◌, refl, ap, present,
}
use modera_shield.Client.Types.{ReplyType, OverviewMetrics}
use modera_shield.Client.Browser.{World, Request, get_stored_api_key}
use modera_shield.Client.Http.{Env, get_header, no_options}
use modera_shield.Client.Api.{
  Connection, test_connection, overview_path, categories_path, usage_path, requests_path,
}
use modera_shield.Client.Requests.{prepare-sends_key}
use modera_shield.Page.{Page, on_world_lem, set_ui}
use modera_shield.Overview.{Ui, Metrics, send_four, load_four, fetch_dashboard_data, days_of}
use modera_shield.Overview.View.{shown, figures, Figures, settled, view}

-- A request that carries the key of the session.
abbrev Carries : String → Request → Type 0
Carries key r = get_header "X-API-Key" r.headers ≡ some key

-- With a stored key, all four requests are sent before an answer is received, and each of them
-- carries that key.
send_four-Carries_key :
    (env : Env) (days : ℕ) (w : World) {key : String}
    → present (get_stored_api_key w) ≡ some key
    → (a b c d : Request) × ((send_four env days w).world.sent ≡ d ∷ c ∷ b ∷ a ∷ w.sent)
      × Carries key a
      × Carries key b
      × Carries key c
      × Carries key d
unfolding send_four get_stored_api_key
send_four-Carries_key env days w h = (
  _,
  _,
  _,
  _,
  refl,
  (prepare-sends_key env overview_path no_options w h).0,
  (prepare-sends_key env categories_path no_options _ h).0,
  (prepare-sends_key env (usage_path days) no_options _ h).0,
  (prepare-sends_key env (requests_path 1 5) no_options _ h).0,
)

settled-shown :
    (error : Option String) {metrics : Option OverviewMetrics} {o : OverviewMetrics} {f : Figures}
    → metrics ≡ some o
    → settled error metrics f ≡ shown f
settled-shown none h = refl
settled-shown (some error) {metrics = m} {f = f} h =
    ap (λ (x : Option OverviewMetrics). settled (some error) x f) h

module _ (env : Env) (arrival : List ReplyType) (range : String) (p : Page Ui) (key : String)
    (c : Connection) (stored : present (get_stored_api_key p.world) ≡ some key)
    (tested : (test_connection env none p.world).0 ≡ ok c) (live : c.ok ≡ true) where
  abbrev asking : Page Ui
  asking = set_ui (λ u. record u { is_loading = true; error = none }) p

  abbrev tested_world : World
  tested_world = (test_connection env none p.world).1

  -- With a stored key that the backend verifies, and values of all four requests, the page shows the
  -- figures of these values.
  fetch_dashboard_data-shows :
      (m : Metrics)
      → (load_four env arrival (days_of range) tested_world).0 ≡ ok m
      → view (fetch_dashboard_data env arrival range p).1.ui
        ≡ shown (
            figures (record p.ui {
              is_loading = false;
              error = none;
              overview_data = some m.ov;
              category_data = some m.cat;
              usage_data = some m.us;
              requests_data = some m.req;
            }))
  unfolding fetch_dashboard_data view
  fetch_dashboard_data-shows m e = rw (
    stored,
    on_world_lem (test_connection env none) asking tested,
    live,
    on_world_lem (load_four env arrival (days_of range)) (record asking { world = tested_world }) e,
  )

  -- With a stored key that the backend verifies, when one of the four requests fails, a page that had
  -- metrics before shows the figures of those, and not the error.
  pub failed_refresh-keeps_figures :
      (message : String) (o : OverviewMetrics)
      → (load_four env arrival (days_of range) tested_world).0 ≡ thrown message
      → p.ui.overview_data ≡ some o
      → (u : Ui) × (view (fetch_dashboard_data env arrival range p).1.ui ≡ shown (figures u))
        × (u.overview_data ≡ p.ui.overview_data)
        × (u.category_data ≡ p.ui.category_data)
        × (u.usage_data ≡ p.ui.usage_data)
        × (u.requests_data ≡ p.ui.requests_data)
  unfolding fetch_dashboard_data view
  failed_refresh-keeps_figures message o e f =
      rw
        (
          stored,
          on_world_lem (test_connection env none) asking tested,
          live,
          on_world_lem (load_four env arrival (days_of range))
              (record asking { world = tested_world }) e,
        )
        (_, settled-shown _ f, refl, refl, refl, refl)
