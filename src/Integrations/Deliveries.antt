-- ===== src/Integrations/Deliveries.antt =====
-- The log of deliveries under the selected webhook
-- (frontend/tenant-dashboard/app/dashboard/integrations/page.tsx).
use modera_shield.Base.{String, true, some, List, ◌≡◌, ok, eq_refl}
use modera_shield.Client.Types.{WebhookDeliveryResponse}
use modera_shield.Client.Http.{Env}
use modera_shield.Client.Api.{get_webhook_deliveries}
use modera_shield.Page.{Page, set_ui, after_await_lem}
use modera_shield.Integrations.{Ui, handle_view_deliveries}
use modera_shield.Integrations.View.{log_of, logged}

module _ (env : Env) (meanwhile : Ui → Ui) (id : String) (p : Page Ui)
    (found : List WebhookDeliveryResponse)
    (answered : (get_webhook_deliveries env id p.world).0 ≡ ok found) where
  abbrev asking : Ui
  asking = record p.ui { selected_webhook_id = some id; is_loading_deliveries = true }

  -- When the deliveries of a webhook arrive, the log of the webhook that is selected by then shows
  -- them, whether or not it is the one that was asked about.
  pub handle_view_deliveries-shows :
      (selected : String)
      → (meanwhile asking).selected_webhook_id ≡ some selected
      → log_of (handle_view_deliveries env meanwhile id p).1.ui selected ≡ logged found
  unfolding handle_view_deliveries log_of
  handle_view_deliveries-shows selected s = rw (
    after_await_lem meanwhile (get_webhook_deliveries env id)
        (set_ui (λ u. record u { selected_webhook_id = some id; is_loading_deliveries = true }) p)
        answered,
    s,
    eq_refl selected,
  )
