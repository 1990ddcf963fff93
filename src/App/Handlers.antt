-- ===== src/App/Handlers.antt =====
-- The handlers of the dashboard's pages, as made of the pieces of `Tracks`.
use modera_shield.Base.{ℕ, arith, String, Bool, Option}
use modera_shield.Client.Browser.{World}
use modera_shield.Client.Http.{Env}
use modera_shield.Client.Api.{
  get_requests, get_request_detail, create_api_key, list_webhooks, create_webhook, update_webhook,
  delete_webhook, get_webhook_deliveries,
}
use modera_shield.Page.{Page}
use modera_shield.App.Tracks.{Tracks, request-Tracks}
use modera_shield.Queue
use modera_shield.Submissions
use modera_shield.Detail
use modera_shield.Integrations

module _ (R : World → World → Type 0) (tracks : Tracks R) (env : Env) where
  get_requests-Tracks : (page size : ℕ) (w : World) → R w (get_requests env page size w).1
  unfolding get_requests
  get_requests-Tracks page size w = request-Tracks R tracks env _ _ _ w

  pub get_request_detail-Tracks : (id : String) (w : World) → R w (get_request_detail env id w).1
  unfolding get_request_detail
  get_request_detail-Tracks id w = request-Tracks R tracks env _ _ _ w

  pub create_api_key-Tracks : (id name : String) (w : World) → R w (create_api_key env id name w).1
  unfolding create_api_key
  create_api_key-Tracks id name w = request-Tracks R tracks env _ _ _ w

  list_webhooks-Tracks : (w : World) → R w (list_webhooks env w).1
  unfolding list_webhooks
  list_webhooks-Tracks w = request-Tracks R tracks env _ _ _ w

  create_webhook-Tracks : (url : String) (w : World) → R w (create_webhook env url w).1
  unfolding create_webhook
  create_webhook-Tracks url w = request-Tracks R tracks env _ _ _ w

  update_webhook-Tracks :
      (id : String) (enabled : Bool) (w : World) → R w (update_webhook env id enabled w).1
  unfolding update_webhook
  update_webhook-Tracks id enabled w = request-Tracks R tracks env _ _ _ w

  delete_webhook-Tracks : (id : String) (w : World) → R w (delete_webhook env id w).1
  unfolding delete_webhook
  delete_webhook-Tracks id w = request-Tracks R tracks env _ _ _ w

  get_webhook_deliveries-Tracks :
      (id : String) (w : World) → R w (get_webhook_deliveries env id w).1
  unfolding get_webhook_deliveries
  get_webhook_deliveries-Tracks id w = request-Tracks R tracks env _ _ _ w

  pub fetch_flagged-Tracks : (p : Page Queue.Ui) → R p.world (Queue.fetch_flagged env p).1.world
  unfolding Queue.fetch_flagged
  fetch_flagged-Tracks p = ground (arith, get_requests-Tracks 1 100 p.world)

  pub fetch_requests-Tracks :
      (page : ℕ) (p : Page Submissions.Ui)
      → R p.world (Submissions.fetch_requests env page p).1.world
  unfolding Submissions.fetch_requests
  fetch_requests-Tracks page p = ground (arith, get_requests-Tracks page 25 p.world)

  pub fetch_detail-Tracks :
      (id : String) (p : Page Detail.Ui) → R p.world (Detail.fetch_detail env id p).1.world
  unfolding Detail.fetch_detail
  fetch_detail-Tracks id p = ground (arith, get_request_detail-Tracks id p.world)

  pub poll-Tracks : (id : String) (p : Page Detail.Ui) → R p.world (Detail.poll env id p).1.world
  unfolding Detail.poll
  poll-Tracks id p = ground (arith, get_request_detail-Tracks id p.world)

  pub handle_view_deliveries-Tracks :
      (meanwhile : Integrations.Ui → Integrations.Ui) (id : String) (p : Page Integrations.Ui)
      → R p.world (Integrations.handle_view_deliveries env meanwhile id p).1.world
  unfolding Integrations.handle_view_deliveries
  handle_view_deliveries-Tracks meanwhile id p =
      ground (arith, get_webhook_deliveries-Tracks id p.world)

  pub load_webhooks-Tracks :
      (p : Page Integrations.Ui) → R p.world (Integrations.load_webhooks env p).1.world
  unfolding Integrations.load_webhooks
  load_webhooks-Tracks p = ground (arith, list_webhooks-Tracks p.world)

  -- Also after a call.
  load_after :
      (w : World) (p : Page Integrations.Ui)
      → R w p.world
      → R w (Integrations.load_webhooks env p).1.world
  load_after w p h = tracks.follows h (load_webhooks-Tracks p)

  pub handle_toggle_webhook-Tracks :
      (id : String) (enabled : Bool) (p : Page Integrations.Ui)
      → R p.world (Integrations.handle_toggle_webhook env id enabled p).1.world
  unfolding Integrations.handle_toggle_webhook
  handle_toggle_webhook-Tracks id enabled p = grind (arith, update_webhook-Tracks, load_after)

  pub handle_create_webhook-Tracks :
      (url : String) (p : Page Integrations.Ui)
      → R p.world (Integrations.handle_create_webhook env url p).1.world
  unfolding Integrations.handle_create_webhook
  handle_create_webhook-Tracks url p =
      grind (arith, create_webhook-Tracks, load_after, tracks.stays)

  pub handle_delete_webhook-Tracks :
      (confirmed : Bool) (seen : Option String) (id : String) (p : Page Integrations.Ui)
      → R p.world (Integrations.handle_delete_webhook env confirmed seen id p).1.world
  unfolding Integrations.handle_delete_webhook
  handle_delete_webhook-Tracks confirmed seen id p =
      grind (arith, delete_webhook-Tracks, load_after, tracks.stays)
