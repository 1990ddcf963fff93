-- ===== src/Integrations/Webhooks.antt =====
-- The changes of the webhooks, and the list after them
-- (frontend/tenant-dashboard/app/dashboard/integrations/page.tsx).
use Prim.Native.String.{◌++◌}
use modera_shield.Base.{
  eq_refl, String, Bool, true, false, not, Option, none, some, List, [], ◌∷◌, ◌≡◌, refl, ap, ◌∙◌,
  ok, ◌==◌, present,
}
use modera_shield.Client.Types.{WebhookResponse, webhook, webhooks, nothing}
use modera_shield.Client.Browser.{World, Request, json, flag, send}
use modera_shield.Client.Http.{Env, Response, replied, malformed, is_ok, prepare, no_options}
use modera_shield.Client.Api.{
  list_webhooks, create_webhook, update_webhook, delete_webhook, delete_options,
}
use modera_shield.Client.Requests.{answer, request-malformed, request-sent}
use modera_shield.Page.{Page, set_ui, on_world_lem, error_of}
use modera_shield.Integrations.{
  Ui, load_webhooks, handle_create_webhook, handle_toggle_webhook, handle_delete_webhook,
}

abbrev cleared : Page Ui → Page Ui
cleared p = set_ui (λ u. record u { error = none }) p

abbrev creating : Page Ui → Page Ui
creating p = set_ui (λ u. record u { is_loading = true; error = none; created_secret = none }) p

-- What a load leaves, when the list is answered.
load_webhooks-ok :
    (env : Env) (p : Page Ui) (found : List WebhookResponse)
    → (list_webhooks env p.world).0 ≡ ok found
    → load_webhooks env p ≡ (
      ok tt,
      record {
        ui = record p.ui { webhooks = found; error = none; is_loading = false };
        world = (list_webhooks env p.world).1;
      },
    )
unfolding load_webhooks
load_webhooks-ok env p found e = rw (
    on_world_lem (list_webhooks env) (set_ui (λ u. record u { is_loading = true; error = none }) p)
      e)

list_webhooks-sent :
    (env : Env) (w : World) → (r : Request) × ((list_webhooks env w).1.sent ≡ r ∷ w.sent)
unfolding list_webhooks
list_webhooks-sent env w = (_, request-sent env webhooks "/webhooks/" no_options w)

update_webhook-sent :
    (env : Env) (id : String) (enabled : Bool) (w : World)
    → (r : Request) × ((update_webhook env id enabled w).1.sent ≡ r ∷ w.sent)
      × (r.method ≡ "PATCH")
      × (r.body ≡ some (json (("enabled", flag enabled) ∷ [])))
unfolding update_webhook prepare
update_webhook-sent env id enabled w = (_, request-sent env webhook _ _ w, refl, refl)

-- A toggle that the backend takes, and then answers with the list, asks for the state that the
-- webhook did not have and for that list; the page shows it and no error.
handle_toggle_webhook-reloads :
    (env : Env) (id : String) (enabled : Bool) (p : Page Ui) (w : WebhookResponse)
    (found : List WebhookResponse)
    → (update_webhook env id (not enabled) p.world).0 ≡ ok w
    → (list_webhooks env (update_webhook env id (not enabled) p.world).1).0 ≡ ok found
    → ((handle_toggle_webhook env id enabled p).1.ui.webhooks ≡ found)
      × ((handle_toggle_webhook env id enabled p).1.ui.error ≡ none)
      × ((load change : Request) × ((handle_toggle_webhook env id enabled p).1.world.sent
            ≡ load ∷ change ∷ p.world.sent)
          × (change.method ≡ "PATCH")
          × (change.body ≡ some (json (("enabled", flag (not enabled)) ∷ []))))
unfolding handle_toggle_webhook
handle_toggle_webhook-reloads env id enabled p w found e f =
    let (change, asked, patched, told) = update_webhook-sent env id (not enabled) p.world in
    let (load, loaded) = list_webhooks-sent env (update_webhook env id (not enabled) p.world).1 in
    rw
      (
        on_world_lem (update_webhook env id (not enabled)) (cleared p) e,
        load_webhooks-ok env
            (record {
              ui = (cleared p).ui;
              world = (update_webhook env id (not enabled) p.world).1;
            })
            found f,
      )
      (refl, refl, (load, change, loaded ∙ ap (λ l. load ∷ l) asked, patched, told))

-- A new webhook with an address that is not empty, where the backend takes it and answers with the
-- list: its secret is offered, the input is cleared, and the page shows that list and stops loading.
handle_create_webhook-offers_secret :
    (env : Env) (url : String) (p : Page Ui) (w : WebhookResponse) (found : List WebhookResponse)
    → (url == "") ≡ false
    → (create_webhook env url p.world).0 ≡ ok w
    → (list_webhooks env (create_webhook env url p.world).1).0 ≡ ok found
    → ((handle_create_webhook env url p).1.ui.created_secret ≡ present w.secret)
      × ((handle_create_webhook env url p).1.ui.new_url ≡ "")
      × ((handle_create_webhook env url p).1.ui.webhooks ≡ found)
      × ((handle_create_webhook env url p).1.ui.is_loading ≡ false)
unfolding handle_create_webhook
handle_create_webhook-offers_secret env url p w found n e f =
    rw
      (
        n,
        on_world_lem (create_webhook env url) (creating p) e,
        load_webhooks-ok env
            (record {
              ui = record (creating p).ui { new_url = ""; created_secret = present w.secret };
              world = (create_webhook env url p.world).1;
            })
            found f,
      )
      (refl, refl, refl, refl)

-- A confirmed deletion that is answered with a status from 200 to 299 and no JSON body, as with 204,
-- is reported as a failure: an error is shown, nothing else of the page changes, so that the list
-- still has the webhook, and the list is not asked for.
pub handle_delete_webhook-without_body :
    (env : Env) (seen : Option String) (id : String) (p : Page Ui) (r : Response (Unit {0}))
    (message : String)
    → answer env nothing ("/webhooks/" ++ id) delete_options p.world ≡ replied r
    → is_ok r.status ≡ true
    → r.value ≡ malformed message
    → ((handle_delete_webhook env true seen id p).1.ui
        ≡ record p.ui { error = error_of message "Failed to delete webhook" })
      × ((handle_delete_webhook env true seen id p).1.world
          ≡ send (prepare env ("/webhooks/" ++ id) delete_options p.world) p.world)
unfolding handle_delete_webhook delete_webhook
handle_delete_webhook-without_body env seen id p r message e o m =
    let outcome =
      request-malformed env nothing ("/webhooks/" ++ id) delete_options p.world r message e o m in
    rw outcome (refl, refl)

-- A confirmed deletion of the selected webhook that is answered with a JSON body, and whose load is
-- answered: the page shows the backend's list and no error, and no webhook is selected any more.
handle_delete_webhook-reloads :
    (env : Env) (id : String) (p : Page Ui) (found : List WebhookResponse)
    → (delete_webhook env id p.world).0 ≡ ok tt
    → (list_webhooks env (delete_webhook env id p.world).1).0 ≡ ok found
    → ((handle_delete_webhook env true (some id) id p).1.ui.webhooks ≡ found)
      × ((handle_delete_webhook env true (some id) id p).1.ui.error ≡ none)
      × ((handle_delete_webhook env true (some id) id p).1.ui.selected_webhook_id ≡ none)
      × ((handle_delete_webhook env true (some id) id p).1.ui.deliveries ≡ [])
unfolding handle_delete_webhook
handle_delete_webhook-reloads env id p found e f =
    rw
      (
        on_world_lem (delete_webhook env id) (cleared p) e,
        eq_refl id,
        load_webhooks-ok env
            (record {
              ui = record (cleared p).ui { selected_webhook_id = none; deliveries = [] };
              world = (delete_webhook env id p.world).1;
            })
            found f,
      )
      (refl, refl, refl, refl)
