-- ===== src/Integrations.antt =====
-- frontend/tenant-dashboard/app/dashboard/integrations/page.tsx: the webhooks of the tenant and the
-- samples to copy.
-- `meanwhile` is what the other handlers do to the state during the `await` of a handler where that
-- matters; `confirmed` is the user's answer to `confirm`. The timers that hide the ticks of the copy
-- buttons are operations of their own.
pub mod View
pub mod Guide
pub mod Webhooks
pub mod Deliveries
use Prim.Native.String.{◌++◌}
use modera_shield.Base.{
  ℕ, String, Bool, true, false, not, Option, none, some, List, [], ◌∷◌, map, M, pure, modify, ◌>>=◌,
  ◌>>◌, try_catch, finally, ◌==◌, if◌then◌else◌, present,
}
use modera_shield.Client.Types.{WebhookResponse, WebhookDeliveryResponse}
use modera_shield.Client.Browser.{World, get_stored_api_key}
use modera_shield.Client.Http.{Env}
use modera_shield.Client.Api.{
  list_webhooks, create_webhook, update_webhook, delete_webhook, get_webhook_deliveries,
}
use modera_shield.Page.{Page, on_world, after_await, set_ui, set_world, error_of}

pub record Ui : Type 0 where
  pub copied_install : Bool
  pub copied_code : Bool
  pub webhooks : List WebhookResponse
  pub new_url : String
  pub created_secret : Option String
  pub copied_secret : Bool
  pub is_loading : Bool
  pub error : Option String
  pub selected_webhook_id : Option String
  pub deliveries : List WebhookDeliveryResponse
  pub is_loading_deliveries : Bool

abbrev pub initial : Ui
initial = record {
  copied_install = false;
  copied_code = false;
  webhooks = [];
  new_url = "";
  created_secret = none;
  copied_secret = false;
  is_loading = false;
  error = none;
  selected_webhook_id = none;
  deliveries = [];
  is_loading_deliveries = false;
}

-- `setError(err.message || fallback)` in a `catch`.
abbrev show_error : String → String → M (Page Ui) (Unit {0})
show_error fallback message = modify (set_ui λ u. record u { error = error_of message fallback })

abbrev list_into_state : Env → M (Page Ui) (Unit {0})
list_into_state env = do
  found ← on_world (list_webhooks env)
  modify (set_ui λ u. record u { webhooks = found })

unfoldable pub load_webhooks : Env → M (Page Ui) (Unit {0})
load_webhooks env = do
  modify (set_ui λ u. record u { is_loading = true })
  modify (set_ui λ u. record u { error = none })
  finally (try_catch (list_into_state env) (show_error "Failed to load webhooks"))
      (set_ui λ u. record u { is_loading = false })

abbrev create_from : Env → String → M (Page Ui) (Unit {0})
create_from env url = do
  webhook ← on_world (create_webhook env url)
  modify (set_ui λ u. record u { new_url = "" })
  modify (set_ui λ u. record u { created_secret = present webhook.secret })
  load_webhooks env

-- `handleCreateWebhook`, of the render whose input holds `url`.
unfoldable pub handle_create_webhook : Env → String → M (Page Ui) (Unit {0})
handle_create_webhook env url = if url == "" then pure tt else do
  modify (set_ui λ u. record u { is_loading = true })
  modify (set_ui λ u. record u { error = none })
  modify (set_ui λ u. record u { created_secret = none })
  finally (try_catch (create_from env url) (show_error "Failed to create webhook"))
      (set_ui λ u. record u { is_loading = false })

abbrev toggle : Env → String → Bool → M (Page Ui) (Unit {0})
toggle env id current_enabled = do
  modify (set_ui λ u. record u { error = none })
  webhook ← on_world (update_webhook env id (not current_enabled))
  load_webhooks env

unfoldable pub handle_toggle_webhook : Env → String → Bool → M (Page Ui) (Unit {0})
handle_toggle_webhook env id current_enabled =
    try_catch (toggle env id current_enabled) (show_error "Failed to update webhook")

abbrev is_selected : Option String → String → Bool
is_selected none id = false
is_selected (some selected) id = selected == id

-- `seen` is the selection of the render that the handler was made in.
abbrev delete : Env → Option String → String → M (Page Ui) (Unit {0})
delete env seen id = do
  modify (set_ui λ u. record u { error = none })
  on_world (delete_webhook env id)
  modify (
      set_ui λ u.
        if is_selected seen id then record u { selected_webhook_id = none; deliveries = [] } else u)
  load_webhooks env

unfoldable pub handle_delete_webhook :
    Env → (confirmed : Bool) → (seen : Option String) → String → M (Page Ui) (Unit {0})
handle_delete_webhook env confirmed seen id =
    if confirmed
    then try_catch (delete env seen id) (show_error "Failed to delete webhook")
    else pure tt

abbrev deliveries_into_state : Env → (Ui → Ui) → String → M (Page Ui) (Unit {0})
deliveries_into_state env meanwhile id = do
  found ← after_await meanwhile (on_world (get_webhook_deliveries env id))
  modify (set_ui λ u. record u { deliveries = found })

unfoldable pub handle_view_deliveries : Env → (Ui → Ui) → String → M (Page Ui) (Unit {0})
handle_view_deliveries env meanwhile id = do
  modify (set_ui λ u. record u { selected_webhook_id = some id })
  modify (set_ui λ u. record u { is_loading_deliveries = true })
  finally
      (try_catch (deliveries_into_state env meanwhile id) (show_error "Failed to load deliveries"))
      (set_ui λ u. record u { is_loading_deliveries = false })

abbrev copy : String → World → World
copy text w = record w { clipboard = some text }

abbrev pub copy_secret : Option String → Page Ui → Page Ui
copy_secret none p = p
copy_secret (some secret) p =
    set_ui (λ u. record u { copied_secret = true }) (set_world (copy secret) p)

unfoldable pub handle_copy_secret : Page Ui → Page Ui
handle_copy_secret p = copy_secret (present p.ui.created_secret) p

unfoldable pub handle_copy_install : Page Ui → Page Ui
handle_copy_install p =
    set_ui (λ u. record u { copied_install = true }) (set_world (copy "pip install moderashield") p)

abbrev key_or_sample : Option String → String
key_or_sample none = "msk_your_key_here"
key_or_sample (some key) = key

-- `userApiKey` of a render.
unfoldable pub user_api_key : World → String
user_api_key w = key_or_sample (present (get_stored_api_key w))

-- The code that "Copy Code" copies.
unfoldable pub copied_sample : String → String
copied_sample key =
    "from moderashield import Moderashield\n\nclient = Moderashield(api_key=\""
    ++ (key
        ++ ("\")\nresult = client.moderate_text(\"Content text to scan\")\n\nif result.is_flagged:\n"
            ++ "    print(f\"Abuse detected: {result.categories}\")"))

unfoldable pub handle_copy_code : Page Ui → Page Ui
handle_copy_code p =
    set_ui (λ u. record u { copied_code = true })
      (set_world (copy (copied_sample (user_api_key p.world))) p)

-- The timers of the three copy buttons, two seconds after the click.
unfoldable secret_tick_off : Ui → Ui
secret_tick_off u = record u { copied_secret = false }

unfoldable install_tick_off : Ui → Ui
install_tick_off u = record u { copied_install = false }

unfoldable code_tick_off : Ui → Ui
code_tick_off u = record u { copied_code = false }

unfoldable dismiss_secret : Ui → Ui
dismiss_secret u = record u { created_secret = none }
