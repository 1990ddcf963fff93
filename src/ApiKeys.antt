-- ===== src/ApiKeys.antt =====
-- frontend/tenant-dashboard/app/dashboard/api-keys/page.tsx: the keys of the tenant.
-- `now` is what `new Date().toISOString()` gives, and `meanwhile` what the other handlers do to the
-- state while the creation of a key is under way.
pub mod View
pub mod SessionKey
pub mod Creation
pub mod Secret
use modera_shield.Base.{
  String, Bool, true, false, not, Option, none, some, List, [], ◌∷◌, map, M, pure, modify, gets,
  ◌>>=◌, ◌>>◌, try_catch, finally, ◌==◌, if◌then◌else◌, or_default, trim, present, is_present,
}
use modera_shield.Client.Types.{ApiKeyResponse, ApiKeyCreatedResponse}
use modera_shield.Client.Browser.{World, StoredTenant, get_stored_tenant, get_stored_api_key}
use modera_shield.Client.Http.{Env}
use modera_shield.Client.Api.{create_api_key, list_api_keys, revoke_api_key}
use modera_shield.Page.{Page, on_world, after_await, set_ui, set_world}

pub record Ui : Type 0 where
  pub is_loading : Bool
  pub keys : List ApiKeyResponse
  pub error : Option String
  pub show_create_modal : Bool
  pub new_key_name : String
  pub is_creating : Bool
  pub created_key_data : Option ApiKeyCreatedResponse
  pub is_copied : Bool
  pub key_to_revoke : Option ApiKeyResponse
  pub is_revoking : Bool

abbrev pub initial : Ui
initial = record {
  is_loading = true;
  keys = [];
  error = none;
  show_create_modal = false;
  new_key_name = "";
  is_creating = false;
  created_key_data = none;
  is_copied = false;
  key_to_revoke = none;
  is_revoking = false;
}

-- `getStoredTenant() || { id: "—", name: "Authenticated Tenant" }`
abbrev tenant_or_default : Option StoredTenant → StoredTenant
tenant_or_default none = record { id = "—"; name = "Authenticated Tenant" }
tenant_or_default (some tenant) = tenant

unfoldable pub active_tenant : World → StoredTenant
active_tenant w = tenant_or_default (get_stored_tenant w)

abbrev session_entry : String → ApiKeyResponse
session_entry now = record {
  id = "session-key";
  name = "Active Session Key";
  created_at = now;
  is_active = true;
  last_used_at = some now;
}

abbrev keys_of_session : String → Option String → List ApiKeyResponse
keys_of_session now none = []
keys_of_session now (some key) = session_entry now ∷ []

-- The `catch` of `fetchKeys`.
abbrev show_session_key : String → M (Page Ui) (Unit {0})
show_session_key now = do
  session ← gets (λ p. get_stored_api_key p.world)
  modify (set_ui λ u. record u { keys = keys_of_session now (present session) })

abbrev load_keys : M (Page Ui) (Unit {0})
load_keys = do
  tenant ← gets (λ p. active_tenant p.world)
  list ← on_world (list_api_keys tenant.id)
  modify (set_ui λ u. record u { keys = list })

unfoldable pub fetch_keys : String → M (Page Ui) (Unit {0})
fetch_keys now = do
  modify (set_ui λ u. record u { is_loading = true })
  modify (set_ui λ u. record u { error = none })
  finally (try_catch load_keys (λ _. show_session_key now))
      (set_ui λ u. record u { is_loading = false })

-- `alert(err.message || fallback)`
abbrev pub alert : String → World → World
alert text w = record w { alerts = text ∷ w.alerts }

-- The body of the `try` of `handleCreateKey`. It does not await `fetchKeys`, which sets none of the
-- fields that are set after it.
abbrev create_key : Env → String → (Ui → Ui) → String → M (Page Ui) (Unit {0})
create_key env now meanwhile name = do
  tenant ← gets (λ p. active_tenant p.world)
  key ← after_await meanwhile (on_world (create_api_key env tenant.id name))
  modify (set_ui λ u. record u { created_key_data = some key })
  fetch_keys now
  modify (set_ui λ u. record u { new_key_name = "" })

abbrev create_failed : String → M (Page Ui) (Unit {0})
create_failed message = modify (set_world (alert (or_default message "Failed to create API key")))

-- `handleCreateKey`, of the render whose input holds `name`.
unfoldable pub handle_create_key : Env → String → (Ui → Ui) → String → M (Page Ui) (Unit {0})
handle_create_key env now meanwhile name = if trim name == "" then pure tt else do
  modify (set_ui λ u. record u { is_creating = true })
  finally (try_catch (create_key env now meanwhile (trim name)) create_failed)
      (set_ui λ u. record u { is_creating = false })

abbrev pub copy_key : Option ApiKeyCreatedResponse → Page Ui → Page Ui
copy_key none p = p
copy_key (some key) p =
    set_ui (λ u. record u { is_copied = true })
      (set_world (λ w. record w { clipboard = some key.key }) p)

-- `handleCopyKey`; two seconds later its timer runs `copy_shown`.
unfoldable pub handle_copy_key : Page Ui → Page Ui
handle_copy_key p = copy_key p.ui.created_key_data p

unfoldable copy_shown : Ui → Ui
copy_shown u = record u { is_copied = false }

abbrev revoke_key : Env → String → ApiKeyResponse → M (Page Ui) (Unit {0})
revoke_key env now key = do
  tenant ← gets (λ p. active_tenant p.world)
  success ← on_world (revoke_api_key tenant.id key.id)
  fetch_keys now
  modify (set_ui λ u. record u { key_to_revoke = none })

abbrev revoke_failed : String → M (Page Ui) (Unit {0})
revoke_failed message = do
  modify (set_world (alert (or_default message "Failed to revoke API key")))
  modify (set_ui λ u. record u { key_to_revoke = none })

-- `handleRevokeKey`, of the render whose `keyToRevoke` is given.
unfoldable pub handle_revoke_key : Env → String → Option ApiKeyResponse → M (Page Ui) (Unit {0})
handle_revoke_key env now none = pure tt
handle_revoke_key env now (some key) = do
  modify (set_ui λ u. record u { is_revoking = true })
  finally (try_catch (revoke_key env now key) revoke_failed)
      (set_ui λ u. record u { is_revoking = false })

-- The buttons that only change the state: "Create API Key", the cross of the dialog, "Done", the
-- bin of a row, "Cancel", and the input of the name.
open_create : Ui → Ui
open_create u = record u { created_key_data = none; show_create_modal = true }

unfoldable pub close_create : Ui → Ui
close_create u = record u { show_create_modal = false }

pub done_create : Ui → Ui
done_create u = record u { show_create_modal = false; created_key_data = none }

ask_revoke : ApiKeyResponse → Ui → Ui
ask_revoke key u = record u { key_to_revoke = some key }

cancel_revoke : Ui → Ui
cancel_revoke u = record u { key_to_revoke = none }

type_name : String → Ui → Ui
type_name text u = record u { new_key_name = text }
