-- ===== src/Login.antt =====
-- frontend/tenant-dashboard/app/login/page.tsx: signing in with an API key.
-- `react-hook-form` runs the schema and calls `onSubmit` with the values when it finds no error.
pub mod Laws
pub mod View
use modera_shield.Base.{
  String, Bool, true, false, ◌||◌, Option, none, some, M, pure, throw, modify, gets, ◌>>=◌, ◌>>◌,
  try_catch, finally, or_default, present, ◌==◌, if◌then◌else◌, trim, starts_with,
}
use modera_shield.Client.Browser.{
  World, set_stored_api_key, remove_stored_api_key, set_stored_tenant, visit,
}
use modera_shield.Client.Http.{Env}
use modera_shield.Client.Api.{Connection, test_connection}
use modera_shield.Page.{Page, on_world, set_ui, set_world}

pub record Ui : Type 0 where
  pub is_loading : Bool
  pub api_error : Option String
  -- `errors.apiKey.message`
  pub key_error : Option String

abbrev pub initial : Ui
initial = record { is_loading = false; api_error = none; key_error = none }

-- `loginSchema`: the email and the password are optional, the key has at least one character.
pub login_schema : String → Option String
login_schema api_key = if api_key == "" then some "API Key is required to authenticate" else none

-- The effect of the first render, with the `error` parameter of the page's address.
unfoldable show_expiry : Option String → Page Ui → Page Ui
show_expiry none p = p
show_expiry (some error) p =
    if error == "session_expired"
    then set_ui
        (λ u. record u {
          api_error = some "Your API key is invalid or expired. Please sign in with a valid key.";
        })
        p
    else p

-- `if (check.tenant_id && check.tenant_name)`
abbrev pub store_tenant : Option String → Option String → World → World
store_tenant (some id) (some name) = set_stored_tenant id name
store_tenant _ _ = set_stored_tenant "dummy-tenant-id" "Authenticated Tenant"

abbrev reject : Connection → M (Page Ui) (Unit {0})
reject check = do
  modify (set_world remove_stored_api_key)
  throw (or_default check.message "Failed to verify API Key with backend")

abbrev accept : Connection → M (Page Ui) (Unit {0})
accept check = do
  modify (set_world (store_tenant (present check.tenant_id) (present check.tenant_name)))
  modify (set_world (visit "/dashboard"))

abbrev verify : Env → String → M (Page Ui) (Unit {0})
verify env key = do
  modify (set_world (set_stored_api_key key))
  check ← on_world (test_connection env (some key))
  if check.ok then accept check else reject check

abbrev required_message : String
required_message = "API Key is required to authenticate."

abbrev format_message : String
format_message = "Invalid key format. API keys must start with 'msk_'"

-- The body of the `try` of `onSubmit`.
abbrev sign_in : Env → String → M (Page Ui) (Unit {0})
sign_in env api_key =
    if api_key == "" || trim api_key == ""
    then throw required_message
    else (if starts_with (trim api_key) "msk_"
        then verify env (trim api_key)
        else throw format_message)

abbrev show_error : String → M (Page Ui) (Unit {0})
show_error message = modify (
    set_ui λ u. record u { api_error = some (or_default message "Invalid credentials or API Key") })

unfoldable pub on_submit : Env → String → M (Page Ui) (Unit {0})
on_submit env api_key = do
  modify (set_ui λ u. record u { is_loading = true })
  modify (set_ui λ u. record u { api_error = none })
  finally (try_catch (sign_in env api_key) show_error) (set_ui λ u. record u { is_loading = false })

-- `handleSubmit(onSubmit)`: the schema's errors are shown instead of a submission.
unfoldable pub submit : Env → String → M (Page Ui) (Unit {0})
unfolding login_schema on_submit
submit env api_key = do
  modify (set_ui λ u. record u { key_error = login_schema api_key })
  elim (login_schema api_key) [ none ↦ on_submit env api_key | some error ↦ pure tt ]
