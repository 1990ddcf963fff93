-- ===== src/Signup.antt =====
-- frontend/tenant-dashboard/app/signup/page.tsx: creating a tenant and its first key.
-- `zod` accepts the values exactly when every check of the schema holds; its test of e-mail
-- addresses is the argument `is_email`. The messages beside the fields are in Signup/Messages.
pub mod Slug
pub mod Laws
pub mod View
pub mod Messages
use modera_shield.Base.{
  text_length, ℕ, ◌+◌, String, Bool, true, false, ◌&&◌, Option, none, some, M, pure, modify, ◌>>=◌,
  ◌>>◌, try_catch, finally, ◌==◌, leb, ltb, if◌then◌else◌, or_default,
}
use modera_shield.Client.Browser.{World, set_stored_api_key, set_stored_tenant, visit}
use modera_shield.Client.Types.{TenantResponse, ApiKeyCreatedResponse}
use modera_shield.Client.Http.{Env}
use modera_shield.Client.Api.{create_tenant, create_api_key}
use modera_shield.Page.{Page, on_world, set_ui, set_world, error_of}
use Slug.{slugify}

pub record Values : Type 0 where
  pub name : String
  pub email : String
  pub company_name : String
  pub password : String
  pub confirm_password : String
  pub terms : Bool

pub signup_schema : (String → Bool) → Values → Bool
signup_schema is_email v =
    leb 2 (text_length v.name)
    && is_email v.email
    && leb 2 (text_length v.company_name)
    && leb 8 (text_length v.password)
    && leb 8 (text_length v.confirm_password)
    && v.terms
    && (v.password == v.confirm_password)

pub record Ui : Type 0 where
  pub show_password : Bool
  pub is_loading : Bool
  pub api_error : Option String

abbrev pub initial : Ui
initial = record { show_password = false; is_loading = false; api_error = none }

abbrev sign_in_as : TenantResponse → ApiKeyCreatedResponse → M (Page Ui) (Unit {0})
sign_in_as tenant key = do
  modify (set_world (set_stored_api_key key.key))
  modify (set_world (set_stored_tenant tenant.id tenant.name))
  modify (set_world (visit "/dashboard"))

abbrev pub tenant_slug : String → String
tenant_slug company_name = or_default (slugify company_name) "company-tenant"

-- The body of the `try` of `onSubmit`.
abbrev sign_up : Env → String → M (Page Ui) (Unit {0})
sign_up env company_name = do
  tenant ← on_world (create_tenant env company_name (tenant_slug company_name))
  key ← on_world (create_api_key env tenant.id "Default API Key")
  sign_in_as tenant key

abbrev show_error : String → M (Page Ui) (Unit {0})
show_error message = modify (
    set_ui
      λ u. record u { api_error = error_of message "Failed to create account. Please try again." })

unfoldable pub on_submit : Env → Values → M (Page Ui) (Unit {0})
on_submit env v = do
  modify (set_ui λ u. record u { is_loading = true })
  modify (set_ui λ u. record u { api_error = none })
  finally (try_catch (sign_up env v.company_name) show_error)
      (set_ui λ u. record u { is_loading = false })

-- `handleSubmit(onSubmit)`
unfoldable pub submit : (String → Bool) → Env → Values → M (Page Ui) (Unit {0})
submit is_email env v = if signup_schema is_email v then on_submit env v else pure tt

unfoldable toggle_password : Ui → Ui
toggle_password u = record u { show_password = if u.show_password then false else true }
