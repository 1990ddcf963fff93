-- ===== src/Tests/Tenants.antt =====
-- Signing up, and the pages of the tenant's keys and webhooks.
use modera_shield.Base.{
  List, inl, inr, String, true, false, none, some, [], ◌∷◌, ◌≡◌, ◌≢◌, refl, trim,
}
use modera_shield.Client.Browser.{send, get_stored_api_key}
use modera_shield.Client.Http.{request, receive, prepare, replied, malformed}
use modera_shield.Client.Http.{Env}
use modera_shield.Client.Api.{create_tenant, create_api_key, get_webhook_deliveries, delete_options}
use modera_shield.Page.{Page}
use modera_shield.Signup
use modera_shield.Signup.Laws.{on_submit-signs_in}
use modera_shield.Signup.Slug.{slugify, IsSlug, slugify-IsSlug}
use modera_shield.ApiKeys
use modera_shield.ApiKeys.{
  close_create, done_create, handle_create_key, handle_revoke_key, fetch_keys,
}
use modera_shield.ApiKeys.View.{secret, dialog}
use modera_shield.ApiKeys.Secret.{
  Button, MadeBy, local, retries, press_all, opens, types, handle_create_key-loses,
}
use modera_shield.Integrations
use modera_shield.Integrations.{
  handle_toggle_webhook, handle_create_webhook, handle_delete_webhook, handle_view_deliveries,
}
use modera_shield.Integrations.View.{log_of, logged}
use modera_shield.Integrations.Webhooks.{handle_delete_webhook-without_body}
use modera_shield.Integrations.Deliveries.{handle_view_deliveries-shows}
use modera_shield.Tests.{serving, visitor, member, page_of, acme, new_key, hook, delivery, reply}

abbrev values : Signup.Values
values = record {
  name = "Ada";
  email = "ada@acme.example";
  company_name = "Acme & Sons";
  password = "correct horse";
  confirm_password = "correct horse";
  terms = true;
}

abbrev signup : Page Signup.Ui
signup = page_of Signup.initial visitor

on_submit-signs_in_example :
    (get_stored_api_key (Signup.on_submit (serving 0) values signup).1.world ≡ some "msk_new")
    × ((Signup.on_submit (serving 0) values signup).1.world.visited ≡ "/dashboard" ∷ [])
    × ((Signup.on_submit (serving 0) values signup).1.ui.api_error ≡ none)
    × ((Signup.on_submit (serving 0) values signup).1.ui.is_loading ≡ false)
unfolding create_tenant create_api_key request receive
on_submit-signs_in_example =
    on_submit-signs_in (serving 0) values signup acme new_key refl refl refl

slugify-IsSlug_example : IsSlug (slugify "  Acme & Sons, Inc. ")
slugify-IsSlug_example = slugify-IsSlug "  Acme & Sons, Inc. "

abbrev keys : Page ApiKeys.Ui
keys = page_of (record ApiKeys.initial { show_create_modal = true; new_key_name = "CI" }) member

-- Clicks that make no key.
abbrev clicks : List Button
clicks = local opens ∷ local (types "CI") ∷ retries ∷ []

no_key_made : (p : Page ApiKeys.Ui) (key : String) → ¬ MadeBy (serving 0) "now" clicks p key
no_key_made p key m = elim m [
  | inl x ↦ x
  | inr m ↦ elim m [ inl x ↦ x | inr m ↦ elim m [ inl x ↦ x | inr x ↦ x ] ]
]

handle_create_key-loses_example :
    dialog
      (press_all
        (serving 0)
        "now"
        clicks
        (handle_create_key (serving 0) "now" close_create "CI" keys).1).ui
    ≢ secret "msk_new" false
unfolding trim create_api_key request receive close_create
handle_create_key-loses_example =
    handle_create_key-loses (serving 0) "now" close_create "CI" keys new_key clicks "msk_new" false
      refl refl refl
      (no_key_made (handle_create_key (serving 0) "now" close_create "CI" keys).1 "msk_new")

abbrev hooks : Page Integrations.Ui
hooks =
    page_of (record Integrations.initial { webhooks = hook ∷ []; selected_webhook_id = some "w1" })
      member

-- A backend that answers a deletion with status 204, without a body.
abbrev no_content : Env
no_content = record { api_url = none; fetch = λ n t r. replied (reply 204 (malformed "no JSON")) }

handle_delete_webhook-without_body_example :
    ((handle_delete_webhook (no_content) true none "w1" hooks).1.ui
      ≡ record hooks.ui { error = some "no JSON" })
    × ((handle_delete_webhook (no_content) true none "w1" hooks).1.world
        ≡ send (prepare (no_content) "/webhooks/w1" delete_options member) member)
handle_delete_webhook-without_body_example =
    handle_delete_webhook-without_body (no_content) none "w1" hooks
      (reply 204 (malformed "no JSON")) "no JSON" refl refl refl

-- Another webhook is selected before the deliveries of the first one arrive.
abbrev select_other : Integrations.Ui → Integrations.Ui
select_other u = record u { selected_webhook_id = some "w2" }

handle_view_deliveries-shows_example :
    log_of (handle_view_deliveries (serving 0) select_other "w1" hooks).1.ui "w2"
    ≡ logged (delivery ∷ [])
unfolding get_webhook_deliveries request receive
handle_view_deliveries-shows_example =
    handle_view_deliveries-shows (serving 0) select_other "w1" hooks (delivery ∷ []) refl "w2" refl
