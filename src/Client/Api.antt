-- ===== src/Client/Api.antt =====
-- frontend/tenant-dashboard/lib/api/client.ts: the methods of `apiClient` above `request`.
use Prim.Native.String.{◌++◌}
use modera_shield.Base.{
  ℕ, String, Bool, true, false, Option, none, some, List, [], ◌∷◌, M, pure, throw, gets, ◌>>=◌,
  try_catch, or_default, present, show_number,
}
use modera_shield.Client.Types.{
  tenant_info, overview, breakdown, category_metrics, usage, requests, detail, created, tenant,
  created_key, webhooks, webhook, nothing, deliveries, OverviewMetrics, StatusBreakdown,
  CategoryMetrics, UsageMetrics, RecentRequestsResponse, ModerationResultResponse, CreatedRequest,
  TenantResponse, ApiKeyCreatedResponse, ApiKeyResponse, WebhookResponse, WebhookDeliveryResponse,
  TenantInfo,
}
use modera_shield.Client.Browser.{World, Scalar, text, flag, json, get_stored_api_key}
use modera_shield.Client.Http.{Env, Options, no_options, request}

pub record Connection : Type 0 where
  pub ok : Bool
  pub message : String
  pub tenant_id : Option String
  pub tenant_name : Option String

abbrev pub failed_connection : String → Connection
failed_connection message = record {
  ok = false;
  message = message;
  tenant_id = none;
  tenant_name = none;
}

abbrev pub verified : TenantInfo → Connection
verified info = record {
  ok = true;
  message = "Connected successfully";
  tenant_id = some info.tenant_id;
  tenant_name = some info.tenant_name;
}

abbrev pub verify_path : String
verify_path = "/tenants/00000000-0000-0000-0000-000000000000/api-keys/verify-tenant"

abbrev pub key_options : String → Options
key_options key = record { method = none; headers = ("X-API-Key", key) ∷ []; body = none }

abbrev pub no_key_message : String
no_key_message = "No API Key provided. Set it in login/signup or settings."

-- `key || getStoredApiKey()`, where it counts as true.
abbrev pub first_present : Option String → Option String → Option String
first_present a b = elim (present a) [ none ↦ present b | some key ↦ some key ]

abbrev pub check_with : Env → Option String → M World Connection
check_with env none = pure (failed_connection no_key_message)
check_with env (some key) =
    try_catch
      (request env tenant_info verify_path (key_options key) >>= λ info. pure (verified info))
      (λ message. pure (failed_connection (or_default message "Failed to connect to API")))

unfoldable pub test_connection : Env → Option String → M World Connection
test_connection env key = do
  stored ← gets get_stored_api_key
  check_with env (first_present key stored)

abbrev pub with_json : String → List (String × Scalar) → Options
with_json method fields = record { method = some method; headers = []; body = some (json fields) }

abbrev pub overview_path : String
overview_path = "/metrics/overview"

abbrev pub categories_path : String
categories_path = "/metrics/categories"

abbrev pub usage_path : ℕ → String
usage_path days = "/metrics/usage?days=" ++ show_number days

abbrev pub requests_path : ℕ → ℕ → String
requests_path page page_size =
    "/metrics/requests?page=" ++ (show_number page ++ ("&page_size=" ++ show_number page_size))

unfoldable get_overview : Env → M World OverviewMetrics
get_overview env = request env overview overview_path no_options

unfoldable get_breakdown : Env → M World StatusBreakdown
get_breakdown env = request env breakdown "/metrics/breakdown" no_options

unfoldable get_categories : Env → M World CategoryMetrics
get_categories env = request env category_metrics categories_path no_options

unfoldable get_usage : Env → ℕ → M World UsageMetrics
get_usage env days = request env usage (usage_path days) no_options

unfoldable pub get_requests : Env → ℕ → ℕ → M World RecentRequestsResponse
get_requests env page page_size = request env requests (requests_path page page_size) no_options

unfoldable pub get_request_detail : Env → String → M World ModerationResultResponse
get_request_detail env request_id = request env detail ("/moderate/" ++ request_id) no_options

unfoldable pub create_moderation_request : Env → String → M World CreatedRequest
create_moderation_request env content =
    request env created "/moderate/"
      (with_json "POST" (("content_type", text "text") ∷ ("content", text content) ∷ []))

unfoldable pub create_tenant : Env → String → String → M World TenantResponse
create_tenant env name slug =
    request env tenant "/tenants/"
      (with_json "POST" (("name", text name) ∷ ("slug", text slug) ∷ []))

unfoldable pub create_api_key : Env → String → String → M World ApiKeyCreatedResponse
create_api_key env tenant_id name =
    request env created_key ("/tenants/" ++ (tenant_id ++ "/api-keys/"))
      (with_json "POST" (("name", text name) ∷ []))

unfoldable pub list_api_keys : String → M World (List ApiKeyResponse)
list_api_keys tenant_id = throw "API key listing is not supported by the backend."

unfoldable pub revoke_api_key : String → String → M World Bool
revoke_api_key tenant_id key_id = throw "API key revocation is not supported by the backend."

unfoldable pub list_webhooks : Env → M World (List WebhookResponse)
list_webhooks env = request env webhooks "/webhooks/" no_options

unfoldable pub create_webhook : Env → String → M World WebhookResponse
create_webhook env url =
    request env webhook "/webhooks/" (with_json "POST" (("url", text url) ∷ []))

unfoldable pub update_webhook : Env → String → Bool → M World WebhookResponse
update_webhook env id enabled =
    request env webhook ("/webhooks/" ++ id) (with_json "PATCH" (("enabled", flag enabled) ∷ []))

abbrev pub delete_options : Options
delete_options = record { method = some "DELETE"; headers = []; body = none }

unfoldable pub delete_webhook : Env → String → M World (Unit {0})
delete_webhook env id = request env nothing ("/webhooks/" ++ id) delete_options

unfoldable pub get_webhook_deliveries : Env → String → M World (List WebhookDeliveryResponse)
get_webhook_deliveries env webhook_id =
    request env deliveries ("/webhooks/" ++ (webhook_id ++ "/deliveries")) no_options
