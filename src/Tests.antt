-- ===== src/Tests.antt =====
-- Backends, browsers and pages on which the tests run the development.
mod Client
mod Machine
mod Overlap
mod Guides
mod Sessions
mod Requests
mod Tenants
mod Metrics
mod Routes
mod Fetches
use modera_shield.Base.{ℕ, String, true, false, none, some, List, [], ◌∷◌, ltb, if◌then◌else◌}
use modera_shield.Client.Types.{
  ReplyType, tenant_info, overview, breakdown, category_metrics, usage, requests, detail, created,
  tenant, created_key, webhooks, webhook, nothing, deliveries, Reply, ModerationResultResponse,
  RecentRequestItem, RecentRequestsResponse, WebhookResponse, WebhookDeliveryResponse,
  TenantResponse, ApiKeyCreatedResponse,
}
use modera_shield.Client.Browser.{Request, World, api_key_item, tenant_id_item, tenant_name_item}
use modera_shield.Client.Http.{
  Json, parsed, malformed, ErrorBody, Response, unreachable, Fetched, replied, Env,
}
use modera_shield.Page.{Page}

abbrev item : String → String → RecentRequestItem
item id status = record {
  id = id;
  content_type = "text";
  status = status;
  is_flagged = none;
  categories = "severe_toxic" ∷ [];
  model = none;
  created_at = "2026-08-25";
  updated_at = "2026-08-25";
}

abbrev log : RecentRequestsResponse
log = record {
  items = item "Req-1" "approved" ∷ item "Req-2" "flagged" ∷ item "Req-3" "queued" ∷ [];
  total = 60;
  page = 1;
  page_size = 25;
}

abbrev result : String → ModerationResultResponse
result status = record {
  id = "Req-2";
  status = status;
  is_flagged = none;
  categories = [];
  scores = [];
  model = none;
  created_at = "2026-08-25";
  updated_at = "2026-08-25";
  content_type = none;
  content = none;
}

abbrev acme : TenantResponse
acme = record { id = "t1"; name = "Acme"; slug = "acme"; plan = "free"; status = "active" }

abbrev new_key : ApiKeyCreatedResponse
new_key = record {
  id = "k1";
  name = "Default API Key";
  created_at = "2026-08-25";
  is_active = true;
  key = "msk_new";
}

abbrev hook : WebhookResponse
hook = record {
  id = "w1";
  url = "https://acme.example/hook";
  enabled = true;
  created_at = "2026-08-25";
  updated_at = "2026-08-25";
  secret = some "whsec_1";
}

abbrev delivery : WebhookDeliveryResponse
delivery = record {
  id = "d1";
  webhook_id = "w1";
  request_id = "Req-2";
  event_type = "moderation.completed";
  status = "delivered";
  attempt_count = 1;
  last_error = none;
  next_attempt_at = none;
  delivered_at = none;
  created_at = "2026-08-25";
  updated_at = "2026-08-25";
}

-- A value for each reply; the request in question has the given status.
abbrev sample : String → (t : ReplyType) → Reply t
sample status tenant_info = record { message = "ok"; tenant_id = "t1"; tenant_name = "Acme" }
sample status overview = record {
  total_requests = 60;
  approved_requests = 50;
  flagged_requests = 8;
  failed_requests = 2;
  flag_rate = record { units = 133; scale = 1 };
}
sample status breakdown = record { statuses = ("approved", 50) ∷ ("flagged", 8) ∷ [] }
sample status category_metrics = record { categories = ("toxic", 5) ∷ ("threat", 3) ∷ [] }
sample status usage = record { days = [] }
sample status requests = log
sample status detail = result status
sample status created = record { id = "Req-2"; status = "queued" }
sample status tenant = acme
sample status created_key = new_key
sample status webhooks = hook ∷ []
sample status webhook = hook
sample status nothing = tt
sample status deliveries = delivery ∷ []

abbrev no_body : ErrorBody
no_body = record { detail = some "refused"; text = "{}" }

abbrev reply : {A : Type 0} → ℕ → Json A → Response A
reply status value = record { status = status; value = value; error_body = parsed no_body }

-- A backend that takes every request; the moderation of a request ends with the `n`-th one.
abbrev serving_after : ℕ → ℕ → (t : ReplyType) → Request → Fetched (Reply t)
serving_after k n t r =
    replied (reply 200 (parsed (sample (if ltb n k then "queued" else "approved") t)))

abbrev serving : ℕ → Env
serving k = record { api_url = none; fetch = serving_after k }

-- Backends that answer every request with the status, that answer with no body, and that cannot be
-- reached.
abbrev denied : ℕ → ℕ → (t : ReplyType) → Request → Fetched (Reply t)
denied status n t r = replied (reply status (malformed "no JSON"))

abbrev denying : ℕ → Env
denying status = record { api_url = none; fetch = denied status }

abbrev lost : ℕ → (t : ReplyType) → Request → Fetched (Reply t)
lost n t r = unreachable "Failed to fetch"

abbrev offline : Env
offline = record { api_url = some "https://api.example/"; fetch = lost }

abbrev visitor : World
visitor = record {
  browser = true;
  storage = ("theme", "dark") ∷ [];
  visited = [];
  sent = [];
  alerts = [];
  clipboard = none;
}

abbrev member : World
member = record visitor {
  storage =
      (api_key_item, "msk_live")
      ∷ (tenant_id_item, "t1")
      ∷ (tenant_name_item, "Acme")
      ∷ ("theme", "dark")
      ∷ [];
}

abbrev page_of : {S : Type 0} → S → World → Page S
page_of ui world = record { ui = ui; world = world }
