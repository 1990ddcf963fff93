-- ===== src/Client/Types.antt =====
-- frontend/tenant-dashboard/lib/api/client.ts: the interfaces of the API's replies, the type
-- arguments of `request<T>`, and what the browser holds.
-- A number of an interface that counts is an ℕ; a ratio or a score is the decimal literal of the
-- JSON text. `number | null` and optional fields are `Option`; dates stay texts.
use modera_shield.Base.{ℕ, String, Bool, Option, List}

-- `units / 10 ^ scale`
pub record Decimal : Type 0 where
  pub units : ℕ
  pub scale : ℕ

pub record OverviewMetrics : Type 0 where
  pub total_requests : ℕ
  pub approved_requests : ℕ
  pub flagged_requests : ℕ
  pub failed_requests : ℕ
  pub flag_rate : Decimal

pub record StatusBreakdown : Type 0 where
  pub statuses : List (String × ℕ)

pub record CategoryMetrics : Type 0 where
  pub categories : List (String × ℕ)

pub record UsageDay : Type 0 where
  pub date : String
  pub requests : ℕ
  pub approved : ℕ
  pub flagged : ℕ
  pub failed : ℕ

pub record UsageMetrics : Type 0 where
  pub days : List UsageDay

pub record RecentRequestItem : Type 0 where
  pub id : String
  pub content_type : String
  pub status : String
  pub is_flagged : Option Bool
  pub categories : List String
  pub model : Option String
  pub created_at : String
  pub updated_at : String

pub record RecentRequestsResponse : Type 0 where
  pub items : List RecentRequestItem
  pub total : ℕ
  pub page : ℕ
  pub page_size : ℕ

pub record ModerationResultResponse : Type 0 where
  pub id : String
  pub status : String
  pub is_flagged : Option Bool
  pub categories : List String
  pub scores : List (String × Decimal)
  pub model : Option String
  pub created_at : String
  pub updated_at : String
  pub content_type : Option String
  pub content : Option String

pub record TenantResponse : Type 0 where
  pub id : String
  pub name : String
  pub slug : String
  pub plan : String
  pub status : String

pub record ApiKeyCreatedResponse : Type 0 where
  pub id : String
  pub name : String
  pub created_at : String
  pub is_active : Bool
  pub key : String

pub record ApiKeyResponse : Type 0 where
  pub id : String
  pub name : String
  pub created_at : String
  pub is_active : Bool
  pub last_used_at : Option String

pub record WebhookResponse : Type 0 where
  pub id : String
  pub url : String
  pub enabled : Bool
  pub created_at : String
  pub updated_at : String
  pub secret : Option String

pub record WebhookDeliveryResponse : Type 0 where
  pub id : String
  pub webhook_id : String
  pub request_id : String
  pub event_type : String
  pub status : String
  pub attempt_count : ℕ
  pub last_error : Option String
  pub next_attempt_at : Option String
  pub delivered_at : Option String
  pub created_at : String
  pub updated_at : String

-- The anonymous types at which `testConnection` and `createModerationRequest` call `request`.
pub record TenantInfo : Type 0 where
  pub message : String
  pub tenant_id : String
  pub tenant_name : String

pub record CreatedRequest : Type 0 where
  pub id : String
  pub status : String

-- The type arguments of the calls of `request<T>`.
pub data ReplyType : Type 0 where
  tenant_info overview breakdown category_metrics usage requests detail created tenant : ReplyType
  created_key webhooks webhook nothing deliveries : ReplyType

-- The type that an argument names; `void` reads nothing of its value.
abbrev pub Reply : ReplyType → Type 0
Reply tenant_info = TenantInfo
Reply overview = OverviewMetrics
Reply breakdown = StatusBreakdown
Reply category_metrics = CategoryMetrics
Reply usage = UsageMetrics
Reply requests = RecentRequestsResponse
Reply detail = ModerationResultResponse
Reply created = CreatedRequest
Reply tenant = TenantResponse
Reply created_key = ApiKeyCreatedResponse
Reply webhooks = List WebhookResponse
Reply webhook = WebhookResponse
Reply nothing = Unit {0}
Reply deliveries = List WebhookDeliveryResponse
