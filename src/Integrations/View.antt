-- ===== src/Integrations/View.antt =====
-- What the integrations page shows of the webhooks
-- (frontend/tenant-dashboard/app/dashboard/integrations/page.tsx).
use modera_shield.Base.{ℕ, String, Bool, Option, List, [], ◌∷◌, map, ◌==◌, if◌then◌else◌, present}
use modera_shield.Client.Types.{WebhookResponse, WebhookDeliveryResponse}
use modera_shield.Integrations.{Ui, is_selected}

-- The log of a webhook's deliveries, under the webhook that is selected.
pub data Tone : Type 0 where
  good bad pending : Tone

unfoldable tone : String → Tone
tone status = if status == "delivered" then good else (if status == "failed" then bad else pending)

pub record DeliveryRow : Type 0 where
  pub tone : Tone
  pub status : String
  pub event_type : String
  pub request_id : String
  pub event_id : String
  pub last_error : Option String
  pub attempts : ℕ
  pub time : String

pub delivery_row : WebhookDeliveryResponse → DeliveryRow
delivery_row d = record {
  tone = tone d.status;
  status = d.status;
  event_type = d.event_type;
  request_id = d.request_id;
  event_id = d.id;
  last_error = present d.last_error;
  attempts = d.attempt_count;
  time = d.created_at;
}

pub data Log : Type 0 where
  folded loading empty : Log
  entries : List DeliveryRow → Log

abbrev pub logged : List WebhookDeliveryResponse → Log
logged [] = empty
logged (d ∷ ds) = entries (map delivery_row (d ∷ ds))

unfoldable pub log_of : Ui → String → Log
unfolding delivery_row
log_of u id =
    if is_selected u.selected_webhook_id id
    then (if u.is_loading_deliveries then loading else logged u.deliveries)
    else folded

pub record WebhookRow : Type 0 where
  pub id : String
  pub url : String
  pub created : String
  pub enabled : Bool
  pub log : Log

webhook_row : Ui → WebhookResponse → WebhookRow
unfolding log_of
webhook_row u w = record {
  id = w.id;
  url = w.url;
  created = w.created_at;
  enabled = w.enabled;
  log = log_of u w.id;
}

-- The webhooks' part of the page: the error, the banner with the new secret and its tick, the input
-- with whether "Add Webhook" is disabled, and the list.
pub record View : Type 0 where
  pub spinning : Bool
  pub error : Option String
  pub secret : Option String
  pub secret_tick : Bool
  pub new_url : String
  pub add_disabled : Bool
  pub webhooks : List WebhookRow

unfoldable view : Ui → View
unfolding webhook_row
view u = record {
  spinning = u.is_loading;
  error = present u.error;
  secret = present u.created_secret;
  secret_tick = u.copied_secret;
  new_url = u.new_url;
  add_disabled = u.is_loading;
  webhooks = map (webhook_row u) u.webhooks;
}
