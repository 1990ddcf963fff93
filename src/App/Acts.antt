-- ===== src/App/Acts.antt =====
-- The handlers of the pages (frontend/tenant-dashboard/app/,
-- frontend/tenant-dashboard/components/layout/), each of which runs from its call to its end on
-- whatever the page's state is then.
use modera_shield.Base.{ℕ, String, Bool, Option, List}
use modera_shield.Client.Types.{ReplyType, Decimal, ApiKeyResponse, RecentRequestItem}
use modera_shield.Client.Browser.{World}
use modera_shield.Client.Http.{Env}
use modera_shield.Page.{Page}
use modera_shield.App.Tracks.{Tracks}
use modera_shield.App.Handlers.{
  fetch_flagged-Tracks, fetch_requests-Tracks, fetch_detail-Tracks, poll-Tracks,
  handle_view_deliveries-Tracks, load_webhooks-Tracks, handle_toggle_webhook-Tracks,
  handle_create_webhook-Tracks, handle_delete_webhook-Tracks,
}
use modera_shield.App.Pages.{
  test_live-Tracks, fetch_keys-Tracks, handle_create_key-Tracks, handle_revoke_key-Tracks,
  run_simulation-Tracks, check_session-Tracks, handle_logout-Tracks, fetch_analytics-Tracks,
  fetch_dashboard_data-Tracks, handle_copy_key-Tracks, handle_copy_secret-Tracks,
  handle_copy_install-Tracks, handle_copy_code-Tracks, queue_row-Tracks, log_row-Tracks,
  overview_row-Tracks,
}
use modera_shield.Login
use modera_shield.Signup
use modera_shield.Landing
use modera_shield.Sidebar
use modera_shield.TopNav
use modera_shield.Overview
use modera_shield.Analytics
use modera_shield.Queue
use modera_shield.Submissions
use modera_shield.Detail
use modera_shield.ApiKeys
use modera_shield.Integrations

-- A handler of a page, with the page's state and what the handler is called with.
pub data Act : Type 0 where
  logs_in : (api_key : String) (u : Login.Ui) → Act
  signs_up : (is_email : String → Bool) (v : Signup.Values) (u : Signup.Ui) → Act
  simulates : (elapsed : Decimal) (input : String) (u : Landing.Ui) → Act
  opens : (u : Sidebar.Ui) → Act
  logs_out : (u : Sidebar.Ui) → Act
  tests_live : (u : TopNav.Ui) → Act
  loads_overview : (arrival : List ReplyType) (range : String) (u : Overview.Ui) → Act
  loads_analytics : (arrival : List ReplyType) (range : String) (u : Analytics.Ui) → Act
  loads_queue : (u : Queue.Ui) → Act
  loads_submissions : (page : ℕ) (u : Submissions.Ui) → Act
  loads_detail : (id : String) (u : Detail.Ui) → Act
  polls_detail : (id : String) (u : Detail.Ui) → Act
  loads_keys : (now : String) (u : ApiKeys.Ui) → Act
  creates_key :
      (now : String) (meanwhile : ApiKeys.Ui → ApiKeys.Ui) (name : String) (u : ApiKeys.Ui) → Act
  revokes_key : (now : String) (key : Option ApiKeyResponse) (u : ApiKeys.Ui) → Act
  loads_webhooks : (u : Integrations.Ui) → Act
  creates_webhook : (url : String) (u : Integrations.Ui) → Act
  toggles_webhook : (id : String) (enabled : Bool) (u : Integrations.Ui) → Act
  deletes_webhook :
      (confirmed : Bool) (seen : Option String) (id : String) (u : Integrations.Ui) → Act
  views_deliveries :
      (meanwhile : Integrations.Ui → Integrations.Ui) (id : String) (u : Integrations.Ui) → Act
  copies_key : (u : ApiKeys.Ui) → Act
  copies_secret copies_install copies_code : (u : Integrations.Ui) → Act
  opens_flagged : (item : RecentRequestItem) → Act
  opens_submission opens_recent : (id : String) → Act

abbrev pub page : {S : Type 0} → S → World → Page S
page u w = record { ui = u; world = w }

-- The browser after a handler.
unfoldable pub act : Env → Act → World → World
act env (logs_in api_key u) w = (Login.submit env api_key (page u w)).1.world
act env (signs_up is_email v u) w = (Signup.submit is_email env v (page u w)).1.world
act env (simulates elapsed input u) w =
    (Landing.run_simulation env elapsed input (page u w)).1.world
act env (opens u) w = (Sidebar.check_session (page u w)).world
act env (logs_out u) w = (Sidebar.handle_logout (page u w)).world
act env (tests_live u) w = (TopNav.test_live env (page u w)).1.world
act env (loads_overview arrival range u) w =
    (Overview.fetch_dashboard_data env arrival range (page u w)).1.world
act env (loads_analytics arrival range u) w =
    (Analytics.fetch_analytics env arrival range (page u w)).1.world
act env (loads_queue u) w = (Queue.fetch_flagged env (page u w)).1.world
act env (loads_submissions n u) w = (Submissions.fetch_requests env n (page u w)).1.world
act env (loads_detail id u) w = (Detail.fetch_detail env id (page u w)).1.world
act env (polls_detail id u) w = (Detail.poll env id (page u w)).1.world
act env (loads_keys now u) w = (ApiKeys.fetch_keys now (page u w)).1.world
act env (creates_key now meanwhile name u) w =
    (ApiKeys.handle_create_key env now meanwhile name (page u w)).1.world
act env (revokes_key now key u) w = (ApiKeys.handle_revoke_key env now key (page u w)).1.world
act env (loads_webhooks u) w = (Integrations.load_webhooks env (page u w)).1.world
act env (creates_webhook url u) w = (Integrations.handle_create_webhook env url (page u w)).1.world
act env (toggles_webhook id enabled u) w =
    (Integrations.handle_toggle_webhook env id enabled (page u w)).1.world
act env (deletes_webhook confirmed seen id u) w =
    (Integrations.handle_delete_webhook env confirmed seen id (page u w)).1.world
act env (views_deliveries meanwhile id u) w =
    (Integrations.handle_view_deliveries env meanwhile id (page u w)).1.world
act env (copies_key u) w = (ApiKeys.handle_copy_key (page u w)).world
act env (copies_secret u) w = (Integrations.handle_copy_secret (page u w)).world
act env (copies_install u) w = (Integrations.handle_copy_install (page u w)).world
act env (copies_code u) w = (Integrations.handle_copy_code (page u w)).world
act env (opens_flagged item) w = Queue.open_row item w
act env (opens_submission id) w = Submissions.open_row id w
act env (opens_recent id) w = Overview.open_row id w

-- Each handler is made of the pieces of `Tracks`, but for the two that start a session.
module _ (R : World → World → Type 0) (tracks : Tracks R) (env : Env) (w : World) where
  pub act-Tracks :
      ((api_key : String) (u : Login.Ui) → R w (act env (logs_in api_key u) w))
      → ((is_email : String → Bool) (v : Signup.Values) (u : Signup.Ui)
          → R w (act env (signs_up is_email v u) w))
      → (a : Act) → R w (act env a w)
  unfolding act
  act-Tracks login signup (logs_in api_key u) = login api_key u
  act-Tracks login signup (signs_up is_email v u) = signup is_email v u
  act-Tracks login signup (simulates elapsed input u) =
      run_simulation-Tracks R tracks env elapsed input (page u w)
  act-Tracks login signup (opens u) = check_session-Tracks R tracks env (page u w)
  act-Tracks login signup (logs_out u) = handle_logout-Tracks R tracks env (page u w)
  act-Tracks login signup (tests_live u) = test_live-Tracks R tracks env (page u w)
  act-Tracks login signup (loads_overview arrival range u) =
      fetch_dashboard_data-Tracks R tracks env arrival range (page u w)
  act-Tracks login signup (loads_analytics arrival range u) =
      fetch_analytics-Tracks R tracks env arrival range (page u w)
  act-Tracks login signup (loads_queue u) = fetch_flagged-Tracks R tracks env (page u w)
  act-Tracks login signup (loads_submissions n u) = fetch_requests-Tracks R tracks env n (page u w)
  act-Tracks login signup (loads_detail id u) = fetch_detail-Tracks R tracks env id (page u w)
  act-Tracks login signup (polls_detail id u) = poll-Tracks R tracks env id (page u w)
  act-Tracks login signup (loads_keys now u) = fetch_keys-Tracks R tracks env now (page u w)
  act-Tracks login signup (creates_key now meanwhile name u) =
      handle_create_key-Tracks R tracks env now meanwhile name (page u w)
  act-Tracks login signup (revokes_key now key u) =
      handle_revoke_key-Tracks R tracks env now key (page u w)
  act-Tracks login signup (loads_webhooks u) = load_webhooks-Tracks R tracks env (page u w)
  act-Tracks login signup (creates_webhook url u) =
      handle_create_webhook-Tracks R tracks env url (page u w)
  act-Tracks login signup (toggles_webhook id enabled u) =
      handle_toggle_webhook-Tracks R tracks env id enabled (page u w)
  act-Tracks login signup (deletes_webhook confirmed seen id u) =
      handle_delete_webhook-Tracks R tracks env confirmed seen id (page u w)
  act-Tracks login signup (views_deliveries meanwhile id u) =
      handle_view_deliveries-Tracks R tracks env meanwhile id (page u w)
  act-Tracks login signup (copies_key u) = handle_copy_key-Tracks R tracks (page u w)
  act-Tracks login signup (copies_secret u) = handle_copy_secret-Tracks R tracks (page u w)
  act-Tracks login signup (copies_install u) = handle_copy_install-Tracks R tracks (page u w)
  act-Tracks login signup (copies_code u) = handle_copy_code-Tracks R tracks (page u w)
  act-Tracks login signup (opens_flagged item) = queue_row-Tracks R tracks item w
  act-Tracks login signup (opens_submission id) = log_row-Tracks R tracks id w
  act-Tracks login signup (opens_recent id) = overview_row-Tracks R tracks id w
