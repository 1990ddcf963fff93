-- ===== src/App/Pages.antt =====
-- The other handlers, as made of the pieces of `Tracks`: those that chain calls, test the connection
-- first, or leave a page.
use modera_shield.Base.{
  ℕ, zero, suc, arith, String, none, some, Option, List, Bool-cases, inl, inr, refl, ◌>>=◌,
}
use modera_shield.Client.Types.{
  ReplyType, overview, category_metrics, usage, requests, Decimal, ApiKeyResponse,
  ApiKeyCreatedResponse, RecentRequestItem, ModerationResultResponse,
}
use modera_shield.Client.Browser.{World, visit, remove_stored_api_key}
use modera_shield.Client.Http.{Env}
use modera_shield.Client.Api.{
  get_request_detail, create_moderation_request, check_with, list_api_keys, revoke_api_key,
  test_connection,
}
use modera_shield.Page.{Page}
use modera_shield.App.Tracks.{Tracks, at_page, at_request, request-Tracks, call_then_rule}
use modera_shield.App.Handlers.{create_api_key-Tracks, get_request_detail-Tracks}
use modera_shield.Routes.{leads, route_of, path_of}
use modera_shield.ApiKeys
use modera_shield.Landing
use modera_shield.TopNav
use modera_shield.Sidebar
use modera_shield.Overview
use modera_shield.Queue
use modera_shield.Submissions
use modera_shield.Integrations
use modera_shield.Analytics

module _ (R : World → World → Type 0) (tracks : Tracks R) where
  alert_after : (text : String) (w v : World) → R w v → R w (ApiKeys.alert text v)
  alert_after text w v h = tracks.follows h (tracks.alerts text v)

  to_login : (w : World) → R w (visit "/login" w)
  unfolding leads route_of path_of
  to_login w = tracks.visits "/login" w (at_page refl)

  logout_after : (w v : World) → R w v → R w (visit "/login" (remove_stored_api_key v))
  logout_after w v h = tracks.follows h (tracks.follows (tracks.drops v) (to_login _))

  -- The clicks that copy a text, or open a request.
  copy_key-Tracks :
      (o : Option ApiKeyCreatedResponse) (p : Page ApiKeys.Ui)
      → R p.world (ApiKeys.copy_key o p).world
  copy_key-Tracks none p = tracks.stays p.world
  copy_key-Tracks (some key) p = tracks.copies key.key p.world

  pub handle_copy_key-Tracks : (p : Page ApiKeys.Ui) → R p.world (ApiKeys.handle_copy_key p).world
  unfolding ApiKeys.handle_copy_key
  handle_copy_key-Tracks p = copy_key-Tracks p.ui.created_key_data p

  copy_secret-Tracks :
      (o : Option String) (p : Page Integrations.Ui)
      → R p.world (Integrations.copy_secret o p).world
  copy_secret-Tracks none p = tracks.stays p.world
  copy_secret-Tracks (some secret) p = tracks.copies secret p.world

  pub handle_copy_secret-Tracks :
      (p : Page Integrations.Ui) → R p.world (Integrations.handle_copy_secret p).world
  unfolding Integrations.handle_copy_secret
  handle_copy_secret-Tracks p = copy_secret-Tracks _ p

  pub handle_copy_install-Tracks :
      (p : Page Integrations.Ui) → R p.world (Integrations.handle_copy_install p).world
  unfolding Integrations.handle_copy_install
  handle_copy_install-Tracks p = tracks.copies _ p.world

  pub handle_copy_code-Tracks :
      (p : Page Integrations.Ui) → R p.world (Integrations.handle_copy_code p).world
  unfolding Integrations.handle_copy_code
  handle_copy_code-Tracks p = tracks.copies _ p.world

  pub queue_row-Tracks : (item : RecentRequestItem) (w : World) → R w (Queue.open_row item w)
  unfolding Queue.open_row
  queue_row-Tracks item w = tracks.visits _ w (at_request item.id refl)

  pub log_row-Tracks : (id : String) (w : World) → R w (Submissions.open_row id w)
  unfolding Submissions.open_row
  log_row-Tracks id w = tracks.visits _ w (at_request id refl)

  pub overview_row-Tracks : (id : String) (w : World) → R w (Overview.open_row id w)
  unfolding Overview.open_row
  overview_row-Tracks id w = tracks.visits _ w (at_request id refl)

module _ (R : World → World → Type 0) (tracks : Tracks R) (env : Env) where
  check_with-Tracks : (key : Option String) (w : World) → R w (check_with env key w).1
  check_with-Tracks none w = tracks.stays w
  check_with-Tracks (some key) w = grind (arith, request-Tracks R tracks)

  pub test_connection-Tracks : (key : Option String) (w : World) → R w (test_connection env key w).1
  unfolding test_connection
  test_connection-Tracks key w = check_with-Tracks _ w

  pub test_live-Tracks : (p : Page TopNav.Ui) → R p.world (TopNav.test_live env p).1.world
  unfolding TopNav.test_live
  test_live-Tracks p = ground (arith, test_connection-Tracks none p.world)

  pub fetch_keys-Tracks :
      (now : String) (p : Page ApiKeys.Ui) → R p.world (ApiKeys.fetch_keys now p).1.world
  unfolding ApiKeys.fetch_keys list_api_keys
  fetch_keys-Tracks now p = tracks.stays p.world

  pub handle_create_key-Tracks :
      (now : String) (meanwhile : ApiKeys.Ui → ApiKeys.Ui) (name : String) (p : Page ApiKeys.Ui)
      → R p.world (ApiKeys.handle_create_key env now meanwhile name p).1.world
  unfolding ApiKeys.handle_create_key ApiKeys.fetch_keys list_api_keys
  handle_create_key-Tracks now meanwhile name p =
      grind (arith, create_api_key-Tracks R tracks, alert_after R tracks, tracks.stays)

  pub handle_revoke_key-Tracks :
      (now : String) (key : Option ApiKeyResponse) (p : Page ApiKeys.Ui)
      → R p.world (ApiKeys.handle_revoke_key env now key p).1.world
  unfolding ApiKeys.handle_revoke_key ApiKeys.fetch_keys list_api_keys revoke_api_key
  handle_revoke_key-Tracks now none p = tracks.stays p.world
  handle_revoke_key-Tracks now (some key) p =
      alert_after R tracks _ p.world p.world (tracks.stays p.world)

  create_moderation_request-Tracks :
      (input : String) (w : World) → R w (create_moderation_request env input w).1
  unfolding create_moderation_request
  create_moderation_request-Tracks input w = request-Tracks R tracks env _ _ _ w

  await_verdict-Tracks :
      (id : String) (n : ℕ) (d : ModerationResultResponse) (w : World)
      → R w (Landing.await_verdict env id n d w).1
  unfolding Landing.await_verdict
  await_verdict-Tracks id zero d w = tracks.stays w
  await_verdict-Tracks id (suc n) d w = elim (Bool-cases (Landing.is_final d.status)) [
    | inl e ↦ rw e (tracks.stays w)
    | inr e ↦ rw e (
        call_then_rule R tracks w (get_request_detail env id w) (Landing.await_verdict env id n)
          (get_request_detail-Tracks R tracks env id w) (await_verdict-Tracks id n))
  ]

  classify-Tracks : (input : String) (w : World) → R w (Landing.classify env input w).1
  classify-Tracks input w =
      call_then_rule R tracks w (create_moderation_request env input w)
        (λ res. get_request_detail env res.id >>= Landing.await_verdict env res.id 10)
        (create_moderation_request-Tracks input w)
        (λ res v.
          call_then_rule R tracks v (get_request_detail env res.id v)
            (Landing.await_verdict env res.id 10) (get_request_detail-Tracks R tracks env res.id v)
            (await_verdict-Tracks res.id 10))

  pub run_simulation-Tracks :
      (elapsed : Decimal) (input : String) (p : Page Landing.Ui)
      → R p.world (Landing.run_simulation env elapsed input p).1.world
  unfolding Landing.run_simulation
  run_simulation-Tracks elapsed input p = ground (arith, classify-Tracks input p.world)

  pub check_session-Tracks : (p : Page Sidebar.Ui) → R p.world (Sidebar.check_session p).world
  unfolding Sidebar.check_session
  check_session-Tracks p = grind (arith, to_login R tracks, tracks.stays)

  pub handle_logout-Tracks : (p : Page Sidebar.Ui) → R p.world (Sidebar.handle_logout p).world
  unfolding Sidebar.handle_logout
  handle_logout-Tracks p = tracks.follows (tracks.drops p.world) (to_login R tracks _)

  send_four-Tracks : (days : ℕ) (w : World) → R w (Overview.send_four env days w).world
  unfolding Overview.send_four
  send_four-Tracks days w =
      tracks.follows (tracks.sends _ w)
        (tracks.follows (tracks.sends _ _) (tracks.follows (tracks.sends _ _) (tracks.sends _ _)))

  receive_four-Tracks :
      (arrival : List ReplyType) (s : Overview.Sent) → R s.world (Overview.receive_four arrival s).1
  unfolding Overview.receive_four
  receive_four-Tracks arrival s = tracks.follows (tracks.receives overview s.ov s.world) (
      tracks.follows (tracks.receives category_metrics s.cat _)
        (tracks.follows (tracks.receives usage s.us _) (tracks.receives requests s.req _)))

  load_four-Tracks :
      (arrival : List ReplyType) (days : ℕ) (w : World)
      → R w (Overview.load_four env arrival days w).1
  load_four-Tracks arrival days w =
      tracks.follows (send_four-Tracks days w)
        (receive_four-Tracks arrival (Overview.send_four env days w))

  load_four_after :
      (arrival : List ReplyType) (days : ℕ) (w v : World)
      → R w v
      → R w (Overview.load_four env arrival days v).1
  load_four_after arrival days w v h = tracks.follows h (load_four-Tracks arrival days v)

  send_three-Tracks : (days : ℕ) (w : World) → R w (Analytics.send_three env days w).world
  unfolding Analytics.send_three
  send_three-Tracks days w =
      tracks.follows (tracks.sends _ w) (tracks.follows (tracks.sends _ _) (tracks.sends _ _))

  receive_three-Tracks :
      (arrival : List ReplyType) (s : Analytics.Sent)
      → R s.world (Analytics.receive_three arrival s).1
  unfolding Analytics.receive_three
  receive_three-Tracks arrival s =
      tracks.follows (tracks.receives overview s.ov s.world)
        (tracks.follows (tracks.receives usage s.us _) (tracks.receives category_metrics s.cat _))

  load_three-Tracks :
      (arrival : List ReplyType) (days : ℕ) (w : World)
      → R w (Analytics.load_three env arrival days w).1
  load_three-Tracks arrival days w =
      tracks.follows (send_three-Tracks days w)
        (receive_three-Tracks arrival (Analytics.send_three env days w))

  pub fetch_analytics-Tracks :
      (arrival : List ReplyType) (range : String) (p : Page Analytics.Ui)
      → R p.world (Analytics.fetch_analytics env arrival range p).1.world
  unfolding Analytics.fetch_analytics
  fetch_analytics-Tracks arrival range p =
      ground (arith, load_three-Tracks arrival (Analytics.days_of range) p.world)

  pub fetch_dashboard_data-Tracks :
      (arrival : List ReplyType) (range : String) (p : Page Overview.Ui)
      → R p.world (Overview.fetch_dashboard_data env arrival range p).1.world
  unfolding Overview.fetch_dashboard_data
  fetch_dashboard_data-Tracks arrival range p =
      let tested = test_connection-Tracks none p.world in
      ground (
        arith,
        load_four_after arrival (Overview.days_of range) p.world _ tested,
        tested,
        logout_after R tracks p.world _ tested,
        to_login R tracks p.world,
        tracks.stays p.world,
      )
