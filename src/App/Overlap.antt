-- ===== src/App/Overlap.antt =====
-- Handlers that overlap: what another page of the same browser meets while a key is being checked,
-- and a request that is answered after the session has changed
-- (frontend/tenant-dashboard/app/login/page.tsx, frontend/tenant-dashboard/lib/api/client.ts).
use modera_shield.Base.{
  String, Option, Result, ok, if◌then◌else◌, true, false, none, some, ◌∷◌, ◌≡◌, refl, ◌∙◌, ap,
  arith, ◌==◌, present, trim,
}
use modera_shield.Client.Types.{ReplyType, Reply, TenantInfo, tenant_info}
use modera_shield.Client.Browser.{
  World, send, visit, get_stored_api_key, set_stored_api_key, remove_stored_api_key,
  get_stored_tenant,
}
use modera_shield.Client.Http.{
  Env, request, Options, Response, replied, receive, prepare, is_denied, get_header,
}
use modera_shield.Client.Api.{
  Connection, test_connection, check_with, first_present, verify_path, key_options,
}
use modera_shield.Client.Requests.{
  request_lem, answer, prepare-sends_key, not_ok_of_denied, expire_session-ends_session,
  expire_session-visited,
}
use modera_shield.Client.Session.{get_stored_api_key-set, get_stored_api_key-send}
use modera_shield.Client.Connection.{test_connection-ok_iff}
use modera_shield.Login
use modera_shield.Login.{store_tenant}
use modera_shield.Login.Laws.{is_refused, on_submit-world}
use modera_shield.Page.{Page, Result-cases}
use modera_shield.Sidebar
use modera_shield.Sidebar.Laws.{check_session_lem}

-- The browser while the login page waits for the check of a key.
abbrev pub checking : Env → String → World → World
checking env key w =
    send (prepare env verify_path (key_options key) (set_stored_api_key key w))
      (set_stored_api_key key w)

pub not_blank : (api_key : String) → is_refused api_key ≡ false → (trim api_key == "") ≡ false
not_blank api_key h = ground (arith, h)

first_present-given :
    (key : String) (stored : Option String)
    → (key == "") ≡ false
    → first_present (some key) stored ≡ some key
first_present-given key stored h = rw (first_present, h) refl

check_with-receives :
    (env : Env) (key : String) (w : World)
    → (check_with env (some key) w).1 ≡ (request env tenant_info verify_path (key_options key) w).1
check_with-receives env key w =
    ground (arith, Result-cases (request env tenant_info verify_path (key_options key) w).0)

-- The answer of the check is received in that browser.
pub test_connection-from_checking :
    (env : Env) (key : String) (w : World)
    → (key == "") ≡ false
    → (test_connection env (some key) (set_stored_api_key key w)).1
      ≡ (receive
          (answer env tenant_info verify_path (key_options key) (set_stored_api_key key w))
          (checking env key w)).1
unfolding test_connection
test_connection-from_checking env key w h =
    let stored = get_stored_api_key (set_stored_api_key key w) in
    ap (λ (k : Option String). (check_with env k (set_stored_api_key key w)).1)
      (first_present-given key stored h)
    ∙ (check_with-receives env key (set_stored_api_key key w)
        ∙ ap (λ (r : Result TenantInfo × World). r.1)
            (request_lem env tenant_info verify_path (key_options key) (set_stored_api_key key w)))

-- What the login page makes of the answer of the check.
abbrev pub concluded : Connection → World → World
concluded c w =
    if c.ok
    then visit "/dashboard" (store_tenant (present c.tenant_id) (present c.tenant_name) w)
    else remove_stored_api_key w

-- In the browser, while the check of a well-formed key is pending, the guard lets the pages of the
-- dashboard that are opened then show, with that key, whoever made it up. The submission of the
-- login form goes on from that browser: it receives the answer of the check there, and then goes to
-- the dashboard or drops the key, as `testConnection` answers.
pub check_session-while_checking :
    (env : Env) (api_key : String) (p : Page Login.Ui) (u : Sidebar.Ui)
    → p.world.browser ≡ true
    → is_refused api_key ≡ false
    → ((Sidebar.check_session
          (record { ui = u; world = checking env (trim api_key) p.world })).world
        ≡ checking env (trim api_key) p.world)
      × (get_stored_api_key (checking env (trim api_key) p.world) ≡ some (trim api_key))
      × ((c : Connection) × ((test_connection env
              (some (trim api_key))
              (set_stored_api_key (trim api_key) p.world)).0
            ≡ ok c)
          × ((Login.on_submit env api_key p).1.world
              ≡ concluded c
                  (receive
                    (answer env tenant_info verify_path
                      (key_options (trim api_key))
                      (set_stored_api_key (trim api_key) p.world))
                    (checking env (trim api_key) p.world)).1))
check_session-while_checking env api_key p u b h =
    let key = trim api_key in
    let k : get_stored_api_key (checking env key p.world) ≡ some key =
      get_stored_api_key-send _ (set_stored_api_key key p.world)
      ∙ get_stored_api_key-set key p.world b in
    let (c, e, _) = test_connection-ok_iff env (some key) (set_stored_api_key key p.world) in
    (
      ((check_session_lem (record { ui = u; world = checking env key p.world })).1 key
          (ap present k ∙ rw (not_blank api_key h) refl)).0,
      k,
      (
        c,
        e,
        on_submit-world env api_key p c h b e
            ∙ ap (concluded c)
                (test_connection-from_checking env key p.world (not_blank api_key h)),
      ),
    )

-- A request carries the key that is stored when it is sent. In the browser, when it is denied, the
-- session that ends is whichever is stored by then: no key and no tenant are left and the browser is
-- sent to the login page.
pub receive-stale_denial :
    (env : Env) (t : ReplyType) (path : String) (options : Options) (w v : World) (old : String)
    → (r : Response (Reply t)) → present (get_stored_api_key w) ≡ some old
    → v.browser ≡ true
    → is_denied r.status ≡ true
    → (get_header "X-API-Key" (prepare env path options w).headers ≡ some old)
      × (get_stored_api_key (receive (replied r) v).1 ≡ none)
      × (get_stored_tenant (receive (replied r) v).1 ≡ none)
      × ((receive (replied r) v).1.visited ≡ "/login?error=session_expired" ∷ v.visited)
unfolding receive
receive-stale_denial env t path options w v old r k b d =
    rw (not_ok_of_denied r.status d, d)
      (
        (prepare-sends_key env path options w k).0,
        (expire_session-ends_session v).0,
        (expire_session-ends_session v).1,
        expire_session-visited v b,
      )
