-- ===== src/App/SignIn.antt =====
-- The abstract machine of the session, and the two forms that start one.
use modera_shield.Base.{
  arith, String, Bool, true, false, none, some, ok, Option, Bool-cases, Option-cases, inl, inr,
  refl, ◌≡◌, trim, ap,
}
use modera_shield.Client.Types.{TenantResponse, ApiKeyCreatedResponse}
use modera_shield.Client.Browser.{
  World, get_stored_api_key, set_stored_api_key, set_stored_tenant, remove_stored_api_key,
}
use modera_shield.Client.Http.{Env}
use modera_shield.Client.Session.{get_stored_api_key-set}
use modera_shield.Client.Api.{Connection, test_connection, create_tenant, create_api_key}
use modera_shield.Client.Connection.{test_connection-ok_iff}
use modera_shield.Page.{Page, set_ui, on_world_lem, Result-cases}
use modera_shield.App.Kept.{Kept, Kept-trans, Kept-Tracks}
use modera_shield.App.Tracks.{request-Tracks}
use modera_shield.App.Handlers.{create_api_key-Tracks}
use modera_shield.App.Pages.{test_connection-Tracks}
use modera_shield.Login
use modera_shield.Login.Laws.{is_refused, on_submit-refused, on_submit-accepted, on_submit-rejected}
use modera_shield.Signup
use modera_shield.Signup.Laws.{
  started, tenant_asked, on_submit-signs_in, on_submit-no_tenant, on_submit-no_key,
}

-- A key that the backend vouched for: it answered a test of the connection that was made with that
-- key in the storage, or it made the key.
pub data IsTrusted (env : Env) (key : String) : Type 0 where
  verified :
      (w : World) (c : Connection)
      → get_stored_api_key w ≡ some key
      → (test_connection env (some key) w).0 ≡ ok c
      → c.ok ≡ true
      → IsTrusted env key
  issued :
      (tenant_id name : String) (w : World) (k : ApiKeyCreatedResponse)
      → (create_api_key env tenant_id name w).0 ≡ ok k
      → k.key ≡ key
      → IsTrusted env key

-- The abstract machine: its state is the key of the session, if there is one. A session goes on,
-- ends, or starts with a key that the backend vouched for.
pub data Move (env : Env) (s t : Option String) : Type 0 where
  stay : t ≡ s → Move env s t
  leave : t ≡ none → Move env s t
  enter : (key : String) → t ≡ some key → IsTrusted env key → Move env s t

pub Kept-Move :
    (env : Env) {w v : World} → Kept w v → Move env (get_stored_api_key w) (get_stored_api_key v)
Kept-Move env k = elim k.key [ inl e ↦ stay e | inr e ↦ leave e ]

module _ (env : Env) where
  -- `onSubmit` of the login page.
  login_decided :
      (api_key : String) (p : Page Login.Ui) (c : Connection)
      → p.world.browser ≡ true
      → is_refused api_key ≡ false
      → (test_connection env (some (trim api_key)) (set_stored_api_key (trim api_key) p.world)).0
        ≡ ok c
      → Move env
          (get_stored_api_key p.world)
          (get_stored_api_key (Login.on_submit env api_key p).1.world)
  login_decided api_key p c b w e = elim (Bool-cases c.ok) [
    | inl h ↦ enter (trim api_key) (on_submit-accepted env api_key p c w b e h).0 (
        verified (set_stored_api_key (trim api_key) p.world) c
          (get_stored_api_key-set (trim api_key) p.world b) e h)
    | inr h ↦ leave (on_submit-rejected env api_key p c w b e h).0
  ]

  login-Move :
      (api_key : String) (p : Page Login.Ui)
      → p.world.browser ≡ true
      → Move env
          (get_stored_api_key p.world)
          (get_stored_api_key (Login.on_submit env api_key p).1.world)
  login-Move api_key p b = elim (Bool-cases (is_refused api_key)) [
    | inl h ↦ stay (ap get_stored_api_key (on_submit-refused env api_key p h).0)
    | inr h ↦
        let (c, e, _) =
          test_connection-ok_iff env (some (trim api_key))
            (set_stored_api_key (trim api_key) p.world) in
        login_decided api_key p c b h e
  ]

  login-browser :
      (api_key : String) (p : Page Login.Ui)
      → (Login.on_submit env api_key p).1.world.browser ≡ p.world.browser
  unfolding Login.on_submit set_stored_api_key set_stored_tenant remove_stored_api_key
  login-browser api_key p = ground (
    arith,
    (test_connection-Tracks Kept Kept-Tracks env (some (trim api_key))
        (set_stored_api_key (trim api_key) p.world)).same_browser,
  )

  -- The form of the login page, with its schema.
  pub login_form-Move :
      (api_key : String) (p : Page Login.Ui)
      → p.world.browser ≡ true
      → Move env
          (get_stored_api_key p.world)
          (get_stored_api_key (Login.submit env api_key p).1.world)
  unfolding Login.submit
  login_form-Move api_key p b = elim (Option-cases (Login.login_schema api_key)) [
    | inl e ↦ rw e (login-Move api_key (set_ui (λ u. record u { key_error = none }) p) b)
    | inr (error, e) ↦ rw e (stay refl)
  ]

  pub login_form-browser :
      (api_key : String) (p : Page Login.Ui)
      → (Login.submit env api_key p).1.world.browser ≡ p.world.browser
  unfolding Login.submit
  login_form-browser api_key p = elim (Option-cases (Login.login_schema api_key)) [
    | inl e ↦ rw e (login-browser api_key (set_ui (λ u. record u { key_error = none }) p))
    | inr (error, e) ↦ rw e refl
  ]

  create_tenant-Kept : (name slug : String) (w : World) → Kept w (create_tenant env name slug w).1
  unfolding create_tenant
  create_tenant-Kept name slug w = request-Tracks Kept Kept-Tracks env _ _ _ w

  module _ (v : Signup.Values) (p : Page Signup.Ui) where
    asked-Kept : Kept p.world (tenant_asked env v p)
    asked-Kept = create_tenant-Kept v.company_name _ p.world

    -- The browser of a failure.
    signup_failed-Kept :
        (t : TenantResponse)
        → Kept p.world (create_api_key env t.id "Default API Key" (tenant_asked env v p)).1
    signup_failed-Kept t =
        Kept-trans asked-Kept
          (create_api_key-Tracks Kept Kept-Tracks env t.id "Default API Key" (tenant_asked env v p))

    signup-Move :
        p.world.browser ≡ true
        → Move env
            (get_stored_api_key p.world)
            (get_stored_api_key (Signup.on_submit env v p).1.world)
    signup-Move b =
        elim (Result-cases
          (create_tenant env v.company_name (Signup.tenant_slug v.company_name) p.world).0) [
            | inl (t, e) ↦
                elim (Result-cases
                  (create_api_key env t.id "Default API Key" (tenant_asked env v p)).0) [
                    | inl (key, f) ↦
                        enter key.key (on_submit-signs_in env v p t key b e f).0
                          (issued t.id "Default API Key" (tenant_asked env v p) key f refl)
                    | inr (m, f) ↦
                        rw (on_submit-no_key env v p t m e f).0
                          (Kept-Move env (signup_failed-Kept t))
                  ]
            | inr (m, e) ↦ rw (on_submit-no_tenant env v p m e).0 (Kept-Move env asked-Kept)
          ]

    -- A success leaves the kind of the browser.
    signup-browser_ok :
        (t : TenantResponse) (key : ApiKeyCreatedResponse)
        → (create_tenant env v.company_name (Signup.tenant_slug v.company_name) p.world).0 ≡ ok t
        → (create_api_key env t.id "Default API Key" (tenant_asked env v p)).0 ≡ ok key
        → (Signup.on_submit env v p).1.world.browser ≡ p.world.browser
    unfolding Signup.on_submit set_stored_api_key set_stored_tenant
    signup-browser_ok t key e f =
        rw
          (
            on_world_lem (create_tenant env v.company_name (Signup.tenant_slug v.company_name))
                (started env v p) e,
            on_world_lem (create_api_key env t.id "Default API Key")
                (record (started env v p) { world = tenant_asked env v p }) f,
          )
          (ground (arith, (signup_failed-Kept t).same_browser))

    signup-browser : (Signup.on_submit env v p).1.world.browser ≡ p.world.browser
    signup-browser =
        elim (Result-cases
          (create_tenant env v.company_name (Signup.tenant_slug v.company_name) p.world).0) [
            | inl (t, e) ↦
                elim (Result-cases
                  (create_api_key env t.id "Default API Key" (tenant_asked env v p)).0) [
                    | inl (key, f) ↦ signup-browser_ok t key e f
                    | inr (m, f) ↦
                        rw (on_submit-no_key env v p t m e f).0 (signup_failed-Kept t).same_browser
                  ]
            | inr (m, e) ↦ rw (on_submit-no_tenant env v p m e).0 asked-Kept.same_browser
          ]

  pub signup_form-Move :
      (is_email : String → Bool) (v : Signup.Values) (p : Page Signup.Ui)
      → p.world.browser ≡ true
      → Move env
          (get_stored_api_key p.world)
          (get_stored_api_key (Signup.submit is_email env v p).1.world)
  unfolding Signup.submit
  signup_form-Move is_email v p b = elim (Bool-cases (Signup.signup_schema is_email v)) [
    | inl e ↦ rw e (signup-Move v p b)
    | inr e ↦ rw e (stay refl)
  ]

  pub signup_form-browser :
      (is_email : String → Bool) (v : Signup.Values) (p : Page Signup.Ui)
      → (Signup.submit is_email env v p).1.world.browser ≡ p.world.browser
  unfolding Signup.submit
  signup_form-browser is_email v p = elim (Bool-cases (Signup.signup_schema is_email v)) [
    | inl e ↦ rw e (signup-browser v p)
    | inr e ↦ rw e refl
  ]
