-- ===== src/App/Runs.antt =====
-- The handlers of the pages as runs of their pieces; those that start a session in particular
-- (frontend/tenant-dashboard/app/login/page.tsx, frontend/tenant-dashboard/app/signup/page.tsx).
use modera_shield.Base.{
  String, true, false, Option, none, some, ◌≡◌, refl, inl, inr, Bool-cases, Option-cases, Bool,
  trim, present,
}
use modera_shield.Client.Types.{tenant_info, TenantResponse}
use modera_shield.Client.Browser.{World, set_stored_api_key}
use modera_shield.Client.Http.{Env, prepare}
use modera_shield.Client.Api.{
  test_connection, verify_path, key_options, create_tenant, create_api_key,
}
use modera_shield.Client.Requests.{answer}
use modera_shield.Client.Connection.{test_connection-ok_iff}
use modera_shield.Page.{Page, set_ui, Result-cases}
use modera_shield.Login
use modera_shield.Login.Laws as LoginLaws
use modera_shield.Signup
use modera_shield.Signup.Laws as SignupLaws
use modera_shield.Routes.{leads, route_of, path_of}
use modera_shield.App.Tracks.{at_page, request-Tracks}
use modera_shield.App.Acts.{Act, act, page, act-Tracks}
use modera_shield.App.Overlap.{not_blank, test_connection-from_checking}
use modera_shield.App.Steps.{
  Run, begin, more, Piece, sends, receives, checks, drops, stores_key, stores_tenant, visits,
  Run-append, Run-Tracks,
}

dashboard-leads : leads "/dashboard" ≡ true
unfolding leads route_of path_of
dashboard-leads = refl

module _ (env : Env) where
  store_tenant-Piece :
      (id name : Option String) (w : World) → Piece env w (Login.store_tenant id name w)
  store_tenant-Piece none name w = stores_tenant _ _ refl
  store_tenant-Piece (some id) none w = stores_tenant _ _ refl
  store_tenant-Piece (some id) (some name) w = stores_tenant id name refl

  -- The browser once the login page has the answer to the check of a key.
  checked-Run :
      (api_key : String) (w : World)
      → LoginLaws.is_refused api_key ≡ false
      → Run env w
          (test_connection env (some (trim api_key)) (set_stored_api_key (trim api_key) w)).1
  checked-Run api_key w h =
      let key = trim api_key in
      let before = set_stored_api_key key w in
      more
        (more (more begin (checks api_key h refl))
          (sends (prepare env verify_path (key_options key) before) refl))
        (receives tenant_info (answer env tenant_info verify_path (key_options key) before)
          (test_connection-from_checking env key w (not_blank api_key h)))

  login-Run :
      (api_key : String) (p : Page Login.Ui)
      → p.world.browser ≡ true
      → Run env p.world (Login.on_submit env api_key p).1.world
  login-Run api_key p b = elim (Bool-cases (LoginLaws.is_refused api_key)) [
    | inl h ↦ rw (LoginLaws.on_submit-refused env api_key p h).0 begin
    | inr h ↦
        let (c, e, _) =
          test_connection-ok_iff env (some (trim api_key))
            (set_stored_api_key (trim api_key) p.world) in
        let left = LoginLaws.on_submit-world env api_key p c h b e in
        let checked = checked-Run api_key p.world h in
        elim (Bool-cases c.ok) [
          | inl k ↦
              rw (left, k)
                (more
                  (more checked
                    (store_tenant-Piece (present c.tenant_id) (present c.tenant_name) _))
                  (visits "/dashboard" (at_page dashboard-leads) refl))
          | inr k ↦ rw (left, k) (more checked (drops refl))
        ]
  ]

  tenant_asked-Run :
      (v : Signup.Values) (p : Page Signup.Ui) → Run env p.world (SignupLaws.tenant_asked env v p)
  unfolding create_tenant
  tenant_asked-Run v p = request-Tracks (Run env) (Run-Tracks env) env _ _ _ p.world

  key_asked-Run :
      (v : Signup.Values) (p : Page Signup.Ui) (t : TenantResponse)
      → Run env p.world
          (create_api_key env t.id "Default API Key" (SignupLaws.tenant_asked env v p)).1
  unfolding create_api_key
  key_asked-Run v p t =
      Run-append env p.world (SignupLaws.tenant_asked env v p) _ (tenant_asked-Run v p)
        (request-Tracks (Run env) (Run-Tracks env) env _ _ _ (SignupLaws.tenant_asked env v p))

  signup-Run :
      (v : Signup.Values) (p : Page Signup.Ui)
      → p.world.browser ≡ true
      → Run env p.world (Signup.on_submit env v p).1.world
  signup-Run v p b =
      let asked = SignupLaws.tenant_asked env v p in
      elim (Result-cases
        (create_tenant env v.company_name (Signup.tenant_slug v.company_name) p.world).0) [
          | inl (t, e) ↦ elim (Result-cases (create_api_key env t.id "Default API Key" asked).0) [
            | inl (key, f) ↦ rw (SignupLaws.on_submit-world env v p t key e f) (
                more
                  (more
                    (more (key_asked-Run v p t)
                      (stores_key t.id "Default API Key" asked key f refl))
                    (stores_tenant t.id t.name refl))
                  (visits "/dashboard" (at_page dashboard-leads) refl))
            | inr (m, f) ↦ rw (SignupLaws.on_submit-no_key env v p t m e f).0 (key_asked-Run v p t)
          ]
          | inr (m, e) ↦ rw (SignupLaws.on_submit-no_tenant env v p m e).0 (tenant_asked-Run v p)
        ]

  login_form-Run :
      (api_key : String) (p : Page Login.Ui)
      → p.world.browser ≡ true
      → Run env p.world (Login.submit env api_key p).1.world
  unfolding Login.submit
  login_form-Run api_key p b = elim (Option-cases (Login.login_schema api_key)) [
    | inl e ↦ rw e (login-Run api_key (set_ui (λ u. record u { key_error = none }) p) b)
    | inr (error, e) ↦ rw e begin
  ]

  signup_form-Run :
      (is_email : String → Bool) (v : Signup.Values) (p : Page Signup.Ui)
      → p.world.browser ≡ true
      → Run env p.world (Signup.submit is_email env v p).1.world
  unfolding Signup.submit
  signup_form-Run is_email v p b = elim (Bool-cases (Signup.signup_schema is_email v)) [
    | inl e ↦ rw e (signup-Run v p b)
    | inr e ↦ rw e begin
  ]

  pub act-Run : (a : Act) (w : World) → w.browser ≡ true → Run env w (act env a w)
  unfolding act
  act-Run a w b =
      act-Tracks (Run env) (Run-Tracks env) env w (λ api_key u. login_form-Run api_key (page u w) b)
        (λ is_email v u. signup_form-Run is_email v (page u w) b) a
