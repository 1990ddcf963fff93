-- ===== src/Login/Laws.antt =====
-- Signing in: which keys reach the backend, and the session that is left
-- (frontend/tenant-dashboard/app/login/page.tsx).
use modera_shield.Base.{
  String, Bool, true, false, ◌||◌, not, Option, none, some, ◌∷◌, ◌≡◌, inl, inr, ◌∙◌, eq_iff,
  outcome-eta, refl, arith, ok, thrown, Result, ◌==◌, if◌then◌else◌, trim, starts_with, Bool-cases,
  or_catch, present, ap,
}
use modera_shield.Client.Browser.{
  send, visit, set_stored_tenant, World, get_stored_api_key, get_stored_tenant, set_stored_api_key,
  remove_stored_api_key,
}
use modera_shield.Client.Session.{
  get_stored_api_key-set_stored_tenant, get_stored_api_key-visit, get_stored_api_key-send,
  set_stored_api_key-visited, remove_stored_api_key-ends_session, get_stored_api_key-set,
}
use modera_shield.Client.Http.{Env}
use modera_shield.Client.Api.{Connection, test_connection}
use modera_shield.Client.Connection.{test_connection-ok_world}
use modera_shield.Page.{Page, set_ui}
use modera_shield.Login.{
  store_tenant, Ui, on_submit, sign_in, verify, accept, reject, show_error, required_message,
  format_message,
}

abbrev pub is_refused : String → Bool
is_refused api_key = (trim api_key == "") || not (starts_with (trim api_key) "msk_")

-- The page when the `try` of `onSubmit` starts.
abbrev started : Page Ui → Page Ui
started p = set_ui (λ u. record u { is_loading = true; api_error = none }) p

blank_of_empty : (s : String) → ((s == "") || (trim s == "")) ≡ (trim s == "")
unfolding trim
blank_of_empty s = elim (Bool-cases (s == "")) [ inl e ↦ rw ((eq_iff s "").0 e) | inr e ↦ rw e ]

module _ (env : Env) (api_key : String) (p : Page Ui) where
  sign_in-refused :
      is_refused api_key ≡ true → (message : String) × (sign_in env api_key p ≡ (thrown message, p))
  sign_in-refused h = elim (Bool-cases (trim api_key == "")) [
    | inl e ↦ (required_message, rw (blank_of_empty api_key, e))
    | inr e ↦ (format_message, rw (blank_of_empty api_key, e) (ground arith))
  ]

  sign_in-checked : is_refused api_key ≡ false → sign_in env api_key p ≡ verify env (trim api_key) p
  sign_in-checked h = rw (blank_of_empty api_key) (ground arith)

verify_lem :
    (env : Env) (key : String) (p : Page Ui) (c : Connection)
    → (test_connection env (some key) (set_stored_api_key key p.world)).0 ≡ ok c
    → verify env key p
      ≡ (if c.ok then accept c else reject c)
          (record p { world = (test_connection env (some key) (set_stored_api_key key p.world)).1 })
verify_lem env key p c e =
    rw (outcome-eta (test_connection env (some key) (set_stored_api_key key p.world)) e)

store_tenant-keeps_key :
    (id name : Option String) (w : World)
    → (get_stored_api_key (store_tenant id name w) ≡ get_stored_api_key w)
      × ((store_tenant id name w).visited ≡ w.visited)
unfolding set_stored_tenant
store_tenant-keeps_key none name w = (get_stored_api_key-set_stored_tenant _ _ w, ground arith)
store_tenant-keeps_key (some id) none w = (get_stored_api_key-set_stored_tenant _ _ w, ground arith)
store_tenant-keeps_key (some id) (some name) w =
    (get_stored_api_key-set_stored_tenant id name w, ground arith)

-- The session that `accept` leaves, with the key that was checked.
accepted-session :
    (env : Env) (key : String) (w : World) (c : Connection)
    → w.browser ≡ true
    → (test_connection env (some key) (set_stored_api_key key w)).0 ≡ ok c
    → c.ok ≡ true
    → (get_stored_api_key (
          visit "/dashboard" (
            store_tenant
              (present c.tenant_id)
              (present c.tenant_name)
              (test_connection env (some key) (set_stored_api_key key w)).1))
        ≡ some key)
      × ("/dashboard"
            ∷ (store_tenant
                (present c.tenant_id)
                (present c.tenant_name)
                (test_connection env (some key) (set_stored_api_key key w)).1).visited
          ≡ "/dashboard" ∷ w.visited)
      × (◌≡◌ {A = Option String} none none)
accepted-session env key w c b e h =
    let (r, sent) = test_connection-ok_world env (some key) (set_stored_api_key key w) c e h in
    let kept =
      store_tenant-keeps_key (present c.tenant_id) (present c.tenant_name)
        (send r (set_stored_api_key key w)) in
    rw sent (
      get_stored_api_key-visit "/dashboard" _
          ∙ (kept.0 ∙ (get_stored_api_key-send r _ ∙ get_stored_api_key-set key w b)),
      ap (λ v. "/dashboard" ∷ v) (kept.1 ∙ set_stored_api_key-visited key w),
      refl,
    )

-- Whatever the key and the backend, `onSubmit` ends without a throw and with the button enabled.
on_submit-stops_loading :
    (env : Env) (api_key : String) (p : Page Ui)
    → ((on_submit env api_key p).0 ≡ ok tt) × ((on_submit env api_key p).1.ui.is_loading ≡ false)
unfolding on_submit
on_submit-stops_loading env api_key p = (caught (sign_in env api_key (started p)), refl)
  where
    caught : (r : Result (Unit {0}) × Page Ui) → (or_catch r show_error).0 ≡ ok tt
    caught (ok u, q) = refl
    caught (thrown e, q) = refl

module _ (env : Env) (api_key : String) (p : Page Ui) where
  -- A key that is blank, or that does not start with "msk_" once trimmed, is refused with a message
  -- and without a change to the browser: no request is sent, and an earlier session is kept.
  pub on_submit-refused :
      is_refused api_key ≡ true
      → ((on_submit env api_key p).1.world ≡ p.world)
        × ((message : String) × ((on_submit env api_key p).1.ui.api_error ≡ some message))
  unfolding on_submit
  on_submit-refused h =
      let (message, e) = sign_in-refused env api_key (started p) h in rw e (refl, (_, refl))

  module _ (c : Connection) (well_formed : is_refused api_key ≡ false)
      (in_browser : p.world.browser ≡ true)
      (checked : (test_connection env
          (some (trim api_key))
          (set_stored_api_key (trim api_key) p.world)).0
        ≡ ok c) where
    -- The browser that is left.
    pub on_submit-world : (on_submit env api_key p).1.world ≡ (
        if c.ok
        then visit "/dashboard" (
            store_tenant
              (present c.tenant_id)
              (present c.tenant_name)
              (test_connection env
                (some (trim api_key))
                (set_stored_api_key (trim api_key) p.world)).1)
        else remove_stored_api_key
            (test_connection env
              (some (trim api_key))
              (set_stored_api_key (trim api_key) p.world)).1)
    unfolding on_submit
    on_submit-world =
        let e = sign_in-checked env api_key (started p) well_formed in
        let v = verify_lem env (trim api_key) (started p) c checked in
        elim (Bool-cases c.ok) [ inl h ↦ rw (e, v, h) refl | inr h ↦ rw (e, v, h) refl ]

    -- In the browser, a well-formed key that the backend verifies is the stored key afterwards, no
    -- error is shown, and the browser goes to the dashboard.
    pub on_submit-accepted :
        c.ok ≡ true
        → (get_stored_api_key (on_submit env api_key p).1.world ≡ some (trim api_key))
          × ((on_submit env api_key p).1.world.visited ≡ "/dashboard" ∷ p.world.visited)
          × ((on_submit env api_key p).1.ui.api_error ≡ none)
    unfolding on_submit
    on_submit-accepted h =
        let e = sign_in-checked env api_key (started p) well_formed in
        let v = verify_lem env (trim api_key) (started p) c checked in
        rw (e, v, h) (accepted-session env (trim api_key) p.world c in_browser checked h)

    -- In the browser, a well-formed key that the backend does not verify leaves no session, also when
    -- there was one before, and shows an error.
    pub on_submit-rejected :
        c.ok ≡ false
        → (get_stored_api_key (on_submit env api_key p).1.world ≡ none)
          × (get_stored_tenant (on_submit env api_key p).1.world ≡ none)
          × ((message : String) × ((on_submit env api_key p).1.ui.api_error ≡ some message))
    unfolding on_submit
    on_submit-rejected h =
        let e = sign_in-checked env api_key (started p) well_formed in
        let v = verify_lem env (trim api_key) (started p) c checked in
        let ended =
          remove_stored_api_key-ends_session
            (test_connection env (some (trim api_key))
              (set_stored_api_key (trim api_key) p.world)).1 in
        rw (e, v, h) (ended.0, ended.1, (_, refl))
