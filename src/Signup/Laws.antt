-- ===== src/Signup/Laws.antt =====
-- The session after a sign-up (frontend/tenant-dashboard/app/signup/page.tsx).
use modera_shield.Base.{
  String, true, false, none, some, ◌∷◌, ◌≡◌, refl, ◌∙◌, ap, arith, ok, thrown, ◌==◌, if◌then◌else◌,
}
use modera_shield.Client.Types.{TenantResponse, ApiKeyCreatedResponse, tenant, created_key}
use modera_shield.Client.Browser.{
  World, Request, send, visit, get_stored_api_key, set_stored_api_key, set_stored_tenant,
  get_stored_tenant,
}
use modera_shield.Client.Http.{Env}
use modera_shield.Client.Api.{create_tenant, create_api_key}
use modera_shield.Client.Requests.{request-ok_world}
use modera_shield.Client.Session.{
  get_stored_api_key-set, get_stored_api_key-set_stored_tenant, get_stored_api_key-visit,
  get_stored_tenant-visit, get_stored_tenant-set, set_stored_api_key-visited,
}
use modera_shield.Page.{Page, set_ui, on_world_lem, error_of}
use modera_shield.Signup.{Ui, Values, on_submit, tenant_slug}

-- The session that `sign_in_as` leaves, over a browser that two requests left.
signed_in :
    (key id name : String) (w : World)
    → w.browser ≡ true
    → (get_stored_api_key
          (visit "/dashboard" (set_stored_tenant id name (set_stored_api_key key w)))
        ≡ some key)
      × ((set_stored_tenant id name (set_stored_api_key key w)).visited ≡ w.visited)
unfolding set_stored_tenant
signed_in key id name w b = (
  get_stored_api_key-visit "/dashboard" _
      ∙ (get_stored_api_key-set_stored_tenant id name _ ∙ get_stored_api_key-set key w b),
  ground (arith, set_stored_api_key-visited key w),
)

create_tenant-ok :
    (env : Env) (name slug : String) (w : World) {t : TenantResponse}
    → (create_tenant env name slug w).0 ≡ ok t
    → (r : Request) × ((create_tenant env name slug w).1 ≡ send r w)
unfolding create_tenant
create_tenant-ok env name slug w e = (_, request-ok_world env tenant "/tenants/" _ w e)

create_api_key-ok :
    (env : Env) (id name : String) (w : World) {k : ApiKeyCreatedResponse}
    → (create_api_key env id name w).0 ≡ ok k
    → (r : Request) × ((create_api_key env id name w).1 ≡ send r w)
unfolding create_api_key
create_api_key-ok env id name w e = (_, request-ok_world env created_key _ _ w e)

module _ (env : Env) (v : Values) (p : Page Ui) where
  abbrev pub started : Page Ui
  started = set_ui (λ u. record u { is_loading = true; api_error = none }) p

  -- The browser once the tenant was asked for.
  abbrev pub tenant_asked : World
  tenant_asked = (create_tenant env v.company_name (tenant_slug v.company_name) p.world).1

  -- In the browser, when both the tenant and its key are created, the new key is the stored key, the
  -- browser goes to the dashboard, no error is shown and the button is enabled again.
  pub on_submit-signs_in :
      (t : TenantResponse) (key : ApiKeyCreatedResponse)
      → p.world.browser ≡ true
      → (create_tenant env v.company_name (tenant_slug v.company_name) p.world).0 ≡ ok t
      → (create_api_key env t.id "Default API Key" tenant_asked).0 ≡ ok key
      → (get_stored_api_key (on_submit env v p).1.world ≡ some key.key)
        × ((on_submit env v p).1.world.visited ≡ "/dashboard" ∷ p.world.visited)
        × ((on_submit env v p).1.ui.api_error ≡ none)
        × ((on_submit env v p).1.ui.is_loading ≡ false)
  unfolding on_submit
  on_submit-signs_in t key b e f =
      let ask = create_tenant env v.company_name (tenant_slug v.company_name) in
      let make = create_api_key env t.id "Default API Key" in
      let (r, sent_r) =
        create_tenant-ok env v.company_name (tenant_slug v.company_name) p.world e in
      let (q, sent_q) = create_api_key-ok env t.id "Default API Key" tenant_asked f in
      let both : (make tenant_asked).1 ≡ send q (send r p.world) = sent_q ∙ ap (send q) sent_r in
      let session = signed_in key.key t.id t.name (send q (send r p.world)) b in
      rw
        (
          on_world_lem ask started e,
          on_world_lem make (record started { world = tenant_asked }) f,
          both,
        )
        (session.0, ap (λ l. "/dashboard" ∷ l) session.1, refl, refl)

  -- The browser that is left then.
  pub on_submit-world :
      (t : TenantResponse) (key : ApiKeyCreatedResponse)
      → (create_tenant env v.company_name (tenant_slug v.company_name) p.world).0 ≡ ok t
      → (create_api_key env t.id "Default API Key" tenant_asked).0 ≡ ok key
      → (on_submit env v p).1.world
        ≡ visit "/dashboard" (
            set_stored_tenant t.id t.name (
              set_stored_api_key key.key
                (create_api_key env t.id "Default API Key" tenant_asked).1))
  unfolding on_submit
  on_submit-world t key e f =
      rw
        (
          on_world_lem (create_tenant env v.company_name (tenant_slug v.company_name)) started e,
          on_world_lem (create_api_key env t.id "Default API Key")
              (record started { world = tenant_asked }) f,
        )
        refl

  -- Then the stored tenant is the new one, unless its id or its name is empty.
  pub on_submit-stores_tenant :
      (t : TenantResponse) (key : ApiKeyCreatedResponse)
      → p.world.browser ≡ true
      → (create_tenant env v.company_name (tenant_slug v.company_name) p.world).0 ≡ ok t
      → (create_api_key env t.id "Default API Key" tenant_asked).0 ≡ ok key
      → get_stored_tenant (on_submit env v p).1.world ≡ (
          if t.id == ""
          then none
          else (if t.name == "" then none else some (record { id = t.id; name = t.name })))
  unfolding on_submit set_stored_api_key
  on_submit-stores_tenant t key b e f =
      let ask = create_tenant env v.company_name (tenant_slug v.company_name) in
      let make = create_api_key env t.id "Default API Key" in
      let (r, sent_r) =
        create_tenant-ok env v.company_name (tenant_slug v.company_name) p.world e in
      let (q, sent_q) = create_api_key-ok env t.id "Default API Key" tenant_asked f in
      let both : (make tenant_asked).1 ≡ send q (send r p.world) = sent_q ∙ ap (send q) sent_r in
      rw
        (
          on_world_lem ask started e,
          on_world_lem make (record started { world = tenant_asked }) f,
          both,
        )
        (get_stored_tenant-visit "/dashboard" _
          ∙ (get_stored_tenant-set t.id t.name _ (ground (arith, b))).0)

  -- When the tenant cannot be created, no key is asked for: the browser is as that one request left
  -- it, an error is shown and the button is enabled again.
  pub on_submit-no_tenant :
      (message : String)
      → (create_tenant env v.company_name (tenant_slug v.company_name) p.world).0 ≡ thrown message
      → ((on_submit env v p).1.world ≡ tenant_asked)
        × ((on_submit env v p).1.ui.api_error
            ≡ error_of message "Failed to create account. Please try again.")
        × ((on_submit env v p).1.ui.is_loading ≡ false)
  unfolding on_submit
  on_submit-no_tenant message e =
      rw (on_world_lem (create_tenant env v.company_name (tenant_slug v.company_name)) started e)
        (refl, refl, refl)

  -- When the tenant is created and its key is not, the browser is as the two requests left it, an
  -- error is shown and the button is enabled again.
  pub on_submit-no_key :
      (t : TenantResponse) (message : String)
      → (create_tenant env v.company_name (tenant_slug v.company_name) p.world).0 ≡ ok t
      → (create_api_key env t.id "Default API Key" tenant_asked).0 ≡ thrown message
      → ((on_submit env v p).1.world ≡ (create_api_key env t.id "Default API Key" tenant_asked).1)
        × ((on_submit env v p).1.ui.api_error
            ≡ error_of message "Failed to create account. Please try again.")
        × ((on_submit env v p).1.ui.is_loading ≡ false)
  unfolding on_submit
  on_submit-no_key t message e f =
      rw
        (
          on_world_lem (create_tenant env v.company_name (tenant_slug v.company_name)) started e,
          on_world_lem (create_api_key env t.id "Default API Key")
              (record started { world = tenant_asked }) f,
        )
        (refl, refl, refl)
