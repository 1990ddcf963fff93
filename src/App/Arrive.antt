-- ===== src/App/Arrive.antt =====
-- From the form that starts a session to the dashboard's sidebar: what the page that the browser is
-- sent to then shows (frontend/tenant-dashboard/app/signup/page.tsx,
-- frontend/tenant-dashboard/app/login/page.tsx,
-- frontend/tenant-dashboard/components/layout/sidebar.tsx).
use modera_shield.Base.{String, true, false, some, ok, ◌≡◌, refl, ◌∙◌, ap, ◌==◌, present}
use modera_shield.Client.Types.{TenantResponse, ApiKeyCreatedResponse}
use modera_shield.Client.Browser.{StoredTenant, get_stored_api_key, get_stored_tenant}
use modera_shield.Client.Http.{Env}
use modera_shield.Client.Api.{create_tenant, create_api_key}
use modera_shield.Page.{Page}
use modera_shield.Signup
use modera_shield.Signup.Laws.{tenant_asked, on_submit-signs_in, on_submit-stores_tenant}
use modera_shield.Sidebar
use modera_shield.Sidebar.Laws.{check_session_lem}

-- A browser with a key and a tenant in its storage shows that tenant in the sidebar.
check_session-shows :
    (key : String) (tenant : StoredTenant) (p : Page Sidebar.Ui)
    → present (get_stored_api_key p.world) ≡ some key
    → get_stored_tenant p.world ≡ some tenant
    → ((Sidebar.check_session p).world ≡ p.world) × ((Sidebar.check_session p).ui.tenant ≡ tenant)
check_session-shows key tenant p k t =
    let shown = (check_session_lem p).1 key k in
    (shown.0, ap (λ (u : Sidebar.Ui). u.tenant) shown.1 ∙ rw t refl)

module _ (env : Env) (v : Signup.Values) (p : Page Signup.Ui) (u : Sidebar.Ui) where
  -- The sidebar of the page after a sign-up.
  abbrev arrived : Page Sidebar.Ui
  arrived = record { ui = u; world = (Signup.on_submit env v p).1.world }

  -- In the browser, when both the tenant and its key are created and neither the key nor the tenant's
  -- id or name is empty, the guard of the dashboard's pages lets the browser stay, and the
  -- sidebar shows the new tenant.
  check_session-after_signup :
      (t : TenantResponse) (key : ApiKeyCreatedResponse)
      → p.world.browser ≡ true
      → (create_tenant env v.company_name (Signup.tenant_slug v.company_name) p.world).0 ≡ ok t
      → (create_api_key env t.id "Default API Key" (tenant_asked env v p)).0 ≡ ok key
      → (key.key == "") ≡ false
      → (t.id == "") ≡ false
      → (t.name == "") ≡ false
      → ((Sidebar.check_session arrived).world ≡ arrived.world)
        × ((Sidebar.check_session arrived).ui.tenant ≡ record { id = t.id; name = t.name })
  check_session-after_signup t key b e f k i n =
      check_session-shows key.key (record { id = t.id; name = t.name }) arrived
        (ap present (on_submit-signs_in env v p t key b e f).0 ∙ rw k refl)
        (on_submit-stores_tenant env v p t key b e f ∙ rw (i, n) refl)
