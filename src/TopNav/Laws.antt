-- ===== src/TopNav/Laws.antt =====
-- The badge of the bar above a page (frontend/tenant-dashboard/components/layout/topnav.tsx).
use modera_shield.Base.{
  String, true, Bool, false, none, some, ok, ok-injective, ◌≡◌, refl, sym, ◌∙◌, ◌↔◌,
}
use modera_shield.Client.Types.{TenantInfo, tenant_info}
use modera_shield.Client.Browser.{get_stored_api_key}
use modera_shield.Client.Http.{Env, request}
use modera_shield.Client.Api.{test_connection, verified, verify_path, key_options, first_present}
use modera_shield.Client.Connection.{test_connection-ok_iff, test_connection-verified}
use modera_shield.Page.{Page, on_world_lem}
use modera_shield.TopNav.{Props, Ui, live_mode, badge_of, test_live, view}

badge_of-live : (live : Bool) → badge_of (some live) ≡ live_mode → live ≡ true
badge_of-live true h = refl
badge_of-live false h = cc h

-- When the test of the connection has ended, the badge says "Live Mode" exactly if a key is stored
-- and the backend verified it.
test_live-shows :
    (env : Env) (props : Props) (p : Page Ui)
    → ((view props (test_live env p).1.ui).badge ≡ live_mode) ↔ (
        (k : String) × (info : TenantInfo) × (first_present none (get_stored_api_key p.world)
          ≡ some k)
        × ((request env tenant_info verify_path (key_options k) p.world).0 ≡ ok info))
unfolding test_live view
test_live-shows env props p =
    let (c, e, (to, from)) = test_connection-ok_iff env none p.world in
    let shown = on_world_lem (test_connection env none) p e in
    rw shown (
      λ h. let (k, info, stored, got, _) = to (badge_of-live c.ok h) in (k, info, stored, got),
      λ (k, info, stored, got).
          let same : c ≡ verified info =
            ok-injective (sym e ∙ test_connection-verified env none p.world stored got) in
          rw same refl,
    )
