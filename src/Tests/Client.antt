-- ===== src/Tests/Client.antt =====
-- The laws of frontend/tenant-dashboard/lib/api/client.ts at work.
use modera_shield.Base.{String, true, none, some, [], ◌∷◌, ◌≡◌, refl, ◌↔◌, ok, thrown}
use modera_shield.Client.Types.{TenantInfo, tenant_info, overview, OverviewMetrics}
use modera_shield.Client.Browser.{Request, get_item, send, get_stored_api_key, get_stored_tenant}
use modera_shield.Client.Http.{
  Response, replied, parsed, malformed, is_ok, no_options, prepare, get_header, request,
}
use modera_shield.Client.Api.{
  Connection, test_connection, verified, verify_path, key_options, first_present,
}
use modera_shield.Client.Requests.{answer, request-denied, request-keeps_session, request-eq-ok_iff}
use modera_shield.Client.Connection.{test_connection-ok_iff, test_connection-sends_stored}
use modera_shield.Tests.{serving, denying, offline, visitor, member, reply, sample}

request-denied_example :
    (get_stored_api_key (request (denying 401) overview "/metrics/overview" no_options member).1
      ≡ none)
    × (get_stored_tenant (request (denying 401) overview "/metrics/overview" no_options member).1
        ≡ none)
    × ((request (denying 401) overview "/metrics/overview" no_options member).1.visited
        ≡ "/login?error=session_expired" ∷ [])
    × ((message : String) × ((request
            (denying 401)
            overview
            "/metrics/overview"
            no_options
            member).0
          ≡ thrown message))
request-denied_example =
    request-denied (denying 401) overview "/metrics/overview" no_options member
      (reply 401 (malformed "no JSON")) refl refl refl

request-eq-ok_iff_example :
    ((request (serving 0) overview "/metrics/overview" no_options member).0
      ≡ ok (sample "approved" overview))
    ↔ ((r : Response OverviewMetrics) × (answer
            (serving 0)
            overview
            "/metrics/overview"
            no_options
            member
          ≡ replied r)
        × (is_ok r.status ≡ true)
        × (r.value ≡ parsed (sample "approved" overview)))
request-eq-ok_iff_example =
    request-eq-ok_iff (serving 0) overview "/metrics/overview" no_options member
      (sample "approved" overview)

request-keeps_session_example :
    (request offline overview "/metrics/overview" no_options member).1
    ≡ send (prepare offline "/metrics/overview" no_options member) member
request-keeps_session_example =
    request-keeps_session offline overview "/metrics/overview" no_options member (λ r e. cc e)

test_connection-ok_iff_example :
    (c : Connection) × ((test_connection (serving 0) (some "msk_new") visitor).0 ≡ ok c)
    × ((c.ok ≡ true) ↔ (
        (k : String) × (info : TenantInfo) × (first_present
            (some "msk_new")
            (get_stored_api_key visitor)
          ≡ some k)
        × ((request (serving 0) tenant_info verify_path (key_options k) visitor).0 ≡ ok info)
        × (c ≡ verified info)))
test_connection-ok_iff_example = test_connection-ok_iff (serving 0) (some "msk_new") visitor

test_connection-sends_stored_example :
    (r : Request) × ((test_connection (serving 0) (some "msk_new") member).1.sent ≡ r ∷ [])
    × (get_header "X-API-Key" r.headers ≡ some "msk_live")
unfolding get_stored_api_key get_item
test_connection-sends_stored_example =
    test_connection-sends_stored (serving 0) "msk_new" "msk_live" member refl
