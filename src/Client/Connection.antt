-- ===== src/Client/Connection.antt =====
-- `testConnection` of frontend/tenant-dashboard/lib/api/client.ts, and the methods that never ask
-- the backend.
use modera_shield.Base.{
  String, Bool, true, false, Option, none, some, ◌∷◌, ◌≡◌, refl, ◌↔◌, arith, ok, thrown, present,
  Result, pure, or_catch, and_then, or_default, ap, ◌∙◌, ◌==◌, if◌then◌else◌, Bool-cases,
  outcome-eta,
}
use modera_shield.Client.Types.{TenantInfo, tenant_info}
use modera_shield.Client.Browser.{send, World, Request, get_stored_api_key}
use modera_shield.Client.Http.{Env, request, prepare, get_header}
use modera_shield.Client.Api.{
  Connection, failed_connection, verified, verify_path, key_options, first_present, check_with,
  test_connection, list_api_keys, revoke_api_key, no_key_message,
}
use modera_shield.Client.Requests.{request-ok_world, prepare-sends_key, request-sent}

-- `testConnection` below the `request`: what becomes of its outcome.
abbrev settle : Result TenantInfo × World → Result Connection × World
settle r =
    or_catch (and_then r (λ info. pure (verified info)))
      (λ message. pure (failed_connection (or_default message "Failed to connect to API")))

abbrev connection_ok : Result Connection → Bool
connection_ok (ok c) = c.ok
connection_ok (thrown e) = false

settle-ok_iff :
    (r : Result TenantInfo × World)
    → (c : Connection) × ((settle r).0 ≡ ok c)
      × ((c.ok ≡ true) ↔ ((info : TenantInfo) × (r.0 ≡ ok info) × (c ≡ verified info)))
settle-ok_iff (ok info, w) = (verified info, refl, (λ h. (info, refl, refl), λ h. refl))
settle-ok_iff (thrown e, w) = (_, refl, (λ h. cc, λ (info, h, _). cc h))

settle-world : (r : Result TenantInfo × World) → (settle r).1 ≡ r.1
settle-world (ok info, w) = refl
settle-world (thrown e, w) = refl

module _ (env : Env) (w : World) where
  check_with-ok_iff :
      (key : Option String)
      → (c : Connection) × ((check_with env key w).0 ≡ ok c)
        × ((c.ok ≡ true) ↔ (
            (k : String) × (info : TenantInfo) × (key ≡ some k)
            × ((request env tenant_info verify_path (key_options k) w).0 ≡ ok info)
            × (c ≡ verified info)))
  check_with-ok_iff none =
      (failed_connection no_key_message, refl, (λ h. cc, λ (k, info, h, _, _). cc h))
  check_with-ok_iff (some k) =
      let (c, e, (to, from)) =
        settle-ok_iff (request env tenant_info verify_path (key_options k) w) in
      (
        c,
        e,
        (
          λ h. let (info, got, same) = to h in (k, info, refl, got, same),
          λ (j, info, h, got, same). let e : j ≡ k = cc in from (info, rw e at got, same),
        ),
      )

  check_with-sent :
      (k : String)
      → (check_with env (some k) w).1.sent ≡ prepare env verify_path (key_options k) w ∷ w.sent
  check_with-sent k =
      ap (λ (u : World). u.sent)
        (settle-world (request env tenant_info verify_path (key_options k) w))
      ∙ request-sent env tenant_info verify_path (key_options k) w

settle-ok :
    (r : Result TenantInfo × World) (c : Connection)
    → (settle r).0 ≡ ok c
    → c.ok ≡ true
    → (info : TenantInfo) × (r.0 ≡ ok info)
settle-ok (ok info, w) c e h = (info, refl)
settle-ok (thrown m, w) c e h = cc (ap connection_ok e)

check_with-ok_world :
    (env : Env) (w : World) (key : Option String) (c : Connection)
    → (check_with env key w).0 ≡ ok c
    → c.ok ≡ true
    → (r : Request) × ((check_with env key w).1 ≡ send r w)
check_with-ok_world env w none c e h = cc (ap connection_ok e)
check_with-ok_world env w (some k) c e h =
    let outcome = request env tenant_info verify_path (key_options k) w in
    let (info, got) = settle-ok outcome c e h in
    (
      prepare env verify_path (key_options k) w,
      settle-world outcome ∙ request-ok_world env tenant_info verify_path (key_options k) w got,
    )

-- `testConnection` never throws, and its answer is positive exactly when there is a key to use, its
-- argument or else the stored one, and the request that is made for that key gives a value; then the
-- answer names the tenant of that value.
pub test_connection-ok_iff :
    (env : Env) (key : Option String) (w : World)
    → (c : Connection) × ((test_connection env key w).0 ≡ ok c)
      × ((c.ok ≡ true) ↔ (
          (k : String) × (info : TenantInfo) × (first_present key (get_stored_api_key w) ≡ some k)
          × ((request env tenant_info verify_path (key_options k) w).0 ≡ ok info)
          × (c ≡ verified info)))
unfolding test_connection
test_connection-ok_iff env key w =
    check_with-ok_iff env w (first_present key (get_stored_api_key w))

first_present-some :
    (key : String) (other : Option String) {stored : String}
    → present other ≡ some stored
    → (k : String) × (first_present (some key) other ≡ some k)
first_present-some key other {stored} h =
    (if key == "" then stored else key, ground (arith, Bool-cases (key == "")))

-- With a key in the storage `testConnection(key)` sends that key and not its argument.
pub test_connection-sends_stored :
    (env : Env) (key stored : String) (w : World)
    → present (get_stored_api_key w) ≡ some stored
    → (r : Request) × ((test_connection env (some key) w).1.sent ≡ r ∷ w.sent)
      × (get_header "X-API-Key" r.headers ≡ some stored)
unfolding test_connection
test_connection-sends_stored env key stored w h =
    let (k, used) = first_present-some key (get_stored_api_key w) h in
    rw used (_, check_with-sent env w k, (prepare-sends_key env verify_path (key_options k) w h).0)

-- `listApiKeys` and `revokeApiKey` fail without a request and change nothing.
unsupported_calls :
    (tenant key : String) (w : World)
    → ((list_api_keys tenant w).1 ≡ w) × ((revoke_api_key tenant key w).1 ≡ w)
unfolding list_api_keys revoke_api_key
unsupported_calls tenant key w = (refl, refl)

-- A positive answer leaves the browser as it was but for the request.
pub test_connection-ok_world :
    (env : Env) (key : Option String) (w : World) (c : Connection)
    → (test_connection env key w).0 ≡ ok c
    → c.ok ≡ true
    → (r : Request) × ((test_connection env key w).1 ≡ send r w)
unfolding test_connection
test_connection-ok_world env key w c e h =
    check_with-ok_world env w (first_present key (get_stored_api_key w)) c e h

-- A verified key gives the positive answer.
pub test_connection-verified :
    (env : Env) (key : Option String) (w : World) {k : String} {info : TenantInfo}
    → first_present key (get_stored_api_key w) ≡ some k
    → (request env tenant_info verify_path (key_options k) w).0 ≡ ok info
    → (test_connection env key w).0 ≡ ok (verified info)
unfolding test_connection
test_connection-verified env key w {k} used got =
    rw used (rw (outcome-eta (request env tenant_info verify_path (key_options k) w) got) refl)
