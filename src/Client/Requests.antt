-- ===== src/Client/Requests.antt =====
-- What `request` of frontend/tenant-dashboard/lib/api/client.ts sends, and what it does with the
-- session on each kind of answer.
use modera_shield.Base.{
  ℕ, String, true, false, none, some, List, ◌∷◌, ◌≡◌, refl, ◌↔◌, arith, ◌==◌, if◌then◌else◌, sym,
  ◌∙◌, present, length, ok, thrown, to_lower_case,
}
use modera_shield.Client.Types.{ReplyType, Reply}
use modera_shield.Client.Browser.{
  send, World, get_stored_api_key, remove_stored_api_key, get_stored_tenant,
}
use modera_shield.Client.Http.{
  Env, Options, Fetched, unreachable, replied, Response, parsed, malformed, is_ok, is_denied,
  prepare, receive, request, expire_session, get_header, set_header, headers_of,
}
use modera_shield.Client.Session.{get_item-set_item, remove_stored_api_key-ends_session}

-- `request` in one step: the answer to the request that it prepares, received after it is sent.
pub request_lem :
    (env : Env) (t : ReplyType) (path : String) (options : Options) (w : World)
    → request env t path options w
      ≡ receive
          (env.fetch (length w.sent) t (prepare env path options w))
          (send (prepare env path options w) w)
unfolding request
request_lem env t path options w = refl

get_header-set_header :
    (a b v : String) (h : List (String × String))
    → get_header a (set_header b v h)
      ≡ (if to_lower_case b == to_lower_case a then some v else get_header a h)
unfolding get_header set_header
get_header-set_header a b v h = get_item-set_item (to_lower_case a) (to_lower_case b) v h

-- With a stored key, the request that is sent carries that key and asks for JSON, whatever the
-- caller's options say.
pub prepare-sends_key :
    (env : Env) (path : String) (options : Options) (w : World) {key : String}
    → present (get_stored_api_key w) ≡ some key
    → (get_header "X-API-Key" (prepare env path options w).headers ≡ some key)
      × (get_header "Accept" (prepare env path options w).headers ≡ some "application/json")
unfolding prepare to_lower_case
prepare-sends_key env path options w {key} h = rw h (
    ground (
      arith,
      get_header-set_header "X-API-Key" "Content-Type" "application/json" (
          set_header "Accept" "application/json"
            (set_header "X-API-Key" key (headers_of options.headers))),
      get_header-set_header "X-API-Key" "Accept" "application/json"
          (set_header "X-API-Key" key (headers_of options.headers)),
      get_header-set_header "X-API-Key" "X-API-Key" key (headers_of options.headers),
      get_header-set_header "Accept" "Content-Type" "application/json" (
          set_header "Accept" "application/json"
            (set_header "X-API-Key" key (headers_of options.headers))),
      get_header-set_header "Accept" "Accept" "application/json"
          (set_header "X-API-Key" key (headers_of options.headers)),
    ))

pub expire_session-ends_session :
    (w : World)
    → (get_stored_api_key (expire_session w) ≡ none) × (get_stored_tenant (expire_session w) ≡ none)
unfolding expire_session get_stored_api_key get_stored_tenant
expire_session-ends_session w = (
  ground (arith, (remove_stored_api_key-ends_session w).0),
  ground (arith, (remove_stored_api_key-ends_session w).1),
)

pub expire_session-visited :
    (w : World)
    → w.browser ≡ true
    → (expire_session w).visited ≡ "/login?error=session_expired" ∷ w.visited
unfolding expire_session remove_stored_api_key
expire_session-visited w b = ground arith

expire_session-sent : (w : World) → (expire_session w).sent ≡ w.sent
unfolding expire_session remove_stored_api_key
expire_session-sent w = ground arith

pub not_ok_of_denied : (status : ℕ) → is_denied status ≡ true → is_ok status ≡ false
not_ok_of_denied status d = ground arith

not_denied_of_ok : (status : ℕ) → is_ok status ≡ true → is_denied status ≡ false
not_denied_of_ok status o = ground arith

replied-injective :
    {A : Type 0} (r q : Response A) → ◌≡◌ {A = Fetched A} (replied r) (replied q) → r ≡ q
replied-injective r q h = cc

receive-keeps :
    {A : Type 0} (f : Fetched A) (w : World)
    → ((r : Response A) → f ≡ replied r → is_denied r.status ≡ false)
    → (receive f w).1 ≡ w
unfolding receive
receive-keeps (unreachable e) w h = refl
receive-keeps (replied r) w h = ground (arith, h r refl)

receive-eq-ok_iff :
    {A : Type 0} (f : Fetched A) (w : World) (a : A)
    → ((receive f w).0 ≡ ok a)
      ↔ ((r : Response A) × (f ≡ replied r) × (is_ok r.status ≡ true) × (r.value ≡ parsed a))
unfolding receive
receive-eq-ok_iff (unreachable e) w a = (λ h. cc, λ h. cc (h.1))
receive-eq-ok_iff (replied r) w a =
    (λ h. (r, refl, ground arith, ground arith), λ (q, e, o, v). ground arith)

-- What `request` is answered, as the n-th request of the page.
abbrev pub answer : (env : Env) (t : ReplyType) → String → Options → World → Fetched (Reply t)
answer env t path options w = env.fetch (length w.sent) t (prepare env path options w)

module _ (env : Env) (t : ReplyType) (path : String) (options : Options) (w : World) where
  -- An answer with status 401 or 403, in the browser, ends the session: no key and no tenant is
  -- left, the browser is sent to the login page, and the caller gets an error.
  pub request-denied :
      (r : Response (Reply t))
      → w.browser ≡ true
      → answer env t path options w ≡ replied r
      → is_denied r.status ≡ true
      → (get_stored_api_key (request env t path options w).1 ≡ none)
        × (get_stored_tenant (request env t path options w).1 ≡ none)
        × ((request env t path options w).1.visited ≡ "/login?error=session_expired" ∷ w.visited)
        × ((message : String) × ((request env t path options w).0 ≡ thrown message))
  unfolding request receive
  request-denied r b e d =
      rw (e, not_ok_of_denied r.status d, d)
        (
          (expire_session-ends_session sent).0,
          (expire_session-ends_session sent).1,
          expire_session-visited sent b,
          (_, refl),
        )
    where
      sent : World
      sent = send (prepare env path options w) w

  -- An answer with a status other than 401 and 403, and a request that cannot be sent, leave the
  -- browser as it was but for the record of the request.
  pub request-keeps_session :
      ((r : Response (Reply t))
        → answer env t path options w ≡ replied r
        → is_denied r.status ≡ false)
      → (request env t path options w).1 ≡ send (prepare env path options w) w
  unfolding request
  request-keeps_session h =
      receive-keeps (answer env t path options w) (send (prepare env path options w) w) h

  -- `request` returns a value exactly when an answer with a status from 200 to 299 came whose body
  -- is that value.
  pub request-eq-ok_iff :
      (a : Reply t)
      → ((request env t path options w).0 ≡ ok a) ↔ (
          (r : Response (Reply t)) × (answer env t path options w ≡ replied r)
          × (is_ok r.status ≡ true)
          × (r.value ≡ parsed a))
  unfolding request
  request-eq-ok_iff a =
      receive-eq-ok_iff (answer env t path options w) (send (prepare env path options w) w) a

-- A request is recorded whatever its answer is.
receive-sent : {A : Type 0} (f : Fetched A) (w : World) → (receive f w).1.sent ≡ w.sent
unfolding receive
receive-sent (unreachable e) w = refl
receive-sent (replied r) w = ground (arith, expire_session-sent w)

pub request-sent :
    (env : Env) (t : ReplyType) (path : String) (options : Options) (w : World)
    → (request env t path options w).1.sent ≡ prepare env path options w ∷ w.sent
unfolding request
request-sent env t path options w =
    receive-sent (answer env t path options w) (send (prepare env path options w) w)

-- A request that returns a value leaves the browser as it was but for its record.
pub request-ok_world :
    (env : Env) (t : ReplyType) (path : String) (options : Options) (w : World) {a : Reply t}
    → (request env t path options w).0 ≡ ok a
    → (request env t path options w).1 ≡ send (prepare env path options w) w
request-ok_world env t path options w {a} h =
    let (r, e, o, v) = (request-eq-ok_iff env t path options w a).0 h in
    request-keeps_session env t path options w
      (λ q f. not_denied_of_ok q.status (rw (replied-injective _ _ (sym e ∙ f)) at o))

-- A successful answer whose body is not JSON makes the request throw.
pub request-malformed :
    (env : Env) (t : ReplyType) (path : String) (options : Options) (w : World)
    (r : Response (Reply t)) (message : String)
    → answer env t path options w ≡ replied r
    → is_ok r.status ≡ true
    → r.value ≡ malformed message
    → request env t path options w ≡ (thrown message, send (prepare env path options w) w)
unfolding request receive
request-malformed env t path options w r message e o m = rw (e, o, m)
