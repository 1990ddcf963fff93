-- ===== src/Landing/Laws.antt =====
-- The simulator of the landing page (frontend/tenant-dashboard/app/page.tsx).
use modera_shield.Base.{
  trim, ◌==◌, ℕ, zero, suc, ◌+◌, ◌≤◌, String, true, false, [], ◌∷◌, length, ◌≡◌, refl, ap, ◌∙◌,
  ◌>>=◌, arith, ok, thrown, Result, and_then, outcome-eta, Bool-cases, inl, inr,
}
use modera_shield.Client.Types.{Decimal, ModerationResultResponse, CreatedRequest, detail, created}
use modera_shield.Client.Browser.{World, text}
use modera_shield.Client.Http.{Env, Response, replied, is_denied}
use modera_shield.Client.Api.{create_moderation_request, get_request_detail, with_json}
use modera_shield.Client.Requests.{request-sent, request-denied, answer}
use modera_shield.Page.{Page, set_ui, on_world_lem, Result-cases}
use modera_shield.Landing.View.{view}
use modera_shield.Landing.{
  Ui, is_final, await_verdict, classify, run_simulation, offline_result, max_attempts,
}

abbrev simulating : Page Ui → Page Ui
simulating p = set_ui (λ u. record u { is_simulating = true }) p

get_request_detail-sent :
    (env : Env) (id : String) (w : World)
    → length (get_request_detail env id w).1.sent ≡ suc (length w.sent)
unfolding get_request_detail
get_request_detail-sent env id w = ap length (request-sent env detail _ _ w)

create_moderation_request-sent :
    (env : Env) (input : String) (w : World)
    → length (create_moderation_request env input w).1.sent ≡ suc (length w.sent)
unfolding create_moderation_request
create_moderation_request-sent env input w = ap length (request-sent env created _ _ w)

-- What follows a call that is recorded once, and then sends at most `n` requests.
and_then-sent :
    {A B : Type 0} (r : Result A × World) (k : A → World → Result B × World) (m n : ℕ)
    → length r.1.sent ≡ suc m
    → ((a : A) → length (k a r.1).1.sent ≤ length r.1.sent + n)
    → length (and_then r k).1.sent ≤ m + suc n
and_then-sent (ok a, w) k m n e h = omega (arith, h a)
and_then-sent (thrown message, w) k m n e h = omega arith

await_verdict-sent :
    (env : Env) (id : String) (n : ℕ) (d : ModerationResultResponse) (w : World)
    → length (await_verdict env id n d w).1.sent ≤ length w.sent + n
unfolding await_verdict
await_verdict-sent env id zero d w = omega arith
await_verdict-sent env id (suc n) d w = elim (Bool-cases (is_final d.status)) [
  | inl e ↦ rw e (omega arith)
  | inr e ↦ rw e (
      and_then-sent (get_request_detail env id w) (await_verdict env id n) (length w.sent) n
        (get_request_detail-sent env id w)
        (λ next. await_verdict-sent env id n next (get_request_detail env id w).1))
]

classify-sent :
    (env : Env) (input : String) (w : World)
    → length (classify env input w).1.sent ≤ length w.sent + 12
classify-sent env input w =
    and_then-sent (create_moderation_request env input w)
      (λ res. get_request_detail env res.id >>= await_verdict env res.id max_attempts)
      (length w.sent) 11 (create_moderation_request-sent env input w)
      (λ res. detail_sent res.id (create_moderation_request env input w).1)
  where
    detail_sent :
        (id : String) (u : World)
        → length ((get_request_detail env id >>= await_verdict env id max_attempts) u).1.sent
          ≤ length u.sent + 11
    detail_sent id u =
        and_then-sent (get_request_detail env id u) (await_verdict env id max_attempts)
          (length u.sent) 10 (get_request_detail-sent env id u)
          (λ next. await_verdict-sent env id max_attempts next (get_request_detail env id u).1)

-- The browser after a simulation is as the calls left it.
run_simulation-world :
    (env : Env) (elapsed : Decimal) (input : String) (p : Page Ui)
    → (run_simulation env elapsed input p).1.world ≡ (classify env input p.world).1
unfolding run_simulation
run_simulation-world env elapsed input p = elim (Result-cases (classify env input p.world).0) [
  | inl (d, e) ↦ rw (on_world_lem (classify env input) (simulating p) e)
  | inr (m, e) ↦ rw (on_world_lem (classify env input) (simulating p) e)
]

classify-thrown :
    (env : Env) (input : String) (w : World) {message : String}
    → (create_moderation_request env input w).0 ≡ thrown message
    → classify env input w ≡ (thrown message, (create_moderation_request env input w).1)
classify-thrown env input w e = rw (outcome-eta (create_moderation_request env input w) e)

-- A simulation ends and sends at most twelve requests, whatever the backend answers; its button is
-- disabled afterwards exactly where the text that the input holds then is blank.
pub run_simulation_ends :
    (env : Env) (elapsed : Decimal) (input : String) (p : Page Ui)
    → ((run_simulation env elapsed input p).1.ui.is_simulating ≡ false)
      × ((view (run_simulation env elapsed input p).1.ui).disabled
          ≡ (trim (run_simulation env elapsed input p).1.ui.input_text == ""))
      × (length (run_simulation env elapsed input p).1.world.sent ≤ length p.world.sent + 12)
unfolding run_simulation view
run_simulation_ends env elapsed input p =
    (refl, refl, rw (run_simulation-world env elapsed input p) (classify-sent env input p.world))

final_result :
    (d d' : ModerationResultResponse)
    → ◌≡◌ {A = Result ModerationResultResponse} (ok d) (ok d')
    → is_final d.status ≡ true
    → is_final d'.status ≡ false
    → ⊥
final_result d d' e g f =
    let same : d ≡ d' = cc in cc (ap (λ (x : ModerationResultResponse). is_final x.status) same)

and_then-sent_all :
    {A B : Type 0} (r : Result A × World) (k : A → World → Result B × World) (m n : ℕ) (b : B)
    → length r.1.sent ≡ suc m
    → (and_then r k).0 ≡ ok b
    → ((a : A) → (k a r.1).0 ≡ ok b → length (k a r.1).1.sent ≡ length r.1.sent + n)
    → length (and_then r k).1.sent ≡ m + suc n
and_then-sent_all (ok a, w) k m n b e o h = omega (arith, h a o)
and_then-sent_all (thrown message, w) k m n b e o h = cc

-- The verdict that is awaited is final, or all the attempts were spent on it.
await_verdict-is_final :
    (env : Env) (id : String) (n : ℕ) (d : ModerationResultResponse) (w : World)
    (d' : ModerationResultResponse)
    → (await_verdict env id n d w).0 ≡ ok d'
    → is_final d'.status ≡ false
    → length (await_verdict env id n d w).1.sent ≡ length w.sent + n
unfolding await_verdict
await_verdict-is_final env id zero d w d' e f = omega arith
await_verdict-is_final env id (suc n) d w d' e f = elim (Bool-cases (is_final d.status)) [
  | inl g ↦ absurd (final_result d d' (rw g at e) g f)
  | inr g ↦ rw g (
      and_then-sent_all (get_request_detail env id w) (await_verdict env id n) (length w.sent) n d'
        (get_request_detail-sent env id w) (rw g at e)
        (λ next h. await_verdict-is_final env id n next (get_request_detail env id w).1 d' h f))
]

-- In the browser, a visitor whom the backend denies the simulation is sent to the login page,
-- although the page has the verdict that it makes without the backend.
pub run_simulation-denied :
    (env : Env) (elapsed : Decimal) (input : String) (p : Page Ui) (r : Response CreatedRequest)
    → p.world.browser ≡ true
    → answer env created "/moderate/"
        (with_json "POST" (("content_type", text "text") ∷ ("content", text input) ∷ []))
        p.world
      ≡ replied r
    → is_denied r.status ≡ true
    → ((run_simulation env elapsed input p).1.world.visited
        ≡ "/login?error=session_expired" ∷ p.world.visited)
      × ((run_simulation env elapsed input p).1.ui.sim_result ≡ offline_result input)
unfolding run_simulation create_moderation_request
run_simulation-denied env elapsed input p r b e d =
    let (_, _, visited, (m, failed)) =
      request-denied env created "/moderate/"
        (with_json "POST" (("content_type", text "text") ∷ ("content", text input) ∷ [])) p.world r
        b e d in
    let ended = classify-thrown env input p.world failed in
    let shown = on_world_lem (classify env input) (simulating p) (ap (λ u. u.0) ended) in
    (
      ap (λ (w : World). w.visited) (run_simulation-world env elapsed input p ∙ ap (λ u. u.1) ended)
          ∙ visited,
      rw shown refl,
    )
