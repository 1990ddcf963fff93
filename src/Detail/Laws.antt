-- ===== src/Detail/Laws.antt =====
-- The polling of a request's page
-- (frontend/tenant-dashboard/app/dashboard/submissions/[requestId]/page.tsx).
use modera_shield.Base.{
  ℕ, zero, suc, String, Bool, true, false, Option, none, some, ◌≡◌, refl, ◌∙◌, sym, ap, arith, ok,
  thrown, Bool-cases, inl, inr,
}
use modera_shield.Client.Types.{ModerationResultResponse}
use modera_shield.Client.Http.{Env}
use modera_shield.Client.Api.{get_request_detail}
use modera_shield.Page.{Page, set_ui, on_world_lem, Result-cases}
use modera_shield.Detail.{Ui, is_final, set_detail, fetch_detail, poll, wait, shown, card, view}

-- A timer is pending only for a shown request that is not decided yet.
abbrev IsPolling : Ui → Type 0
IsPolling u =
    u.timer ≡ true
    → (d : ModerationResultResponse) × (u.detail ≡ some d) × (is_final d.status ≡ false)

set_detail-IsPolling : (d : ModerationResultResponse) (u : Ui) → IsPolling (set_detail d u)
unfolding set_detail
set_detail-IsPolling d u t = (d, refl, ground arith)

-- Nothing hides the request: no call of the page runs, and there is no error.
pub record IsSettled (u : Ui) : Type 0 where
  pub is_loading : u.is_loading ≡ false
  pub error : u.error ≡ none

set_detail-IsSettled :
    (d : ModerationResultResponse) (u : Ui) → IsSettled u → IsSettled (set_detail d u)
unfolding set_detail
set_detail-IsSettled d u h = record { is_loading = h.is_loading; error = h.error }

set_detail-view :
    (d : ModerationResultResponse) (u : Ui) → IsSettled u → view (set_detail d u) ≡ shown (card d)
unfolding set_detail view card
set_detail-view d u h = rw (h.is_loading, h.error) refl

set_detail-shows :
    (d : ModerationResultResponse) (u : Ui)
    → IsSettled u
    → is_final d.status ≡ true
    → (d' : ModerationResultResponse) × (view (set_detail d u) ≡ shown (card d'))
      × (is_final d'.status ≡ true)
      × ((set_detail d u).timer ≡ false)
unfolding set_detail
set_detail-shows d u h f = (d, set_detail-view d u h, f, ground arith)

set_detail-timer :
    (d : ModerationResultResponse) (u : Ui)
    → is_final d.status ≡ false
    → (set_detail d u).timer ≡ true
unfolding set_detail
set_detail-timer d u f = ground arith

module _ (env : Env) (request_id : String) (p : Page Ui) where
  abbrev quiet : Page Ui
  quiet = set_ui (λ u. record u { timer = false }) p

  poll-ok :
      (d : ModerationResultResponse)
      → (get_request_detail env request_id p.world).0 ≡ ok d
      → (poll env request_id p).1.ui ≡ set_detail d quiet.ui
  unfolding poll
  poll-ok d e = rw (on_world_lem (get_request_detail env request_id) quiet e)

  poll-thrown :
      {message : String}
      → (get_request_detail env request_id p.world).0 ≡ thrown message
      → (poll env request_id p).1.ui ≡ quiet.ui
  unfolding poll
  poll-thrown e = rw (on_world_lem (get_request_detail env request_id) quiet e)

  abbrev started : Page Ui
  started = set_ui (λ u. record u { is_loading = true; error = none }) p

  -- A fetch keeps the timer to requests that are not decided, if it was.
  fetch_detail-IsPolling : IsPolling p.ui → IsPolling (fetch_detail env request_id p).1.ui
  unfolding fetch_detail
  fetch_detail-IsPolling v = elim (Result-cases (get_request_detail env request_id p.world).0) [
    | inl (d, e) ↦
        rw (on_world_lem (get_request_detail env request_id) started e)
          (set_detail-IsPolling d started.ui)
    | inr (m, e) ↦ rw (on_world_lem (get_request_detail env request_id) started e) v
  ]

  -- After a poll a timer is pending only for a shown request that is not decided, whatever is
  -- answered and whatever was the case before.
  poll-IsPolling : IsPolling (poll env request_id p).1.ui
  poll-IsPolling = elim (Result-cases (get_request_detail env request_id p.world).0) [
    | inl (d, e) ↦ rw (poll-ok d e) (set_detail-IsPolling d _)
    | inr (m, e) ↦ rw (poll-thrown e) (λ t. cc)
  ]

-- With no timer pending the page stays as it is, however long it is left alone.
wait_quiet :
    (env : Env) (request_id : String) (n : ℕ) (p : Page Ui)
    → p.ui.timer ≡ false
    → wait env request_id n p ≡ p
unfolding wait
wait_quiet env request_id zero p h = refl
wait_quiet env request_id (suc n) p h = rw h

-- Once the shown request is decided nothing is asked any more.
wait-decided :
    (env : Env) (request_id : String) (n : ℕ) (p : Page Ui) (d : ModerationResultResponse)
    → IsPolling p.ui
    → p.ui.detail ≡ some d
    → is_final d.status ≡ true
    → wait env request_id n p ≡ p
wait-decided env request_id n p d v e f = elim (Bool-cases p.ui.timer) [
  | inl t ↦ let (d', e', f') = v t in absurd_final d d' (sym e ∙ e') f f'
  | inr t ↦ wait_quiet env request_id n p t
]
  where
    status_final : Option ModerationResultResponse → Bool
    status_final none = false
    status_final (some d) = is_final d.status

    absurd_final :
        (d d' : ModerationResultResponse)
        → some d ≡ some d'
        → is_final d.status ≡ true
        → is_final d'.status ≡ false
        → wait env request_id n p ≡ p
    absurd_final d d' h f f' = cc (ap status_final h)

-- A single poll that fails ends the polling for good: what the page shows stays, and however long
-- the page is left alone it stays as it is.
pub poll_failure_stops :
    (env : Env) (request_id : String) (p : Page Ui) (message : String) (n : ℕ)
    → (get_request_detail env request_id p.world).0 ≡ thrown message
    → (view (poll env request_id p).1.ui ≡ view p.ui)
      × (wait env request_id n (poll env request_id p).1 ≡ (poll env request_id p).1)
unfolding view
poll_failure_stops env request_id p message n e =
    let failed = poll-thrown env request_id p e in
    (ap view failed, wait_quiet env request_id n _ (ap (λ (u : Ui). u.timer) failed))

-- The next `n` polls are answered with requests that are not decided, and the one after them with
-- one that is.
abbrev IsDecidedAfter : Env → String → ℕ → Page Ui → Type 0
IsDecidedAfter env request_id zero p =
    (d : ModerationResultResponse) × ((get_request_detail env request_id p.world).0 ≡ ok d)
    × (is_final d.status ≡ true)
IsDecidedAfter env request_id (suc n) p =
    (d : ModerationResultResponse) × ((get_request_detail env request_id p.world).0 ≡ ok d)
    × (is_final d.status ≡ false)
    × IsDecidedAfter env request_id n (poll env request_id p).1

wait_step :
    (env : Env) (request_id : String) (n : ℕ) (p : Page Ui)
    → p.ui.timer ≡ true
    → wait env request_id (suc n) p ≡ wait env request_id n (poll env request_id p).1
unfolding wait
wait_step env request_id n p h = simp h

-- Where nothing hides the request of a page with a pending timer, its next `n` polls are answered
-- with requests that are not decided, and the one after them with one that is, the page shows the
-- card of a decided request after these `n + 1` polls and has no timer pending.
pub wait_shows_decision :
    (env : Env) (request_id : String) (n : ℕ) (p : Page Ui)
    → IsSettled p.ui
    → p.ui.timer ≡ true
    → IsDecidedAfter env request_id n p
    → (d : ModerationResultResponse) × (view (wait env request_id (suc n) p).ui ≡ shown (card d))
      × (is_final d.status ≡ true)
      × ((wait env request_id (suc n) p).ui.timer ≡ false)
unfolding wait
wait_shows_decision env request_id zero p s h (d, e, f) = rw (wait_step env request_id zero p h) (
    rw (poll-ok env request_id p d e)
      (set_detail-shows d _ (record { is_loading = s.is_loading; error = s.error }) f))
wait_shows_decision env request_id (suc n) p s h (d, e, f, later) =
    let polled = poll-ok env request_id p d e in
    let t = ap (λ (u : Ui). u.timer) polled ∙ set_detail-timer d _ f in
    let settled : IsSettled (poll env request_id p).1.ui =
      rw polled
        (set_detail-IsSettled d _ (record { is_loading = s.is_loading; error = s.error })) in
    rw (wait_step env request_id (suc n) p h)
      (wait_shows_decision env request_id n (poll env request_id p).1 settled t later)
