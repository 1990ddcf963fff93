-- ===== src/Overview/Arrivals.antt =====
-- The answers of the four concurrent requests of the overview, in the order in which they arrive
-- (frontend/tenant-dashboard/app/dashboard/page.tsx).
use mathlib.Core.List.{Permᴰ}
use mathlib.Core.List.Permᴰ
use mathlib.Core.Path.{sym}
use modera_shield.Base.{
  All, Option, Option-cases, none, some, ◌⊎◌, [], String, List, ◌∷◌, Result, ok, thrown,
  ok-injective, ◌≡◌, refl, ◌↔◌, ap, inl, inr,
}
use modera_shield.Client.Types.{
  ReplyType, OverviewMetrics, CategoryMetrics, UsageMetrics, RecentRequestsResponse,
}
use modera_shield.Client.Browser.{World}
use modera_shield.Client.Http.{receive}
use modera_shield.Client.Concurrent.{all_or_error, failure, first_error}
use modera_shield.Overview.{failures, append, all_four, Metrics, Sent, receive_four}
use modera_shield.Overview.Answers.{
  Answer, answers_of, receive_all, receive-outcome, receive_all-perm, All-perm,
}

all_four-eq-ok_iff :
    (a : Result OverviewMetrics) (b : Result CategoryMetrics) (c : Result UsageMetrics)
    (d : Result RecentRequestsResponse) (e : String) (m : Metrics)
    → (all_or_error (all_four a b c d) e ≡ ok m)
      ↔ ((a ≡ ok m.ov) × (b ≡ ok m.cat) × (c ≡ ok m.us) × (d ≡ ok m.req))
all_four-eq-ok_iff (ok a) (ok b) (ok c) (ok d) e m = (
  λ h.
      let same = ok-injective h in
      (
        ap (λ (n : Metrics). ok n.ov) same,
        ap (λ (n : Metrics). ok n.cat) same,
        ap (λ (n : Metrics). ok n.us) same,
        ap (λ (n : Metrics). ok n.req) same,
      ),
  λ (f, g, h, k). λ i. ok (record {
    ov = ok-injective f i;
    cat = ok-injective g i;
    us = ok-injective h i;
    req = ok-injective k i;
  }),
)
all_four-eq-ok_iff (thrown x) b c d e m = (λ h. cc, λ (f, g, h, k). cc f)
all_four-eq-ok_iff (ok a) (thrown x) c d e m = (λ h. cc, λ (f, g, h, k). cc g)
all_four-eq-ok_iff (ok a) (ok b) (thrown x) d e m = (λ h. cc, λ (f, g, h, k). cc h)
all_four-eq-ok_iff (ok a) (ok b) (ok c) (thrown x) e m = (λ h. cc, λ (f, g, h, k). cc k)

-- The kinds of the answers of a list, in its order.
abbrev pub kinds : List Answer → List ReplyType
kinds [] = []
kinds (a ∷ answers) = a.kind ∷ kinds answers

-- The error of the first answer of a list that gives no value.
abbrev pub first_failed : World → List Answer → Option String
first_failed w [] = none
first_failed w (a ∷ answers) = elim (failure (receive a.fetched w).0) [
  | none ↦ first_failed w answers
  | some message ↦ some message
]

append_fails :
    (fails : ReplyType → Option String) (w : World) (e : String) (answers : List Answer)
    → All (λ (a : Answer). fails a.kind ≡ failure (receive a.fetched w).0) answers
    → first_failed w answers ≡ some e
    → first_error fails (append (kinds answers)) ≡ e
append_fails fails w e [] h f = cc f
append_fails fails w e (a ∷ answers) (p, h) f =
    elim (Option-cases (failure (receive a.fetched w).0)) [
      | inl k ↦ rw (p, k) (append_fails fails w e answers h (rw (first_failed, k) at f))
      | inr (m, k) ↦ rw (p, k) (let g : some m ≡ some e = rw (first_failed, k) at f in cc g)
    ]

-- The answer gives a value.
abbrev Succeeds : World → Answer → Type 0
Succeeds w a = failure (receive a.fetched w).0 ≡ none

first_failed-none :
    (w : World) (answers : List Answer) → first_failed w answers ≡ none → All (Succeeds w) answers
first_failed-none w [] h = tt
first_failed-none w (a ∷ answers) h = elim (Option-cases (failure (receive a.fetched w).0)) [
  | inl k ↦ (k, first_failed-none w answers (rw (first_failed, k) at h))
  | inr (m, k) ↦ cc (rw (first_failed, k) at h)
]

first_failed-none_of_All :
    (w : World) (answers : List Answer) → All (Succeeds w) answers → first_failed w answers ≡ none
first_failed-none_of_All w [] h = refl
first_failed-none_of_All w (a ∷ answers) (k, h) =
    rw (first_failed, k) (first_failed-none_of_All w answers h)

all_four-cases :
    (a : Result OverviewMetrics) (b : Result CategoryMetrics) (c : Result UsageMetrics)
    (d : Result RecentRequestsResponse)
    → ((all_four a b c d ≡ none)
        × ¬ ((failure a ≡ none) × (failure b ≡ none) × (failure c ≡ none) × (failure d ≡ none)))
      ⊎ ((m : Metrics) × (all_four a b c d ≡ some m)
          × (failure a ≡ none)
          × (failure b ≡ none)
          × (failure c ≡ none)
          × (failure d ≡ none))
all_four-cases (ok a) (ok b) (ok c) (ok d) = inr (_, refl, refl, refl, refl, refl)
all_four-cases (thrown e) b c d = inl (refl, λ (f, g, h, k). cc f)
all_four-cases (ok a) (thrown e) c d = inl (refl, λ (f, g, h, k). cc g)
all_four-cases (ok a) (ok b) (thrown e) d = inl (refl, λ (f, g, h, k). cc h)
all_four-cases (ok a) (ok b) (ok c) (thrown e) = inl (refl, λ (f, g, h, k). cc k)

module _ (s : Sent) where
  abbrev ov : Result OverviewMetrics
  ov = (receive s.ov s.world).0

  abbrev cat : Result CategoryMetrics
  cat = (receive s.cat s.world).0

  abbrev us : Result UsageMetrics
  us = (receive s.us s.world).0

  abbrev req : Result RecentRequestsResponse
  req = (receive s.req s.world).0

  receive_four_lem :
      (arrival : List ReplyType)
      → (receive_four arrival s).0
        ≡ all_or_error
            (all_four ov cat us req)
            (first_error (failures ov cat us req) (append arrival))
  unfolding receive_four
  receive_four_lem arrival =
      let cat_world = (receive s.ov s.world).1 in
      let us_world = (receive s.cat cat_world).1 in
      let req_world = (receive s.us us_world).1 in
      rw
        (
          receive-outcome s.cat cat_world s.world,
          receive-outcome s.us us_world s.world,
          receive-outcome s.req req_world s.world,
        )
        refl

  module _ (answers : List Answer) (same : Permᴰ answers (answers_of s)) where
    answers-fail :
        All
          (λ (a : Answer). failures ov cat us req a.kind ≡ failure (receive a.fetched s.world).0)
          answers
    answers-fail =
        All-perm
          (λ (a : Answer). failures ov cat us req a.kind ≡ failure (receive a.fetched s.world).0)
          same (refl, (refl, (refl, (refl, tt))))

    receive_four-eq-thrown_iff :
        (e : String)
        → ((receive_four (kinds answers) s).0 ≡ thrown e) ↔ (first_failed s.world answers ≡ some e)
    receive_four-eq-thrown_iff e = elim (all_four-cases ov cat us req) [
      | inr (m, f, a, b, c, d) ↦
          let none_failed =
            first_failed-none_of_All s.world answers
              (All-perm (Succeeds s.world) same (a, (b, (c, (d, tt))))) in
          rw (receive_four_lem (kinds answers), f, none_failed) (λ h. cc (ap failure h), λ h. cc h)
      | inl (f, g) ↦ elim (Option-cases (first_failed s.world answers)) [
        | inl k ↦
            let (a, (b, (c, (d, _)))) =
              All-perm (Succeeds s.world) (Permᴰ.symm same) (first_failed-none s.world answers k) in
            absurd (g (a, b, c, d))
        | inr (m, k) ↦
            let first = append_fails (failures ov cat us req) s.world m answers answers-fail k in
            rw (receive_four_lem (kinds answers), f, first, k)
              (λ h. ap failure h, λ h. let same_text : m ≡ e = cc h in ap thrown same_text)
      ]
    ]

-- Whatever the order in which the four answers are received, the browser ends as it does when they
-- are received in the order of the calls; the four requests give their values exactly when each of
-- them does, in whichever browser its answer is received; and they throw exactly the error of the
-- first answer, in that order, that gives no value.
pub receive_four-in_any_order :
    (s : Sent) (m : Metrics) (w1 w2 w3 w4 : World) (e : String) (answers : List Answer)
    → Permᴰ answers (answers_of s)
    → ((receive_four (kinds answers) s).1 ≡ receive_all answers s.world)
      × (((receive_four (kinds answers) s).0 ≡ ok m) ↔ (
          ((receive s.ov w1).0 ≡ ok m.ov)
          × ((receive s.cat w2).0 ≡ ok m.cat)
          × ((receive s.us w3).0 ≡ ok m.us)
          × ((receive s.req w4).0 ≡ ok m.req)))
      × (((receive_four (kinds answers) s).0 ≡ thrown e) ↔ (first_failed s.world answers ≡ some e))
unfolding receive_four
receive_four-in_any_order s m w1 w2 w3 w4 e answers same = (
  sym (receive_all-perm same s.world),
  rw
      (
        receive_four_lem s (kinds answers),
        receive-outcome s.ov w1 s.world,
        receive-outcome s.cat w2 s.world,
        receive-outcome s.us w3 s.world,
        receive-outcome s.req w4 s.world,
      )
      (all_four-eq-ok_iff _ _ _ _ _ m),
  receive_four-eq-thrown_iff s answers same e,
)
