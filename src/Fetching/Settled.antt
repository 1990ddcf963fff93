-- ===== src/Fetching/Settled.antt =====
-- A page that is left alone comes to rest.
use modera_shield.Base.{
  ℕ, suc, ◌≤◌, Bool, true, false, List, [], ◌∷◌, length, Result, All, ◌≡◌, refl, ap, arith,
  if◌then◌else◌, some, none, ok,
}
use modera_shield.Fetching.{
  Fetches, Live, Event, opened, fires, answers, last_added, nth, without, call, answered, step, run,
  AtRest, in_order, answer_all, settle,
}
use modera_shield.Fetching.Laws.{IsShown, run-Current, Current-IsShown, opened-Current}

length-last_added : {K : Type 0} (ks : List K) (k : K) → length (last_added ks k) ≡ suc (length ks)
length-last_added [] k = refl
length-last_added (j ∷ ks) k = ap suc (length-last_added ks k)

answer_all-InOrder : {K : Type 0} (ks : List K) → All (λ e. in_order e ≡ true) (answer_all ks)
answer_all-InOrder [] = tt
answer_all-InOrder (k ∷ ks) = (refl, answer_all-InOrder ks)

module _ {S K A : Type 0} (page : Fetches S K A) (reply : K → Result A) where
  step-answers :
      (s : Live S K) (ps : List K)
      → s.pending ≡ ps
      → step page reply (answers 0) s ≡ answered page reply (nth 0 ps) 0 s
  unfolding step
  step-answers s ps p = ap (λ ks. answered page reply (nth 0 ks) 0 s) p

  -- As many answers as there are pending calls leave none.
  drained-AtRest :
      (ks ps : List K) (s : Live S K)
      → s.timer ≡ false
      → s.pending ≡ ps
      → length ps ≤ length ks
      → AtRest (run page reply (answer_all ks) s)
  unfolding run
  drained-AtRest [] [] s t p h = record { no_timer = t; no_pending = p }
  drained-AtRest [] (j ∷ ps) s t p h = let impossible : ⊥ = omega arith in elim impossible [ ]
  drained-AtRest (k ∷ ks) [] s t p h =
      rw (run, step-answers s [] p) (drained-AtRest ks [] s t p (omega arith))
  drained-AtRest (k ∷ ks) (j ∷ ps) s t p h =
      rw (run, step-answers s (j ∷ ps) p)
        (drained-AtRest ks ps (answered page reply (some j) 0 s) t (ap (without 0) p) (omega arith))

  record Fired (n : ℕ) (s : Live S K) : Type 0 where
    pub no_timer : s.timer ≡ false
    pub few : length s.pending ≤ suc n

  either-Fired :
      (n : ℕ) (b : Bool) (s t : Live S K)
      → t.timer ≡ b
      → Fired n s
      → length t.pending ≤ suc n
      → Fired n (if b then s else t)
  either-Fired n true s t e h k = h
  either-Fired n false s t e h k = record { no_timer = e; few = k }

  fire-Fired : (s : Live S K) → Fired (length s.pending) (step page reply fires s)
  unfolding step
  fire-Fired s =
      either-Fired (length s.pending) s.timer (call page reply (record s { timer = false })) s refl
        (record {
          no_timer = refl;
          few = rw (length-last_added s.pending (page.key s.ui)) (omega arith);
        })
        (omega arith)

  settle-AtRest : (s : Live S K) → AtRest (run page reply (settle s) s)
  unfolding run
  settle-AtRest s =
      let fired = fire-Fired s in
      drained-AtRest (page.key s.ui ∷ s.pending) (step page reply fires s).pending
        (step page reply fires s) fired.no_timer refl fired.few

  settle-InOrder : (s : Live S K) → All (λ e. in_order e ≡ true) (settle s)
  settle-InOrder s = (refl, (refl, answer_all-InOrder s.pending))

  -- Where every call is answered with a value and the answers come in the order of the calls, the
  -- page that is left alone comes to rest and shows the answer for what is chosen.
  pub settle-IsShown :
      ((k : K) → (a : A) × (reply k ≡ ok a))
      → (es : List (Event K)) (u : S) → All (λ e. in_order e ≡ true) es
      → page.error u ≡ none
      → AtRest
          (run page reply (settle (run page reply es (opened u))) (run page reply es (opened u)))
        × IsShown page reply
            (run page reply
              (settle (run page reply es (opened u)))
              (run page reply es (opened u))).ui
  settle-IsShown total es u o e =
      let s = run page reply es (opened u) in
      let rest = settle-AtRest s in
      let before = run-Current page reply total es (opened u) o (opened-Current page reply u e) in
      (
        rest,
        Current-IsShown page reply (run page reply (settle s) s) rest
            (run-Current page reply total (settle s) s (settle-InOrder s) before),
      )
