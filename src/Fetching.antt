-- ===== src/Fetching.antt =====
-- The effect with which the pages of frontend/tenant-dashboard/app/dashboard/ fetch what they show:
-- when the function that fetches changes with what it depends on, its timer is cleared and set anew,
-- and when the timer fires the function is called. A call begins, and ends with its answer; calls
-- that wait for their answers may be many, and the answers may come in any order.
pub mod Laws
pub mod Overtaken
pub mod Settled
use modera_shield.Base.{
  ℕ, zero, suc, String, Bool, true, false, Option, none, some, List, [], ◌∷◌, Result, ok, thrown,
  ◌≡◌, if◌then◌else◌,
}

-- A page with such an effect: what its function depends on, the setter of that, whether two values
-- of it are one for React, and the function up to its `await` and from there on; and what these do
-- to the content, the error and the sign of loading.
pub record Fetches (S K A : Type 0) : Type 0 where
  pub key : S → K
  pub set_key : K → S → S
  pub same : K → K → Bool
  pub begin : S → S
  pub finish : Result A → S → S
  pub content : S → Option A
  pub error : S → Option String
  pub message : String → String
  pub is_loading : S → Bool
  pub same-eq : (j k : K) → same j k ≡ true → j ≡ k
  pub key-set_key : (k : K) (u : S) → key (set_key k u) ≡ k
  pub content-set_key : (k : K) (u : S) → content (set_key k u) ≡ content u
  pub error-set_key : (k : K) (u : S) → error (set_key k u) ≡ error u
  pub is_loading-set_key : (k : K) (u : S) → is_loading (set_key k u) ≡ is_loading u
  pub key-begin : (u : S) → key (begin u) ≡ key u
  pub content-begin : (u : S) → content (begin u) ≡ content u
  pub error-begin : (u : S) → error (begin u) ≡ none
  pub is_loading-begin : (u : S) → is_loading (begin u) ≡ true
  pub key-finish : (r : Result A) (u : S) → key (finish r u) ≡ key u
  pub content-ok : (a : A) (u : S) → content (finish (ok a) u) ≡ some a
  pub content-thrown : (e : String) (u : S) → content (finish (thrown e) u) ≡ content u
  pub error-ok : (a : A) (u : S) → error (finish (ok a) u) ≡ error u
  pub error-thrown : (e : String) (u : S) → error (finish (thrown e) u) ≡ some (message e)
  pub is_loading-finish : (r : Result A) (u : S) → is_loading (finish r u) ≡ false

-- The page as it runs: its state, whether the effect's timer is set, and what the calls were made
-- for that are not answered yet, in their order.
pub record Live (S K : Type 0) : Type 0 where
  pub ui : S
  pub timer : Bool
  pub pending : List K

-- The first render, after which the effect runs.
abbrev pub opened : {S K : Type 0} → S → Live S K
opened u = record { ui = u; timer = true; pending = [] }

-- The user chooses another value, the timer fires, a button calls the function, and the answer to
-- the n-th of the pending calls arrives.
pub data Event (K : Type 0) : Type 0 where
  chooses : K → Event K
  fires : Event K
  refreshes : Event K
  answers : ℕ → Event K

module _ {K : Type 0} where
  abbrev last_added : List K → K → List K
  last_added [] k = k ∷ []
  last_added (j ∷ ks) k = j ∷ last_added ks k

  abbrev nth : ℕ → List K → Option K
  nth n [] = none
  nth zero (k ∷ ks) = some k
  nth (suc n) (k ∷ ks) = nth n ks

  abbrev without : ℕ → List K → List K
  without n [] = []
  without zero (k ∷ ks) = ks
  without (suc n) (k ∷ ks) = k ∷ without n ks

  -- The answers come in the order of the calls.
  abbrev pub in_order : Event K → Bool
  in_order (answers zero) = true
  in_order (answers (suc n)) = false
  in_order (chooses k) = true
  in_order fires = true
  in_order refreshes = true

-- At rest: the timer is not set and no call is pending.
pub record AtRest {S K : Type 0} (s : Live S K) : Type 0 where
  pub no_timer : s.timer ≡ false
  pub no_pending : s.pending ≡ []

-- `reply` is what a call is answered.
module _ {S K A : Type 0} (page : Fetches S K A) (reply : K → Result A) where
  abbrev call : Live S K → Live S K
  call s = record s { ui = page.begin s.ui; pending = last_added s.pending (page.key s.ui) }

  abbrev answered : Option K → ℕ → Live S K → Live S K
  answered none n s = s
  answered (some k) n s = record s {
    ui = page.finish (reply k) s.ui;
    pending = without n s.pending;
  }

  unfoldable pub step : Event K → Live S K → Live S K
  step (chooses k) s =
      if page.same k (page.key s.ui) then s else record s { ui = page.set_key k s.ui; timer = true }
  step fires s = if s.timer then call (record s { timer = false }) else s
  step refreshes s = call s
  step (answers n) s = answered (nth n s.pending) n s

  unfoldable pub run : List (Event K) → Live S K → Live S K
  run [] s = s
  run (e ∷ es) s = run es (step e s)

-- The timer fires, if it is set, and what is pending is answered in its order.
abbrev answer_all : {K : Type 0} → List K → List (Event K)
answer_all [] = []
answer_all (k ∷ ks) = answers 0 ∷ answer_all ks

abbrev pub settle : {S K : Type 0} → Live S K → List (Event K)
settle s = fires ∷ answers 0 ∷ answer_all s.pending
