-- ===== src/Fetching/Laws.antt =====
-- What a page with such an effect shows once all is answered.
use modera_shield.Base.{
  zero, suc, Bool, true, false, none, some, List, [], ◌∷◌, Result, ok, ◌≡◌, refl, sym, ◌∙◌, ap,
  if◌then◌else◌, All,
}
use modera_shield.Fetching.{
  Fetches, Live, opened, Event, chooses, fires, refreshes, answers, last_added, nth, without, call,
  answered, step, run, in_order, AtRest,
}

module _ {S K A : Type 0} (page : Fetches S K A) (reply : K → Result A) where
  -- Either the timer is set, or the last of the pending calls is for what is chosen, or nothing is
  -- pending and the content is for what is chosen.
  pub data Stage (s : Live S K) : Type 0 where
    waits : s.timer ≡ true → Stage s
    asks : (ks : List K) → s.pending ≡ last_added ks (page.key s.ui) → Stage s
    shows :
        (a : A)
        → reply (page.key s.ui) ≡ ok a
        → page.content s.ui ≡ some a
        → s.pending ≡ []
        → page.is_loading s.ui ≡ false
        → Stage s

  pub record Current (s : Live S K) : Type 0 where
    pub stage : Stage s
    pub no_error : page.error s.ui ≡ none

  call-Current : (s : Live S K) → Current (call page reply s)
  call-Current s = record {
    stage = asks s.pending (ap (last_added s.pending) (sym (page.key-begin s.ui)));
    no_error = page.error-begin s.ui;
  }

  either-Current :
      (b : Bool) (s t : Live S K) → Current s → Current t → Current (if b then s else t)
  either-Current true s t p q = p
  either-Current false s t p q = q

  choose-Current : (k : K) (s : Live S K) → Current s → Current (step page reply (chooses k) s)
  unfolding step
  choose-Current k s h =
      either-Current (page.same k (page.key s.ui)) _ _ h
        (record { stage = waits refl; no_error = page.error-set_key k s.ui ∙ h.no_error })

  fire-Current : (s : Live S K) → Current s → Current (step page reply fires s)
  unfolding step
  fire-Current s h = either-Current s.timer _ _ (call-Current (record s { timer = false })) h

  -- The oldest pending call is answered with a value.
  answered-Stage :
      (s : Live S K) (k : K) (ks js : List K) (a : A)
      → reply k ≡ ok a
      → s.pending ≡ k ∷ ks
      → s.pending ≡ last_added js (page.key s.ui)
      → Stage (answered page reply (some k) 0 s)
  answered-Stage s k ks [] a e p q =
      let single : k ∷ ks ≡ page.key s.ui ∷ [] = sym p ∙ q in
      let same : k ≡ page.key s.ui = cc in
      let none_left : ks ≡ [] = cc in
      shows a (ap reply (page.key-finish (reply k) s.ui ∙ sym same) ∙ e)
        (ap (λ (r : Result A). page.content (page.finish r s.ui)) e ∙ page.content-ok a s.ui)
        (ap (without 0) p ∙ none_left) (page.is_loading-finish (reply k) s.ui)
  answered-Stage s k ks (j ∷ js) a e p q =
      let longer : k ∷ ks ≡ j ∷ last_added js (page.key s.ui) = sym p ∙ q in
      let left : ks ≡ last_added js (page.key s.ui) = cc in
      asks js
        (ap (without 0) p ∙ (left ∙ ap (last_added js) (sym (page.key-finish (reply k) s.ui))))

  answered-Current :
      ((k : K) → (a : A) × (reply k ≡ ok a))
      → (s : Live S K) (ks : List K) → s.pending ≡ ks
      → Current s
      → Current (answered page reply (nth 0 ks) 0 s)
  answered-Current total s [] p h = h
  answered-Current total s (k ∷ ks) p h =
      let (a, e) = total k in
      record {
        stage = elim h.stage [
          | waits t ↦ waits t
          | asks js q ↦ answered-Stage s k ks js a e p q
          | shows b f c q l ↦ cc
        ];
        no_error = rw e (page.error-ok a s.ui ∙ h.no_error);
      }

  answer-Current :
      ((k : K) → (a : A) × (reply k ≡ ok a))
      → (s : Live S K) → Current s
      → Current (step page reply (answers 0) s)
  unfolding step
  answer-Current total s h = answered-Current total s s.pending refl h

  step-Current :
      ((k : K) → (a : A) × (reply k ≡ ok a))
      → (e : Event K) (s : Live S K) → in_order e ≡ true
      → Current s
      → Current (step page reply e s)
  unfolding step
  step-Current total (chooses k) s o h = choose-Current k s h
  step-Current total fires s o h = fire-Current s h
  step-Current total refreshes s o h = call-Current s
  step-Current total (answers zero) s o h = answer-Current total s h
  step-Current total (answers (suc n)) s o h = cc

  pub run-Current :
      ((k : K) → (a : A) × (reply k ≡ ok a))
      → (es : List (Event K)) (s : Live S K) → All (λ e. in_order e ≡ true) es
      → Current s
      → Current (run page reply es s)
  unfolding run
  run-Current total [] s o h = h
  run-Current total (e ∷ es) s (o, os) h =
      run-Current total es (step page reply e s) os (step-Current total e s o h)

  -- The page shows the answer for what is chosen.
  pub record IsShown (u : S) : Type 0 where
    pub answer : A
    pub is_answer : reply (page.key u) ≡ ok answer
    pub content : page.content u ≡ some answer
    pub error : page.error u ≡ none
    pub is_loading : page.is_loading u ≡ false

  nothing_pending : {u : S} (ks : List K) (k : K) → [] ≡ last_added ks k → IsShown u
  nothing_pending [] k e = cc
  nothing_pending (j ∷ ks) k e = cc

  pub Current-IsShown : (s : Live S K) → AtRest s → Current s → IsShown s.ui
  Current-IsShown s rest h = elim h.stage [
    | waits t ↦ cc
    | asks ks p ↦ nothing_pending ks (page.key s.ui) (sym rest.no_pending ∙ p)
    | shows a e c p l ↦ record {
      answer = a;
      is_answer = e;
      content = c;
      error = h.no_error;
      is_loading = l;
    }
  ]

  -- The page as it is opened.
  pub opened-Current : (u : S) → page.error u ≡ none → Current (opened u)
  opened-Current u e = record { stage = waits refl; no_error = e }
