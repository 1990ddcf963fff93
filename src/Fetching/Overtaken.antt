-- ===== src/Fetching/Overtaken.antt =====
-- Calls that overlap: the answer to an earlier one arrives after that to a later one.
use modera_shield.Base.{
  true, false, none, some, List, [], ◌∷◌, Result, ok, if◌then◌else◌, ◌≡◌, refl, ◌∙◌, ap,
}
use modera_shield.Fetching.{Fetches, Live, Event, chooses, fires, answers, step, run, AtRest}

-- Another value is chosen, for which the page calls, too, and the answer to that call arrives first.
abbrev pub overtaken : {K : Type 0} → K → List (Event K)
overtaken k = chooses k ∷ fires ∷ answers 1 ∷ answers 0 ∷ []

-- A page that waits for the answer to one call.
abbrev pub asked : {S K : Type 0} → K → S → Live S K
asked j u = record { ui = u; timer = false; pending = j ∷ [] }

module _ {S K A : Type 0} (page : Fetches S K A) (reply : K → Result A) where
  -- The page with both calls pending.
  both : K → K → S → Live S K
  both j k u = record { ui = page.begin (page.set_key k u); timer = false; pending = j ∷ k ∷ [] }

  run-both :
      (j k : K) (es : List (Event K)) (u : S)
      → page.same k (page.key u) ≡ false
      → run page reply (chooses k ∷ fires ∷ es) (asked j u) ≡ run page reply es (both j k u)
  unfolding run step both
  run-both j k es u h =
      let changed : Live S K = record (asked j u) { ui = page.set_key k u; timer = true } in
      ap (λ b. run page reply es (step page reply fires (if b then asked j u else changed))) h
      ∙ ap
          (λ i.
            run page reply es
              (record { ui = page.begin (page.set_key k u); timer = false; pending = j ∷ i ∷ [] }))
          (page.key-set_key k u)

  -- What the page is left with: what is chosen is new, what is shown is the answer for the old one.
  pub record IsStale (k : K) (a : A) (s : Live S K) : Type 0 where
    pub at_rest : AtRest s
    pub chosen : page.key s.ui ≡ k
    pub shown : page.content s.ui ≡ some a
    pub no_error : page.error s.ui ≡ none
    pub is_loading : page.is_loading s.ui ≡ false

  pub overtaken-IsStale :
      (j k : K) (a b : A) (u : S)
      → page.same k (page.key u) ≡ false
      → reply j ≡ ok a
      → reply k ≡ ok b
      → IsStale k a (run page reply (overtaken k) (asked j u))
  unfolding run step both
  overtaken-IsStale j k a b u h p q =
      let v = page.finish (reply k) (page.begin (page.set_key k u)) in
      rw (run-both j k (answers 1 ∷ answers 0 ∷ []) u h) (record {
        at_rest = record { no_timer = refl; no_pending = refl };
        chosen =
            page.key-finish (reply j) v
            ∙ (page.key-finish (reply k) _ ∙ (page.key-begin _ ∙ page.key-set_key k u));
        shown = rw p (page.content-ok a v);
        no_error = rw p (page.error-ok a v ∙ rw q (page.error-ok b _ ∙ page.error-begin _));
        is_loading = page.is_loading-finish (reply j) v;
      })
