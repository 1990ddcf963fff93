-- ===== src/Submissions/Filters.antt =====
-- The local filters of the submissions page
-- (frontend/tenant-dashboard/app/dashboard/submissions/page.tsx).
use modera_shield.Base.{
  Bool, true, false, ◌&&◌, ◌||◌, List, [], ◌∷◌, filter, ◌≡◌, refl, arith, ◌==◌, trim, if◌then◌else◌,
  ap, String, includes, starts_with, to_lower_case, ◌↔◌, ◌⊎◌, inl, inr, Bool-cases, eq_iff, sym,
  ◌∙◌,
}
use Prim.Native.Char.{Char}
use Prim.Native.String.{◌++◌}
use text.Mathlib.TextEquality.{Char-path}
use text.Mathlib.TextLemmas.{cons-append, nil-append}
use modera_shield.Client.Types.{RecentRequestItem}
use modera_shield.Submissions.{
  Ui, filtered_items, handle_clear_filters, matches_id, matches_status, items_of, has_clear_button,
}

-- Both filters in one pass.
pub keeps : Ui → RecentRequestItem → Bool
keeps u item =
    ((trim u.search_id == "") || matches_id u.search_id item)
    && ((u.status_filter == "all") || matches_status u.status_filter item)

filter_twice :
    {A : Type 0} (a b : Bool) (p q : A → Bool) (xs : List A)
    → (if b then (if a then xs else filter p xs) else filter q (if a then xs else filter p xs))
      ≡ filter (λ x. (a || p x) && (b || q x)) xs
filter_twice true true p q [] = refl
filter_twice true false p q [] = refl
filter_twice false true p q [] = refl
filter_twice false false p q [] = refl
filter_twice true true p q (x ∷ xs) = ap (λ l. x ∷ l) (filter_twice true true p q xs)
filter_twice true false p q (x ∷ xs) = ground (arith, filter_twice true false p q xs)
filter_twice false true p q (x ∷ xs) = ground (arith, filter_twice false true p q xs)
filter_twice false false p q (x ∷ xs) = ground (arith, filter_twice false false p q xs)

-- A text stands somewhere in another one.
abbrev Occurs : String → String → Type 0
Occurs t s = (before : String) × (rest : String) × (s ≡ before ++ (t ++ rest))

starts_with-rest : (s t : String) → starts_with s t ≡ true → (rest : String) × (s ≡ t ++ rest)
starts_with-rest s String.[] h = (s, sym (nil-append s))
starts_with-rest String.[] (String.◌∷◌ d t) h = ("", cc)
starts_with-rest (String.◌∷◌ c s) (String.◌∷◌ d t) h =
    let (rest, e) = starts_with-rest s t (ground (arith, h)) in
    let same : c ≡ d = Char-path c d (ground (arith, h)) in
    (
      rest,
      ap (λ (x : Char). String.◌∷◌ x s) same
          ∙ (ap (λ (x : String). String.◌∷◌ d x) e ∙ sym (cons-append d t rest)),
    )

starts_with-append : (t rest : String) → starts_with (t ++ rest) t ≡ true
starts_with-append String.[] rest = refl
starts_with-append (String.◌∷◌ d t) rest =
    rw (cons-append d t rest) (ground (arith, starts_with-append t rest))

includes-Occurs : (s t : String) → includes s t ≡ true → Occurs t s
unfolding includes
includes-Occurs String.[] t h =
    let (rest, e) = starts_with-rest "" t h in ("", rest, e ∙ sym (nil-append (t ++ rest)))
includes-Occurs (String.◌∷◌ c s) t h = elim (Bool-cases (starts_with (String.◌∷◌ c s) t)) [
  | inl k ↦
      let (rest, e) = starts_with-rest (String.◌∷◌ c s) t k in
      ("", rest, e ∙ sym (nil-append (t ++ rest)))
  | inr k ↦
      let (before, rest, e) = includes-Occurs s t (ground (arith, h, k)) in
      (
        String.◌∷◌ c before,
        rest,
        ap (λ (x : String). String.◌∷◌ c x) e ∙ sym (cons-append c before (t ++ rest)),
      )
]

starts_with-includes : (s t : String) → starts_with s t ≡ true → includes s t ≡ true
unfolding includes
starts_with-includes String.[] t h = h
starts_with-includes (String.◌∷◌ c s) t h = rw h refl

includes-append : (before t rest : String) → includes (before ++ (t ++ rest)) t ≡ true
unfolding includes
includes-append String.[] t rest =
    rw (nil-append (t ++ rest)) (starts_with-includes (t ++ rest) t (starts_with-append t rest))
includes-append (String.◌∷◌ c before) t rest =
    rw (cons-append c before (t ++ rest)) (ground (arith, includes-append before t rest))

Occurs-includes : (s t : String) → Occurs t s → includes s t ≡ true
Occurs-includes s t (before, rest, e) = rw e (includes-append before t rest)

-- The user sees the item: the search text is blank, or stands somewhere in the item's id, with no
-- regard to case and to white space around it; and the chosen status is "all" or the item's.
pub record IsWanted (u : Ui) (item : RecentRequestItem) : Type 0 where
  pub by_id :
      (trim u.search_id ≡ "") ⊎ Occurs (trim (to_lower_case u.search_id)) (to_lower_case item.id)
  pub by_status : (u.status_filter ≡ "all") ⊎ (item.status ≡ u.status_filter)

or-cases : (a b : Bool) → (a || b) ≡ true → (a ≡ true) ⊎ (b ≡ true)
or-cases true b h = inl refl
or-cases false b h = inr h

keeps-IsWanted : (u : Ui) (item : RecentRequestItem) → keeps u item ≡ true → IsWanted u item
unfolding keeps matches_id matches_status
keeps-IsWanted u item h = record {
  by_id =
      elim (or-cases (trim u.search_id == "") (matches_id u.search_id item) (ground (arith, h))) [
        | inl e ↦ inl ((eq_iff (trim u.search_id) "").0 e)
        | inr e ↦ inr (includes-Occurs _ _ e)
      ];
  by_status =
      elim (or-cases (u.status_filter == "all") (matches_status u.status_filter item)
        (ground (arith, h))) [
          | inl e ↦ inl ((eq_iff u.status_filter "all").0 e)
          | inr e ↦ inr ((eq_iff item.status u.status_filter).0 e)
        ];
}

or_right : (a b : Bool) → b ≡ true → (a || b) ≡ true
or_right true b h = refl
or_right false b h = h

and-true : (a b : Bool) → a ≡ true → b ≡ true → (a && b) ≡ true
and-true a b p q = rw (p, q) refl

IsWanted-keeps : (u : Ui) (item : RecentRequestItem) → IsWanted u item → keeps u item ≡ true
unfolding keeps matches_id matches_status
IsWanted-keeps u item h =
    and-true ((trim u.search_id == "") || matches_id u.search_id item)
      ((u.status_filter == "all") || matches_status u.status_filter item)
      (elim h.by_id [
        | inl e ↦ rw ((eq_iff (trim u.search_id) "").1 e) refl
        | inr e ↦ or_right (trim u.search_id == "") _ (Occurs-includes _ _ e)
      ])
      (elim h.by_status [
        | inl e ↦ rw ((eq_iff u.status_filter "all").1 e) refl
        | inr e ↦ or_right (u.status_filter == "all") _ ((eq_iff item.status u.status_filter).1 e)
      ])

-- The rows shown are the items of the loaded page, in their order, that a test keeps, and the test
-- keeps exactly the items whose id has the search text somewhere in it, with no regard to case and to
-- white space around it, or any where that text is blank, and whose status is the chosen one, or any
-- where that is "all".
pub filtered_items-eq-filter :
    (u : Ui)
    → (filtered_items u ≡ filter (keeps u) (items_of u.content))
      × ((item : RecentRequestItem) → (keeps u item ≡ true) ↔ IsWanted u item)
unfolding filtered_items keeps
filtered_items-eq-filter u = (
  filter_twice (trim u.search_id == "") (u.status_filter == "all") (matches_id u.search_id)
      (matches_status u.status_filter) (items_of u.content),
  λ item. (keeps-IsWanted u item, IsWanted-keeps u item),
)

-- "Clear" shows every item of the loaded page again, changes nothing else of what was loaded, and
-- is then no longer offered.
handle_clear_filters-shows_all :
    (u : Ui)
    → (filtered_items (handle_clear_filters u) ≡ items_of u.content)
      × (has_clear_button (handle_clear_filters u) ≡ false)
      × ((handle_clear_filters u).page ≡ u.page)
unfolding filtered_items handle_clear_filters has_clear_button trim
handle_clear_filters-shows_all u = (refl, refl, refl)
