-- ===== src/Charts/Laws.antt =====
-- The ring and the bars of the categories (frontend/tenant-dashboard/app/dashboard/page.tsx).
use modera_shield.Base.{
  ℕ, ◌+◌, ◌≤◌, ◌<◌, String, Option, some, List, [], ◌∷◌, map, All, filter, ltb, leb, ◌≡◌, refl,
  arith, Bool-cases, inl, inr,
}
use modera_shield.Client.Types.{OverviewMetrics, CategoryMetrics}
use modera_shield.Charts.{
  Slice, donut_data, sort_entries, insert, max_count, CategoryBar, category_bar, top_categories,
  entries_of,
}

abbrev sum : List Slice → ℕ
sum [] = 0
sum (s ∷ ss) = s.value + sum ss

sum-filter : (ss : List Slice) → sum (filter (λ s. ltb 0 s.value) ss) ≡ sum ss
sum-filter [] = refl
sum-filter (s ∷ ss) = ground (arith, sum-filter ss)

filter-positive :
    (ss : List Slice) → All (λ (s : Slice). 0 < s.value) (filter (λ s. ltb 0 s.value) ss)
filter-positive [] = tt
filter-positive (s ∷ ss) = elim (Bool-cases (ltb 0 s.value)) [
  | inl e ↦ let h : 0 < s.value = ground arith in rw e (h, filter-positive ss)
  | inr e ↦ rw e (filter-positive ss)
]

-- The ring loses nothing: no slice is empty, and the slices together are the approved, the flagged
-- and the failed requests.
donut_data-sum :
    (o : OverviewMetrics)
    → All (λ (s : Slice). 0 < s.value) (donut_data (some o))
      × (sum (donut_data (some o)) ≡ o.approved_requests + o.flagged_requests + o.failed_requests)
unfolding donut_data
donut_data-sum o =
    let slices : List Slice =
      record { name = "Approved"; value = o.approved_requests }
      ∷ record { name = "Flagged"; value = o.flagged_requests }
      ∷ record { name = "Failed"; value = o.failed_requests }
      ∷ [] in
    (filter-positive slices, omega (arith, sum-filter slices))

-- No entry is followed by a greater one.
abbrev IsSorted : List (String × ℕ) → Type 0
IsSorted [] = Unit
IsSorted (e ∷ es) = All (λ (f : String × ℕ). f.1 ≤ e.1) es × IsSorted es

abbrev Below : ℕ → List (String × ℕ) → Type 0
Below n = All (λ (f : String × ℕ). f.1 ≤ n)

Below-le : (m n : ℕ) (es : List (String × ℕ)) → m ≤ n → Below m es → Below n es
Below-le m n [] h b = tt
Below-le m n (e ∷ es) h (b, bs) = (omega arith, Below-le m n es h bs)

insert-Below :
    (n : ℕ) (e : String × ℕ) (es : List (String × ℕ)) → e.1 ≤ n → Below n es → Below n (insert e es)
insert-Below n e [] h b = (h, tt)
insert-Below n e (f ∷ fs) h (b, bs) = elim (Bool-cases (leb f.1 e.1)) [
  | inl g ↦ rw g (h, (b, bs))
  | inr g ↦ rw g (b, insert-Below n e fs h bs)
]

insert-IsSorted : (e : String × ℕ) (es : List (String × ℕ)) → IsSorted es → IsSorted (insert e es)
insert-IsSorted e [] s = (tt, tt)
insert-IsSorted e (f ∷ fs) (b, s) = elim (Bool-cases (leb f.1 e.1)) [
  | inl g ↦ let le : f.1 ≤ e.1 = ground arith in rw g ((le, Below-le f.1 e.1 fs le b), (b, s))
  | inr g ↦ rw g (insert-Below f.1 e fs (ground arith) b, insert-IsSorted e fs s)
]

sort_entries-IsSorted : (es : List (String × ℕ)) → IsSorted (sort_entries es)
unfolding sort_entries
sort_entries-IsSorted [] = tt
sort_entries-IsSorted (e ∷ es) = insert-IsSorted e (sort_entries es) (sort_entries-IsSorted es)

max_count-Below : (es : List (String × ℕ)) → Below (max_count es) es
max_count-Below [] = tt
max_count-Below (e ∷ es) = (
  ground arith,
  Below-le (max_count es) (max_count (e ∷ es)) es (ground arith) (max_count-Below es),
)

sort_entries-Below : (n : ℕ) (es : List (String × ℕ)) → Below n es → Below n (sort_entries es)
unfolding sort_entries
sort_entries-Below n [] b = tt
sort_entries-Below n (e ∷ es) (b, bs) =
    insert-Below n e (sort_entries es) b (sort_entries-Below n es bs)

-- Each bar is within the whole width, and no bar is followed by one with a greater number.
abbrev AreBars : List CategoryBar → Type 0
AreBars [] = Unit
AreBars (b ∷ bs) =
    (b.width.num ≤ b.width.den)
    × (0 < b.width.den)
    × All (λ (c : CategoryBar). c.count ≤ b.count) bs
    × AreBars bs

map-count :
    (most : ℕ) (e : String × ℕ) (es : List (String × ℕ))
    → Below e.1 es
    → All (λ (c : CategoryBar). c.count ≤ (category_bar most e).count) (map (category_bar most) es)
unfolding category_bar
map-count most e [] b = tt
map-count most e (f ∷ fs) (b, bs) = (b, map-count most e fs bs)

category_bar-fits :
    (most : ℕ) (e : String × ℕ)
    → e.1 ≤ most
    → ((category_bar most e).width.num ≤ (category_bar most e).width.den)
      × (0 < (category_bar most e).width.den)
unfolding category_bar
category_bar-fits most e h = elim (Bool-cases (ltb 0 most)) [
  | inl g ↦ rw g (h, ground arith)
  | inr g ↦ rw g (omega arith, omega arith)
]

map-AreBars :
    (most : ℕ) (es : List (String × ℕ))
    → Below most es
    → IsSorted es
    → AreBars (map (category_bar most) es)
map-AreBars most [] b s = tt
map-AreBars most (e ∷ es) (b, bs) (t, s) =
    let (fits, whole) = category_bar-fits most e b in
    (fits, whole, map-count most e es t, map-AreBars most es bs s)

-- The bars of the categories fit into the whole width, also where every number is zero, and the
-- most frequent category comes first.
top_categories-AreBars : (c : Option CategoryMetrics) → AreBars (top_categories c)
unfolding top_categories
top_categories-AreBars c =
    map-AreBars (max_count (entries_of c)) (sort_entries (entries_of c))
      (sort_entries-Below (max_count (entries_of c)) (entries_of c)
        (max_count-Below (entries_of c)))
      (sort_entries-IsSorted (entries_of c))
