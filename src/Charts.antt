-- ===== src/Charts.antt =====
-- The figures that frontend/tenant-dashboard/app/dashboard/page.tsx and
-- frontend/tenant-dashboard/app/dashboard/analytics/page.tsx compute from the metrics.
pub mod Laws
use Prim.Native.String.{◌++◌}
use modera_shield.Base.{
  ℕ, ◌+◌, ◌*◌, String, Option, none, some, List, [], ◌∷◌, map, filter, nat_eq, ltb, leb,
  if◌then◌else◌, replace_underscore, not,
}
use modera_shield.Client.Types.{OverviewMetrics, CategoryMetrics, Decimal}
use modera_shield.Numeric.{Fraction, fraction_of, times, to_fixed}

-- A slice of the ring: its name, its number and what is shown of it in percent.
pub record Slice : Type 0 where
  pub name : String
  pub value : ℕ

pub record Legend : Type 0 where
  pub name : String
  pub value : ℕ
  pub percent : String

abbrev pub counted : (OverviewMetrics → ℕ) → Option OverviewMetrics → ℕ
counted f none = 0
counted f (some o) = f o

-- `donutData`
unfoldable pub donut_data : Option OverviewMetrics → List Slice
donut_data o =
    filter (λ s. ltb 0 s.value)
      (record { name = "Approved"; value = counted (λ o. o.approved_requests) o }
        ∷ record { name = "Flagged"; value = counted (λ o. o.flagged_requests) o }
        ∷ record { name = "Failed"; value = counted (λ o. o.failed_requests) o }
        ∷ [])

-- `((value / total) * 100).toFixed(1)`, of a total that is not zero.
pub percent_of : ℕ → ℕ → String
percent_of value total = to_fixed 1 (record { num = 100 * value; den = total })

unfoldable pub legend : Option OverviewMetrics → Slice → Legend
unfolding percent_of
legend o s = record {
  name = s.name;
  value = s.value;
  percent =
      if nat_eq (counted (λ o. o.total_requests) o) 0
      then "0.0"
      else percent_of s.value (counted (λ o. o.total_requests) o);
}

-- `(overview.flag_rate * 100).toFixed(digits)` with the sign, or the fixed text without metrics.
unfoldable pub flag_rate : ℕ → Option OverviewMetrics → String
flag_rate digits none = "0.0%"
flag_rate digits (some o) = to_fixed digits (times 100 (fraction_of o.flag_rate)) ++ "%"

-- `entries.sort((a, b) => b[1] - a[1])`: a stable sort, the greatest number first.
abbrev insert : String × ℕ → List (String × ℕ) → List (String × ℕ)
insert e [] = e ∷ []
insert e (f ∷ fs) = if leb f.1 e.1 then e ∷ f ∷ fs else f ∷ insert e fs

sort_entries : List (String × ℕ) → List (String × ℕ)
sort_entries [] = []
sort_entries (e ∷ es) = insert e (sort_entries es)

abbrev entries_of : Option CategoryMetrics → List (String × ℕ)
entries_of none = []
entries_of (some c) = c.categories

abbrev larger : ℕ → ℕ → ℕ
larger m n = if leb m n then n else m

abbrev max_count : List (String × ℕ) → ℕ
max_count [] = 0
max_count (e ∷ es) = larger e.1 (max_count es)

-- A bar of "Top Categories": its width is a part of the whole, and zero where every number is.
pub record CategoryBar : Type 0 where
  pub name : String
  pub count : ℕ
  pub width : Fraction

category_bar : ℕ → String × ℕ → CategoryBar
category_bar most (name, count) = record {
  name = replace_underscore name;
  count = count;
  width = if ltb 0 most then record { num = count; den = most } else record { num = 0; den = 1 };
}

unfoldable pub top_categories : Option CategoryMetrics → List CategoryBar
unfolding category_bar sort_entries
top_categories c = map (category_bar (max_count (entries_of c))) (sort_entries (entries_of c))

-- `categoryData` of the analytics page.
unfoldable pub category_data : Option CategoryMetrics → List (String × ℕ)
unfolding sort_entries
category_data c =
    sort_entries (map (λ (name, count). (replace_underscore name, count)) (entries_of c))
