-- ===== src/Signup/Slug.antt =====
-- The slug of a company's name (frontend/tenant-dashboard/app/signup/page.tsx, `onSubmit`):
-- companyName.toLowerCase().replace(/[^a-z0-9]+/g, "-").replace(/(^-|-$)/g, "").
use Prim.Native.Char.{Char, code}
use Prim.Native.String.{[], ◌∷◌}
use text.Mathlib.TextEquality.{Char-path}
use modera_shield.Base.{
  String, Bool, true, false, not, ◌&&◌, ◌||◌, ◌≡◌, refl, ap, ◌⊎◌, inl, inr, arith, leb, nat_eq,
  if◌then◌else◌, Bool-cases, to_lower_case, lower_char,
}

abbrev is_slug_char : Char → Bool
is_slug_char c =
    (leb b'a' (code c) && leb (code c) b'z') || (leb b'0' (code c) && leb (code c) b'9')

abbrev is_dash : Char → Bool
is_dash c = nat_eq (code c) b'-'

-- `replace(/[^a-z0-9]+/g, "-")`; the flag tells whether the character before was replaced.
dash_runs : Bool → String → String
dash_runs in_run [] = []
dash_runs in_run (c ∷ s) =
    let rest = dash_runs (not (is_slug_char c)) s in
    if is_slug_char c then c ∷ rest else (if in_run then rest else "-" ∷ rest)

-- `replace(/(^-|-$)/g, "")`: one dash at the start, and one at the end.
drop_first_dash : String → String
drop_first_dash [] = []
drop_first_dash (c ∷ s) = if is_dash c then s else c ∷ s

drop_last_dash : String → String
drop_last_dash [] = []
drop_last_dash (c ∷ []) = if is_dash c then [] else c ∷ []
drop_last_dash (c ∷ (d ∷ s)) = c ∷ drop_last_dash (d ∷ s)

pub slugify : String → String
unfolding dash_runs drop_first_dash drop_last_dash
slugify name = drop_last_dash (drop_first_dash (dash_runs false (to_lower_case name)))

test_slugify :
    (slugify "  Acme & Sons, Inc. " ≡ "acme-sons-inc") × (slugify "--" ≡ "") × (slugify "A" ≡ "a")
unfolding slugify to_lower_case
test_slugify = (refl, refl, refl)

-- Lower-case letters and digits, in groups that single dashes part. The flag tells whether a dash,
-- or nothing, stands before.
abbrev Grouped : Bool → String → Type 0
Grouped after_dash [] = Unit
Grouped after_dash (c ∷ s) =
    ((is_slug_char c ≡ true) × Grouped false s)
    ⊎ ((is_dash c ≡ true) × (after_dash ≡ false) × Grouped true s)

abbrev ends_in_dash : String → Bool
ends_in_dash [] = false
ends_in_dash (c ∷ []) = is_dash c
ends_in_dash (c ∷ (d ∷ s)) = ends_in_dash (d ∷ s)

-- A slug: groups of letters and digits, parted by single dashes, with none at either end.
pub record IsSlug (s : String) : Type 0 where
  pub grouped : Grouped true s
  pub closed : ends_in_dash s ≡ false

dash_runs-Grouped : (b : Bool) (s : String) → Grouped b (dash_runs b s)
unfolding dash_runs
dash_runs-Grouped b [] = tt
dash_runs-Grouped true (c ∷ s) = elim (Bool-cases (is_slug_char c)) [
  | inl e ↦ rw e (inl (e, dash_runs-Grouped false s))
  | inr e ↦ rw e (dash_runs-Grouped true s)
]
dash_runs-Grouped false (c ∷ s) = elim (Bool-cases (is_slug_char c)) [
  | inl e ↦ rw e (inl (e, dash_runs-Grouped false s))
  | inr e ↦ rw e (inr (refl, refl, dash_runs-Grouped true s))
]

not_dash : (c : Char) → is_slug_char c ≡ true → is_dash c ≡ false
not_dash c e = ground arith

not_slug_char : (c : Char) → is_dash c ≡ true → is_slug_char c ≡ false
not_slug_char c e = ground arith

drop_first_dash-Grouped : (s : String) → Grouped false s → Grouped true (drop_first_dash s)
unfolding drop_first_dash
drop_first_dash-Grouped [] g = tt
drop_first_dash-Grouped (c ∷ s) (inl (e, g)) = rw (not_dash c e) (inl (e, g))
drop_first_dash-Grouped (c ∷ s) (inr (d, f, g)) = rw d g

ends_in_dash-cons :
    (c : Char) (s : String)
    → is_dash c ≡ false
    → ends_in_dash s ≡ false
    → ends_in_dash (c ∷ s) ≡ false
ends_in_dash-cons c [] d e = d
ends_in_dash-cons c (x ∷ s) d e = e

-- What is left of a text that begins with a letter or a digit begins with it too.
drop_last_dash-head :
    (c : Char) (s : String) → is_dash c ≡ false → (t : String) × (drop_last_dash (c ∷ s) ≡ c ∷ t)
unfolding drop_last_dash
drop_last_dash-head c [] d = ([], rw d)
drop_last_dash-head c (x ∷ s) d = (drop_last_dash (x ∷ s), refl)

-- After a dash nothing but a letter or a digit can follow.
head_not_dash : (c : Char) (s : String) → Grouped true (c ∷ s) → is_dash c ≡ false
head_not_dash c s (inl (e, g)) = not_dash c e
head_not_dash c s (inr (d, f, g)) = cc

drop_last_dash-closed :
    (b : Bool) (s : String) → Grouped b s → ends_in_dash (drop_last_dash s) ≡ false
unfolding drop_last_dash
drop_last_dash-closed b [] g = refl
drop_last_dash-closed b (c ∷ []) g = elim (Bool-cases (is_dash c)) [ inl e ↦ rw e | inr e ↦ rw e e ]
drop_last_dash-closed b (c ∷ (x ∷ s)) (inl (e, g)) =
    ends_in_dash-cons c (drop_last_dash (x ∷ s)) (not_dash c e)
      (drop_last_dash-closed false (x ∷ s) g)
drop_last_dash-closed b (c ∷ (x ∷ s)) (inr (d, f, g)) =
    let (t, e) = drop_last_dash-head x s (head_not_dash x s g) in
    let closed = drop_last_dash-closed true (x ∷ s) g in rw e (rw e at closed)

drop_last_dash-Grouped : (b : Bool) (s : String) → Grouped b s → Grouped b (drop_last_dash s)
unfolding drop_last_dash
drop_last_dash-Grouped b [] g = tt
drop_last_dash-Grouped b (c ∷ []) (inl (e, g)) = rw (not_dash c e) (inl (e, tt))
drop_last_dash-Grouped b (c ∷ []) (inr (d, f, g)) = rw d tt
drop_last_dash-Grouped b (c ∷ (x ∷ s)) (inl (e, g)) =
    inl (e, drop_last_dash-Grouped false (x ∷ s) g)
drop_last_dash-Grouped b (c ∷ (x ∷ s)) (inr (d, f, g)) =
    inr (d, f, drop_last_dash-Grouped true (x ∷ s) g)

-- The slug of any name consists of groups of lower-case letters and digits that single dashes part,
-- with no dash at either end.
pub slugify-IsSlug : (name : String) → IsSlug (slugify name)
unfolding slugify
slugify-IsSlug name =
    let grouped = drop_first_dash-Grouped _ (dash_runs-Grouped false (to_lower_case name)) in
    record {
      grouped = drop_last_dash-Grouped true _ grouped;
      closed = drop_last_dash-closed true _ grouped;
    }

lower_char-slug : (c : Char) → is_slug_char c ≡ true → lower_char c ≡ c
unfolding lower_char
lower_char-slug c e = ground arith

lower_char-dash : (c : Char) → is_dash c ≡ true → lower_char c ≡ c
unfolding lower_char
lower_char-dash c e = ground arith

to_lower_case-Grouped : (b : Bool) (s : String) → Grouped b s → to_lower_case s ≡ s
unfolding to_lower_case
to_lower_case-Grouped b [] g = refl
to_lower_case-Grouped b (c ∷ s) (inl (e, g)) =
    cc (lower_char-slug c e, to_lower_case-Grouped false s g)
to_lower_case-Grouped b (c ∷ s) (inr (d, f, g)) =
    cc (lower_char-dash c d, to_lower_case-Grouped true s g)

dash_of_code : (c : Char) → is_dash c ≡ true → c ≡ "-"
dash_of_code c d = Char-path c "-" (ground arith)

dash_runs-of_Grouped : (b : Bool) (s : String) → Grouped b s → dash_runs b s ≡ s
unfolding dash_runs
dash_runs-of_Grouped b [] g = refl
dash_runs-of_Grouped b (c ∷ s) (inl (e, g)) =
    rw e (ap (λ t. c ∷ t) (dash_runs-of_Grouped false s g))
dash_runs-of_Grouped b (c ∷ s) (inr (d, f, g)) =
    rw (not_slug_char c d, f) (cc (dash_of_code c d, dash_runs-of_Grouped true s g))

Grouped-weaken : (s : String) → Grouped true s → Grouped false s
Grouped-weaken [] g = tt
Grouped-weaken (c ∷ s) (inl h) = inl h
Grouped-weaken (c ∷ s) (inr (d, f, g)) = cc

drop_first_dash-of_Grouped : (s : String) → Grouped true s → drop_first_dash s ≡ s
unfolding drop_first_dash
drop_first_dash-of_Grouped [] g = refl
drop_first_dash-of_Grouped (c ∷ s) g = rw (head_not_dash c s g)

drop_last_dash-of_closed : (s : String) → ends_in_dash s ≡ false → drop_last_dash s ≡ s
unfolding drop_last_dash
drop_last_dash-of_closed [] e = refl
drop_last_dash-of_closed (c ∷ []) e = rw e
drop_last_dash-of_closed (c ∷ (x ∷ s)) e = ap (λ t. c ∷ t) (drop_last_dash-of_closed (x ∷ s) e)

slugify-of_IsSlug : (s : String) → IsSlug s → slugify s ≡ s
unfolding slugify
slugify-of_IsSlug s v = simp (
  to_lower_case-Grouped true s v.grouped,
  dash_runs-of_Grouped false s (Grouped-weaken s v.grouped),
  drop_first_dash-of_Grouped s v.grouped,
  drop_last_dash-of_closed s v.closed,
)

-- The slug of a slug is the slug itself.
slugify_idempotent : (name : String) → slugify (slugify name) ≡ slugify name
slugify_idempotent name = slugify-of_IsSlug (slugify name) (slugify-IsSlug name)
