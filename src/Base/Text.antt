-- ===== src/Base/Text.antt =====
-- The methods of JavaScript's `String` that the source calls, over native texts.
use Prim.Native.Nat.{ℕ, zero, suc, ◌+◌, ◌-◌, ◌/◌, ◌%◌}
use Prim.Native.Char.{Char, code}
use Prim.Native.String.{String, [], ◌∷◌}
use mathlib.Core.Path.{◌≡◌, refl}
use mathlib.Core.Bool.{Bool, true, false, ◌&&◌, ◌||◌}
use mathlib.Core.Option.{Option, none, some}
use modera_shield.Base.Tests.{ltb, leb, nat_eq, ◌==◌, if◌then◌else◌}

-- A text that is neither missing nor empty: the texts that count as true.
abbrev pub present : Option String → Option String
present none = none
present (some s) = if s == "" then none else some s

abbrev pub is_present : Option String → Bool
is_present none = false
is_present (some s) = if s == "" then false else true

abbrev get_char : String → ℕ → Char → Char
get_char [] i c = c
get_char (d ∷ s) zero c = d
get_char (d ∷ s) (suc i) c = get_char s i c

-- `toLowerCase`, on ASCII; the other characters stay as they are.
unfoldable pub lower_char : Char → Char
lower_char c =
    if leb b'A' (code c) && leb (code c) b'Z'
    then get_char "abcdefghijklmnopqrstuvwxyz" (code c - b'A') c
    else c

unfoldable pub to_lower_case : String → String
unfolding lower_char
to_lower_case [] = []
to_lower_case (c ∷ s) = lower_char c ∷ to_lower_case s

-- `toUpperCase`, on ASCII.
upper_char : Char → Char
upper_char c =
    if leb b'a' (code c) && leb (code c) b'z'
    then get_char "ABCDEFGHIJKLMNOPQRSTUVWXYZ" (code c - b'a') c
    else c

unfoldable pub to_upper_case : String → String
unfolding upper_char
to_upper_case [] = []
to_upper_case (c ∷ s) = upper_char c ∷ to_upper_case s

-- `s.substring(0, n)`, for characters of 16 bits.
unfoldable pub take_chars : ℕ → String → String
take_chars zero s = []
take_chars (suc n) [] = []
take_chars (suc n) (c ∷ s) = c ∷ take_chars n s

-- The white space and the line ends that `trim` removes.
abbrev pub is_space : Char → Bool
is_space c =
    (leb 9 (code c) && leb (code c) 13)
    || nat_eq (code c) 32
    || nat_eq (code c) 160
    || nat_eq (code c) 0x1680
    || (leb 0x2000 (code c) && leb (code c) 0x200a)
    || (leb 0x2028 (code c) && leb (code c) 0x2029)
    || nat_eq (code c) 0x202f
    || nat_eq (code c) 0x205f
    || nat_eq (code c) 0x3000
    || nat_eq (code c) 0xfeff

unfoldable pub trim_start : String → String
trim_start [] = []
trim_start (c ∷ s) = let rest = trim_start s in if is_space c then rest else c ∷ s

abbrev keep_char : Char → String → String
keep_char c [] = if is_space c then [] else c ∷ []
keep_char c (d ∷ s) = c ∷ d ∷ s

unfoldable pub trim_end : String → String
trim_end [] = []
trim_end (c ∷ s) = keep_char c (trim_end s)

unfoldable pub trim : String → String
unfolding trim_start trim_end
trim s = trim_end (trim_start s)

abbrev pub starts_with : String → String → Bool
starts_with s [] = true
starts_with [] (d ∷ t) = false
starts_with (c ∷ s) (d ∷ t) = nat_eq (code c) (code d) && starts_with s t

unfoldable pub includes : String → String → Bool
includes [] t = starts_with [] t
includes (c ∷ s) t = starts_with (c ∷ s) t || includes s t

-- `s.endsWith(t)`
unfoldable pub ends_with : String → String → Bool
ends_with [] t = [] == t
ends_with (c ∷ s) t = (c ∷ s) == t || ends_with s t

-- `s.length`: code points beyond 16 bits count twice.
unfoldable pub text_length : String → ℕ
text_length [] = 0
text_length (c ∷ s) = (if ltb (code c) 65536 then 1 else 2) + text_length s

-- `s.replace("_", " ")`: the first one only.
unfoldable pub replace_underscore : String → String
replace_underscore [] = []
replace_underscore (c ∷ s) =
    let rest = c ∷ replace_underscore s in if nat_eq (code c) b'_' then " " ∷ s else rest

abbrev digit : ℕ → Char
digit n = get_char "0123456789" n "0"

show_from : ℕ → ℕ → String → String
show_from zero n acc = acc
show_from (suc fuel) n acc =
    let rest = show_from fuel (n / 10) (digit (n % 10) ∷ acc) in
    if ltb n 10 then digit n ∷ acc else rest

-- A number in a template literal: its decimal digits. Each round removes a digit, so the number
-- itself is enough fuel.
unfoldable pub show_number : ℕ → String
unfolding show_from
show_number n = show_from (suc n) n ""

test_text :
    (to_lower_case "AbZ_9" ≡ "abz_9")
    × (trim "  a b\n" ≡ "a b")
    × (show_number 1205 ≡ "1205")
    × (includes "hello" "ell" ≡ true)
    × (replace_underscore "a_b_c" ≡ "a b_c")
    × (ends_with "x/api/v1" "/api/v1" ≡ true)
unfolding to_lower_case trim show_number includes replace_underscore ends_with
test_text = (refl, refl, refl, refl, refl, refl)
