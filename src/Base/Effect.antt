-- ===== src/Base/Effect.antt =====
-- Code that may throw and that changes a state: the handlers of the pages and the client's methods.
-- A thrown value is kept as its `message`.
use Prim.Native.String.{String}
use mathlib.Core.Path.{◌≡◌}
use modera_shield.Base.Tests.{◌==◌, if◌then◌else◌}

pub data Result (A : Type 0) : Type 0 where
  ok : A → Result A
  thrown : String → Result A

abbrev pub M : Type 0 → Type 0 → Type 0
M S A = S → Result A × S

abbrev pub pure : {S A : Type 0} → A → M S A
pure a s = (ok a, s)

abbrev pub throw : {S A : Type 0} → String → M S A
throw message s = (thrown message, s)

-- What follows an `await` or a statement: it is skipped after a throw.
abbrev pub and_then : {S A B : Type 0} → Result A × S → (A → M S B) → Result B × S
and_then (ok a, s) k = k a s
and_then (thrown message, s) k = (thrown message, s)

infixl 5 ◌>>=◌ ◌>>◌
abbrev pub ◌>>=◌ : {S A B : Type 0} → M S A → (A → M S B) → M S B
◌>>=◌ m k s = and_then (m s) k

abbrev pub ◌>>◌ : {S B : Type 0} → M S (Unit {0}) → M S B → M S B
m >> k = m >>= λ _. k

-- `try { m } catch (err) { handler(err.message) }`
abbrev pub or_catch : {S A : Type 0} → Result A × S → (String → M S A) → Result A × S
or_catch (ok a, s) handler = (ok a, s)
or_catch (thrown message, s) handler = handler message s

abbrev pub try_catch : {S A : Type 0} → M S A → (String → M S A) → M S A
try_catch m handler s = or_catch (m s) handler

-- `try { m } finally { last }`, where `last` only changes the state.
abbrev pub after : {S A : Type 0} → Result A × S → (S → S) → Result A × S
after (r, s) last = (r, last s)

abbrev pub finally : {S A : Type 0} → M S A → (S → S) → M S A
finally m last s = after (m s) last

abbrev pub modify : {S : Type 0} → (S → S) → M S (Unit {0})
modify f s = (ok tt, f s)

abbrev pub gets : {S A : Type 0} → (S → A) → M S A
gets f s = (ok (f s), s)

-- `text || fallback`
abbrev pub or_default : String → String → String
or_default text fallback = if text == "" then fallback else text

-- An outcome whose first part is known, in the form that `and_then` reads.
pub outcome-eta : {S A : Type 0} (m : Result A × S) {r : Result A} → m.0 ≡ r → m ≡ (r, m.1)
outcome-eta m e = λ i. (e i, m.1)

pub ok-injective : {A : Type 0} {a b : A} → ok a ≡ ok b → a ≡ b
ok-injective h = cc h
