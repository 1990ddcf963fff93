-- ===== src/Overview/Answers.antt =====
-- Answers of concurrent requests, and what receiving them does to the browser
-- (frontend/tenant-dashboard/app/dashboard/page.tsx, frontend/tenant-dashboard/lib/api/client.ts).
use mathlib.Core.List.{Permᴰ}
use mathlib.Core.Path.{sym, ◌∙◌}
use mathlib.Core.Path.{subst}
use modera_shield.Base.{
  All, Bool, not, ◌&&◌, [], if◌then◌else◌, true, false, List, ◌∷◌, ◌≡◌, refl, ap, Bool-cases, inl,
  inr,
}
use modera_shield.Client.Types.{ReplyType, Reply, overview, category_metrics, usage, requests}
use modera_shield.Client.Browser.{World}
use modera_shield.Client.Http.{
  Fetched, unreachable, replied, receive, is_ok, parsed, malformed, Json, read_json, is_denied,
  expire_session,
}
use modera_shield.Overview.{Sent}

read_json-outcome :
    {A : Type 0} (j : Json A) (w w' : World) → (read_json j w).0 ≡ (read_json j w').0
read_json-outcome (parsed a) w w' = refl
read_json-outcome (malformed e) w w' = refl

-- What a call returns does not depend on the browser.
pub receive-outcome :
    {A : Type 0} (f : Fetched A) (w w' : World) → (receive f w).0 ≡ (receive f w').0
unfolding receive
receive-outcome (unreachable e) w w' = refl
receive-outcome (replied r) w w' = elim (Bool-cases (is_ok r.status)) [
  | inl e ↦ rw e (read_json-outcome r.value w w')
  | inr e ↦ rw e
]

-- One of the answers.
pub record Answer : Type 0 where
  pub kind : ReplyType
  pub fetched : Fetched (Reply kind)

abbrev pub answers_of : Sent → List Answer
answers_of s =
    record { kind = overview; fetched = s.ov }
    ∷ record { kind = category_metrics; fetched = s.cat }
    ∷ record { kind = usage; fetched = s.us }
    ∷ record { kind = requests; fetched = s.req }
    ∷ []

-- The browser after the answers of a list, received one after the other.
abbrev pub receive_all : List Answer → World → World
receive_all [] w = w
receive_all (a ∷ answers) w = receive_all answers (receive a.fetched w).1

-- The answers that end the session.
abbrev ends : {A : Type 0} → Fetched A → Bool
ends (unreachable e) = false
ends (replied r) = not (is_ok r.status) && is_denied r.status

abbrev expire_if : Bool → World → World
expire_if b w = if b then expire_session w else w

read_json-world : {A : Type 0} (j : Json A) (w : World) → (read_json j w).1 ≡ w
read_json-world (parsed a) w = refl
read_json-world (malformed e) w = refl

receive-world : {A : Type 0} (f : Fetched A) (w : World) → (receive f w).1 ≡ expire_if (ends f) w
unfolding receive
receive-world (unreachable e) w = refl
receive-world (replied r) w = elim (Bool-cases (is_ok r.status)) [
  | inl e ↦ rw e (read_json-world r.value w)
  | inr e ↦ rw e
]

expire_if-swap :
    (b c : Bool) (w : World) → expire_if c (expire_if b w) ≡ expire_if b (expire_if c w)
expire_if-swap true true w = refl
expire_if-swap true false w = refl
expire_if-swap false true w = refl
expire_if-swap false false w = refl

receive-swap :
    {A B : Type 0} (f : Fetched A) (g : Fetched B) (w : World)
    → (receive g (receive f w).1).1 ≡ (receive f (receive g w).1).1
receive-swap f g w =
    receive-world g (receive f w).1
    ∙ (ap (expire_if (ends g)) (receive-world f w)
        ∙ (expire_if-swap (ends f) (ends g) w
            ∙ (sym (ap (expire_if (ends f)) (receive-world g w))
                ∙ sym (receive-world f (receive g w).1))))

pub receive_all-perm :
    {as1 as2 : List Answer} → Permᴰ as1 as2 → (w : World) → receive_all as1 w ≡ receive_all as2 w
receive_all-perm Permᴰ.nil w = refl
receive_all-perm (Permᴰ.cons {a = a} {l₁ = l} e d) w =
    ap (λ (x : Answer). receive_all l (receive x.fetched w).1) e ∙ receive_all-perm d _
receive_all-perm (Permᴰ.swap {a = a} {b = b} {a' = c} {l = l} e f) w =
    ap (receive_all l) (receive-swap a.fetched b.fetched w)
    ∙ (ap (λ (x : Answer). receive_all l (receive a.fetched (receive x.fetched w).1).1) f
        ∙ ap (λ (x : Answer). receive_all l (receive x.fetched (receive c.fetched w).1).1) e)
receive_all-perm (Permᴰ.trans d e) w = receive_all-perm d w ∙ receive_all-perm e w

pub All-perm : (P : Answer → Type 0) {as1 as2 : List Answer} → Permᴰ as1 as2 → All P as2 → All P as1
All-perm P Permᴰ.nil h = tt
All-perm P (Permᴰ.cons e d) (p, h) = (subst P (sym e) p, All-perm P d h)
All-perm P (Permᴰ.swap e f) (p, (q, h)) = (subst P (sym e) q, (subst P (sym f) p, h))
All-perm P (Permᴰ.trans d e) h = All-perm P d (All-perm P e h)
