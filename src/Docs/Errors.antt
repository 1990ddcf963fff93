-- ===== src/Docs/Errors.antt =====
-- The table of the errors in frontend/tenant-dashboard/app/docs/page.tsx against what the client of
-- frontend/tenant-dashboard/lib/api/client.ts does on each status of it.
use Prim.Native.Char.{code}
use modera_shield.Base.{
  ℕ, ◌+◌, ◌-◌, ◌*◌, String, true, false, Option, none, some, List, [], ◌∷◌, ◌≡◌, refl, ◌∙◌, ◌⊎◌,
  sym, All, arith, thrown, ◌==◌, nat_eq, if◌then◌else◌, Bool-cases, inl, inr,
}
use modera_shield.Client.Types.{ReplyType, Reply}
use modera_shield.Client.Browser.{World, send, visit, remove_stored_api_key}
use modera_shield.Client.Http.{
  Env, Options, Response, replied, receive, request, prepare, is_ok, is_denied, expire_session,
}
use modera_shield.Client.Requests.{answer}
use modera_shield.Docs.Reference.{ErrorRow, error_rows}

-- The status that a row's first three digits write.
abbrev status_of : String → ℕ
status_of (String.◌∷◌ a (String.◌∷◌ b (String.◌∷◌ c rest))) =
    (code a - 48) * 100 + (code b - 48) * 10 + (code c - 48)
status_of _ = 0

-- The row of a status.
unfoldable pub row_of : ℕ → List ErrorRow → Option ErrorRow
row_of status [] = none
row_of status (row ∷ rows) =
    if nat_eq (status_of row.http_code) status then some row else row_of status rows

-- The first row has the status, or the search goes on.
row_of-cases :
    (status : ℕ) (first row : ErrorRow) (rows : List ErrorRow)
    → row_of status (first ∷ rows) ≡ some row
    → ((nat_eq (status_of first.http_code) status ≡ true) × (first ≡ row))
      ⊎ (row_of status rows ≡ some row)
unfolding row_of
row_of-cases status first row rows e =
    elim (Bool-cases (nat_eq (status_of first.http_code) status)) [
      | inl h ↦ let f : some first ≡ some row = (rw h at e) in inl (h, cc)
      | inr h ↦ inr (rw h at e)
    ]

-- A row tells whether its status denies the access.
abbrev Tells : ErrorRow → Type 0
Tells row =
    (status : ℕ)
    → nat_eq (status_of row.http_code) status ≡ true
    → is_denied status ≡ (row.name == "AuthenticationError")

row_of-Tells :
    (status : ℕ) (row : ErrorRow) (rows : List ErrorRow)
    → All Tells rows
    → row_of status rows ≡ some row
    → is_denied status ≡ (row.name == "AuthenticationError")
unfolding row_of
row_of-Tells status row [] told e = cc
row_of-Tells status row (first ∷ rows) (tells, told) e =
    elim (row_of-cases status first row rows e) [
      | inl (h, same) ↦ rw (sym same) (tells status h)
      | inr rest ↦ row_of-Tells status row rows told rest
    ]

error_rows-Tells : All Tells error_rows
error_rows-Tells = (
  λ s h. ground arith,
  (λ s h. ground arith, (λ s h. ground arith, (λ s h. ground arith, (λ s h. ground arith, tt)))),
)

row_of_lem :
    (status : ℕ) (row : ErrorRow)
    → row_of status error_rows ≡ some row
    → (is_ok status ≡ false) × (is_denied status ≡ (row.name == "AuthenticationError"))
unfolding row_of
row_of_lem status row e = (ground arith, row_of-Tells status row error_rows error_rows-Tells e)

receive-refused :
    {A : Type 0} (r : Response A) (w : World)
    → is_ok r.status ≡ false
    → ((message : String) × ((receive (replied r) w).0 ≡ thrown message))
      × ((receive (replied r) w).1 ≡ (if is_denied r.status then expire_session w else w))
unfolding receive
receive-refused r w h = rw h ((_, refl), refl)

-- In the browser, an answer with the status of a row of the table makes the call of the client
-- throw. It ends the session and sends the browser to the login page if the row is the one of
-- "AuthenticationError", and leaves the browser as it was but for the record of the request if it is another.
pub request-documented :
    (env : Env) (t : ReplyType) (path : String) (options : Options) (w : World)
    → (r : Response (Reply t)) (row : ErrorRow) → w.browser ≡ true
    → answer env t path options w ≡ replied r
    → row_of r.status error_rows ≡ some row
    → ((message : String) × ((request env t path options w).0 ≡ thrown message))
      × ((request env t path options w).1 ≡ (
          if row.name == "AuthenticationError"
          then visit "/login?error=session_expired"
              (remove_stored_api_key (send (prepare env path options w) w))
          else send (prepare env path options w) w))
unfolding request expire_session
request-documented env t path options w r row b e h =
    let (refused, told) = row_of_lem r.status row h in
    let (throws, left) = receive-refused r (send (prepare env path options w) w) refused in
    rw e (throws, left ∙ rw (told, b) refl)
