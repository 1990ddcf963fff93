-- ===== src/Page.antt =====
-- A page of frontend/tenant-dashboard/app/: what its `useState` hooks hold, and the browser.
-- A handler runs from its call to its end with no other handler between, unless a page's module
-- says otherwise; what it reads of the state it reads from the render that it was made in, which is
-- then an argument of its own.
use modera_shield.Base.{
  String, false, present, arith, Bool-cases, ◌==◌, Option, some, Result, ok, thrown, M, or_default,
  finally, ◌≡◌, refl, ◌⊎◌, inl, inr,
}
use modera_shield.Client.Browser.{World}

pub record Page (S : Type 0) : Type 0 where
  pub ui : S
  pub world : World

module _ {S : Type 0} where
  abbrev keep_ui : {A : Type 0} → Result A × World → Page S → Result A × Page S
  keep_ui (r, w) p = (r, record p { world = w })

  -- `await apiClient.method(…)`
  abbrev pub on_world : {A : Type 0} → M World A → M (Page S) A
  on_world m p = keep_ui (m p.world) p

  -- The setters of the hooks.
  abbrev pub set_ui : (S → S) → Page S → Page S
  set_ui f p = record p { ui = f p.ui }

  -- A call that only changes the browser.
  abbrev pub set_world : (World → World) → Page S → Page S
  set_world f p = record p { world = f p.world }

  -- An `await` during which the other handlers change the state by `meanwhile`.
  abbrev pub after_await : {A : Type 0} → (S → S) → M (Page S) A → M (Page S) A
  after_await meanwhile m = finally m (set_ui meanwhile)

-- `setError(err.message || fallback)`
abbrev pub error_of : String → String → Option String
error_of message fallback = some (or_default message fallback)

-- The outcome of a call: a value or an error.
pub Result-cases :
    {A : Type 0} (r : Result A)
    → ((a : A) × (r ≡ ok a)) ⊎ ((message : String) × (r ≡ thrown message))
Result-cases (ok a) = inl (a, refl)
Result-cases (thrown message) = inr (message, refl)

-- An API call whose outcome is known, as a step of the page.
pub on_world_lem :
    {S A : Type 0} (m : M World A) (p : Page S) {r : Result A}
    → (m p.world).0 ≡ r
    → on_world m p ≡ (r, record p { world = (m p.world).1 })
on_world_lem m p e = λ i. (e i, record p { world = (m p.world).1 })

-- The text of an error that is shown is never empty.
pub present-error_of :
    (message fallback : String)
    → (fallback == "") ≡ false
    → present (error_of message fallback) ≡ some (or_default message fallback)
present-error_of message fallback h = ground (arith, Bool-cases (message == ""))

pub after_await_lem :
    {S A : Type 0} (meanwhile : S → S) (m : M World A) (p : Page S) {r : Result A}
    → (m p.world).0 ≡ r
    → after_await meanwhile (on_world m) p
      ≡ (r, record { ui = meanwhile p.ui; world = (m p.world).1 })
after_await_lem meanwhile m p e = λ i. (e i, record { ui = meanwhile p.ui; world = (m p.world).1 })
