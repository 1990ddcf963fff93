-- ===== src/Signup/Messages.antt =====
-- The messages of `signupSchema` in frontend/tenant-dashboard/app/signup/page.tsx: the issues that
-- the schema raises on values, and the messages beside the fields.
-- `zod` collects the issues of the fields and of the passwords together; which issue of a field its
-- resolver passes on to the form is the argument `resolve`.
use modera_shield.Base.{
  text_length, String, Bool, true, false, not, ◌&&◌, ◌||◌, Option, none, some, List, [], ◌∷◌, any,
  All, ◌≡◌, refl, ◌↔◌, arith, leb, ◌==◌, Bool-cases, inl, inr,
}
use modera_shield.Form.{Input}
use modera_shield.Signup.{Values, Ui, signup_schema}
use modera_shield.Signup.View.{view}

pub record Issue : Type 0 where
  pub path : String
  pub message : String

-- The issue of a check, unless the check holds.
abbrev check : Bool → String → String → List Issue → List Issue
check true path message issues = issues
check false path message issues = record { path = path; message = message } ∷ issues

pub issues_of : (String → Bool) → Values → List Issue
issues_of is_email v =
    check (leb 2 (text_length v.name)) "name" "Name must be at least 2 characters" (
      check (is_email v.email) "email" "Please enter a valid email address" (
        check (leb 2 (text_length v.company_name)) "companyName"
          "Company name must be at least 2 characters"
          (check (leb 8 (text_length v.password)) "password"
            "Password must be at least 8 characters"
            (check (leb 8 (text_length v.confirm_password)) "confirmPassword"
              "Password confirmation is required"
              (check v.terms "terms" "You must accept the terms and conditions" (
                check (v.password == v.confirm_password) "confirmPassword" "Passwords do not match"
                  []))))))

abbrev pub concerns : String → List Issue → Bool
concerns field issues = any (λ (i : Issue). i.path == field) issues

-- The resolver passes an issue of a field on exactly when the field has one.
pub record Resolves (resolve : List Issue → String → Option String) : Type 0 where
  pub silent :
      (issues : List Issue) (field : String)
      → concerns field issues ≡ false
      → resolve issues field ≡ none
  pub tells :
      (issues : List Issue) (field : String)
      → concerns field issues ≡ true
      → (message : String) × (resolve issues field ≡ some message)

abbrev pub Silent : Input → Type 0
Silent i = i.message ≡ none

concerns-check :
    (field : String) (b : Bool) (path message : String) (issues : List Issue)
    → concerns field (check b path message issues)
      ≡ ((not b && (path == field)) || concerns field issues)
concerns-check field true path message issues = refl
concerns-check field false path message issues = refl

and_true : (b : Bool) → (b && true) ≡ b
and_true true = refl
and_true false = refl

and_false : (b : Bool) → (b && false) ≡ false
and_false true = refl
and_false false = refl

or_false : (b : Bool) → (b || false) ≡ b
or_false true = refl
or_false false = refl

ruleset issue_rules = (concerns-check, and_true, and_false, or_false)

module _ (is_email : String → Bool) (v : Values) where
  -- Which checks a field has.
  concerns-issues_of :
      (concerns "name" (issues_of is_email v) ≡ not (leb 2 (text_length v.name)))
      × (concerns "email" (issues_of is_email v) ≡ not (is_email v.email))
      × (concerns "companyName" (issues_of is_email v) ≡ not (leb 2 (text_length v.company_name)))
      × (concerns "password" (issues_of is_email v) ≡ not (leb 8 (text_length v.password)))
      × (concerns "confirmPassword" (issues_of is_email v) ≡ (
          not (leb 8 (text_length v.confirm_password)) || not (v.password == v.confirm_password)))
      × (concerns "terms" (issues_of is_email v) ≡ not v.terms)
  unfolding issues_of
  concerns-issues_of = (
    simp issue_rules,
    simp issue_rules,
    simp issue_rules,
    simp issue_rules,
    simp issue_rules,
    simp issue_rules,
  )

-- A field with no message has no issue.
quiet :
    (resolve : List Issue → String → Option String)
    → Resolves resolve
    → (issues : List Issue) (field : String) → resolve issues field ≡ none
    → concerns field issues ≡ false
quiet resolve r issues field e = elim (Bool-cases (concerns field issues)) [
  | inl h ↦ let (message, f) = r.tells issues field h in cc
  | inr h ↦ h
]

-- With a resolver of that kind, the form shows no message beside any field exactly when the schema
-- accepts the values, which is when they are submitted.
pub view-Silent_iff :
    (resolve : List Issue → String → Option String)
    → Resolves resolve
    → (is_email : String → Bool) (v : Values) (u : Ui)
    → All Silent (view (resolve (issues_of is_email v)) u).inputs
      ↔ (signup_schema is_email v ≡ true)
unfolding view issues_of signup_schema
view-Silent_iff resolve r is_email v u =
    let (n, e, c, p, q, t) = concerns-issues_of is_email v in
    let issues = issues_of is_email v in
    let loud = quiet resolve r issues in
    (
      λ (name, (email, (company, (password, (confirmation, (terms, last)))))). ground (
        arith,
        n,
        e,
        c,
        p,
        q,
        t,
        loud "name" name,
        loud "email" email,
        loud "companyName" company,
        loud "password" password,
        loud "confirmPassword" confirmation,
        loud "terms" terms,
      ),
      λ h. (
        r.silent issues "name" (ground (arith, n, h)),
        (
          r.silent issues "email" (ground (arith, e, h)),
          (
            r.silent issues "companyName" (ground (arith, c, h)),
            (
              r.silent issues "password" (ground (arith, p, h)),
              (
                r.silent issues "confirmPassword" (ground (arith, q, h)),
                (r.silent issues "terms" (ground (arith, t, h)), tt),
              ),
            ),
          ),
        ),
      ),
    )
