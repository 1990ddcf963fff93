-- ===== src/ForgotPassword.antt =====
-- frontend/tenant-dashboard/app/forgot-password/page.tsx: the form for a lost password. The pause of
-- a second stands for the request that the page does not send. The test of e-mail addresses is
-- `zod`'s and an argument, `is_email`; the message that stands beside the field is an argument of
-- the view.
use modera_shield.Base.{
  String, Bool, true, false, none, Option, [], ◌∷◌, if◌then◌else◌, ◌≡◌, refl, Bool-cases, inl, inr,
}
use modera_shield.Form.{input, Form}

pub record Ui : Type 0 where
  pub is_loading : Bool
  pub is_sent : Bool

abbrev initial : Ui
initial = record { is_loading = false; is_sent = false }

-- `onSubmit` up to the pause, and after it.
begin_submit : Ui → Ui
begin_submit u = record u { is_loading = true }

end_submit : Ui → Ui
end_submit u = record u { is_loading = false; is_sent = true }

unfoldable on_submit : Ui → Ui
unfolding begin_submit end_submit
on_submit u = end_submit (begin_submit u)

-- `handleSubmit(onSubmit)`, with the one check of `forgotSchema`.
unfoldable submit : (is_email : String → Bool) → String → Ui → Ui
unfolding on_submit
submit is_email email u = if is_email email then on_submit u else u

pub record Notice : Type 0 where
  pub badge : String
  pub text : String
  pub href : String
  pub link : String

-- The form, or the message that a link was sent.
pub data View : Type 0 where
  form : Form → View
  link_sent : Notice → View

unfoldable view : (error : Option String) → Ui → View
view error u =
    if u.is_sent
    then link_sent (record {
      badge = "Recovery link sent!";
      text =
          "If an account exists with that email address, you will receive instructions on how to reset your password shortly.";
      href = "/login";
      link = "Back to Login";
    })
    else form (record {
      title = "Reset your password";
      subtitle = "We will send you an email with password recovery details";
      error = none;
      inputs = input "Email Address" "email" "developer@company.com" error ∷ [];
      button = record {
        text = if u.is_loading then "Sending Link..." else "Send Reset Link";
        disabled = u.is_loading;
      };
      other = record { question = ""; href = "/login"; text = "Back to Login" };
    })

-- The page tells that a link was sent after the submission of an address that the schema accepts,
-- and only then.
submit-sent :
    (is_email : String → Bool) (email : String) (u : Ui)
    → u.is_sent ≡ false
    → (submit is_email email u).is_sent ≡ is_email email
unfolding submit
submit-sent is_email email u e = elim (Bool-cases (is_email email)) [
  | inl h ↦ rw h refl
  | inr h ↦ rw h e
]
