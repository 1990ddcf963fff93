-- ===== src/Signup/View.antt =====
-- What frontend/tenant-dashboard/app/signup/page.tsx shows; `errors` are the messages beside the
-- fields (`formState.errors`).
use modera_shield.Base.{String, Option, [], ◌∷◌, if◌then◌else◌, present}
use modera_shield.Form.{input, Form}
use modera_shield.Signup.{Ui}

unfoldable pub view : (errors : String → Option String) → Ui → Form
view errors u = record {
  title = "Create your account";
  subtitle = "Start protecting your platform with AI moderation";
  error = present u.api_error;
  inputs =
      input "Full Name" "text" "John Doe" (errors "name")
      ∷ input "Email Address" "email" "developer@company.com" (errors "email")
      ∷ input "Company / Organization" "text" "Acme Inc." (errors "companyName")
      ∷ input "Password" (if u.show_password then "text" else "password") "••••••••••••"
          (errors "password")
      ∷ input "Confirm Password" "password" "••••••••••••" (errors "confirmPassword")
      ∷ input "I agree to the Terms of Service and Privacy Policy." "checkbox" "" (errors "terms")
      ∷ [];
  button = record {
    text = if u.is_loading then "Creating Account..." else "Create Account";
    disabled = u.is_loading;
  };
  other = record { question = "Already have an account?"; href = "/login"; text = "Log in" };
}
