-- ===== src/Login/View.antt =====
-- What frontend/tenant-dashboard/app/login/page.tsx shows.
use modera_shield.Base.{true, none, [], ◌∷◌, if◌then◌else◌, present}
use modera_shield.Form.{Input, input, Form}
use modera_shield.Login.{Ui}

-- An input that is not used yet.
abbrev coming_soon : Input → Input
coming_soon i = record i { disabled = true }

unfoldable pub view : Ui → Form
view u = record {
  title = "Welcome back";
  subtitle = "Sign in to access your ModeraShield developer dashboard";
  error = present u.api_error;
  inputs =
      coming_soon (input "Email Address" "email" "developer@company.com" none)
      ∷ coming_soon (input "Password" "password" "••••••••••••" none)
      ∷ (record (input "API Key" "text" "msk_..." u.key_error) { required = true })
      ∷ [];
  button = record {
    text = if u.is_loading then "Verifying Key..." else "Sign In with API Key";
    disabled = u.is_loading;
  };
  other = record { question = "Don't have an account?"; href = "/signup"; text = "Sign up" };
}
