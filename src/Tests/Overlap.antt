-- ===== src/Tests/Overlap.antt =====
-- Handlers that follow one another, and what they leave.
use modera_shield.Base.{true, refl}
use modera_shield.App.Acts.{Act, logs_in, act}
use modera_shield.App.Machine.{Reach, here, next}
use modera_shield.App.Visits.{OnSite, Reach-OnSite}
use modera_shield.Login
use modera_shield.Signup
use modera_shield.Tests.{serving, visitor}

-- A user signs in, and then the pages of the dashboard read the browser.
abbrev signs_in : Act
signs_in = logs_in "msk_new" Login.initial

signed_in-Reach : Reach (serving 0) visitor (act (serving 0) signs_in visitor)
signed_in-Reach = next signs_in here refl

abbrev values : Signup.Values
values = record {
  name = "Ada";
  email = "ada@acme.example";
  company_name = "Acme";
  password = "correct horse";
  confirm_password = "correct horse";
  terms = true;
}

Reach-OnSite_example : OnSite (act (serving 0) signs_in visitor)
Reach-OnSite_example =
    Reach-OnSite (serving 0) visitor (act (serving 0) signs_in visitor) refl
      (record { on_site = tt }) signed_in-Reach
