-- ===== src/Tests/Guides.antt =====
-- The pages that document the API, the rules, the form of a sign-up and the settings.
use modera_shield.Base.{
  Bool-cases, inl, inr, Bool, String, true, false, none, some, Option, List, [], ◌∷◌, All, any, ◌≡◌,
  ◌↔◌, refl, thrown, ◌==◌, if◌then◌else◌, includes,
}
use modera_shield.Client.Types.{detail}
use modera_shield.Client.Browser.{get_item, get_stored_api_key, visit, send, remove_stored_api_key}
use modera_shield.Client.Http.{no_options, request, prepare, malformed}
use modera_shield.Client.Api.{create_moderation_request}
use modera_shield.Docs.View.{user_api_key}
use modera_shield.Docs.Reference.{curl_example, ErrorRow}
use modera_shield.Docs.Laws.{curl_of, moderation, curl_example-sent}
use modera_shield.Docs.Errors.{row_of, request-documented}
use modera_shield.Rules.Laws.{breaks_rule, offline_result-breaks_rule}
use modera_shield.Landing.{offline_result}
use modera_shield.Signup
use modera_shield.Signup.Messages.{Issue, issues_of, concerns, Resolves, Silent, view-Silent_iff}
use modera_shield.Signup.View as SignupView
use modera_shield.Tests.{serving, denying, member, reply}

curl_example-sent_example :
    (curl_example (user_api_key member)
      ≡ curl_of (moderation (serving 0) "Text to moderate" member))
    × ((create_moderation_request (serving 0) "Text to moderate" member).1.sent
        ≡ moderation (serving 0) "Text to moderate" member ∷ [])
unfolding get_stored_api_key get_item
curl_example-sent_example = curl_example-sent (serving 0) member "msk_live" refl refl refl

abbrev unauthorized : ErrorRow
unauthorized = record {
  http_code = "401 Unauthorized";
  name = "AuthenticationError";
  description = "The provided `X-API-Key` is missing, invalid, or revoked.";
}

request-documented_example :
    ((message : String) × ((request (denying 401) detail "/moderate/Req-2" no_options member).0
        ≡ thrown message))
    × ((request (denying 401) detail "/moderate/Req-2" no_options member).1 ≡ (
        if "AuthenticationError" == "AuthenticationError"
        then visit "/login?error=session_expired" (
            remove_stored_api_key
              (send (prepare (denying 401) "/moderate/Req-2" no_options member) member))
        else send (prepare (denying 401) "/moderate/Req-2" no_options member) member))
unfolding row_of
request-documented_example =
    request-documented (denying 401) detail "/moderate/Req-2" no_options member
      (reply 401 (malformed "no JSON")) unauthorized refl refl refl

offline_result-breaks_rule_example :
    any breaks_rule (offline_result "I will hunt you down and destroy you.").scores
    ≡ ((offline_result "I will hunt you down and destroy you.").status == "flagged")
offline_result-breaks_rule_example =
    offline_result-breaks_rule "I will hunt you down and destroy you."

-- A resolver that passes on the first issue of a field.
abbrev first_issue : List Issue → String → Option String
first_issue [] field = none
first_issue (i ∷ issues) field =
    if i.path == field then some i.message else first_issue issues field

first_issue-silent :
    (issues : List Issue) (field : String)
    → concerns field issues ≡ false
    → first_issue issues field ≡ none
first_issue-silent [] field h = refl
first_issue-silent (i ∷ issues) field h = elim (Bool-cases (i.path == field)) [
  | inl e ↦ let f : true ≡ false = (rw e at h) in cc
  | inr e ↦
      let g : concerns field issues ≡ false = (rw e at h) in
      rw e (first_issue-silent issues field g)
]

first_issue-tells :
    (issues : List Issue) (field : String)
    → concerns field issues ≡ true
    → (message : String) × (first_issue issues field ≡ some message)
first_issue-tells [] field h = cc
first_issue-tells (i ∷ issues) field h = elim (Bool-cases (i.path == field)) [
  | inl e ↦ (i.message, rw e refl)
  | inr e ↦
      let g : concerns field issues ≡ true = (rw e at h) in rw e (first_issue-tells issues field g)
]

first_issue-Resolves : Resolves first_issue
first_issue-Resolves = record { silent = first_issue-silent; tells = first_issue-tells }

abbrev any_address : String → Bool
any_address s = includes s "@"

abbrev typo : Signup.Values
typo = record {
  name = "Ada";
  email = "ada@acme.example";
  company_name = "Acme";
  password = "correct horse";
  confirm_password = "correct house";
  terms = true;
}

view-Silent_iff_example :
    All Silent (SignupView.view (first_issue (issues_of any_address typo)) Signup.initial).inputs
    ↔ (Signup.signup_schema any_address typo ≡ true)
view-Silent_iff_example =
    view-Silent_iff first_issue first_issue-Resolves any_address typo Signup.initial
