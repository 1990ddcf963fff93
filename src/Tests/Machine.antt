-- ===== src/Tests/Machine.antt =====
-- The pages together: a sign-in, a sign-up, and the guard of the pages after them.
use modera_shield.Base.{
  String, ok, true, none, some, [], ◌∷◌, ◌≡◌, ◌⊎◌, refl, ◌==◌, if◌then◌else◌, trim,
}
use modera_shield.Client.Browser.{
  visit, get_item, get_stored_api_key, set_stored_api_key, get_stored_tenant, set_stored_tenant,
}
use modera_shield.Client.Http.{receive}
use modera_shield.Client.Session.{get_stored_tenant-set}
use modera_shield.Client.Types.{detail, tenant_info, ModerationResultResponse}
use modera_shield.Client.Http.{prepare, get_header, no_options, replied, malformed}
use modera_shield.Client.Api.{Connection, test_connection, verify_path, key_options}
use modera_shield.Client.Requests.{answer}
use modera_shield.Client.Refines.{
  sets_key, sets_tenant, perform_all, change_all, session_of, tenant_in, perform_all-change_all,
}
use modera_shield.App.Overlap.{
  checking, concluded, check_session-while_checking, receive-stale_denial,
}
use modera_shield.App.SignIn.{Move, IsTrusted}
use modera_shield.App.Acts.{Act, logs_in, act, page}
use modera_shield.App.Machine.{act-Move, Reach, here, next, check_session-IsTrusted}
use modera_shield.Login
use modera_shield.Page.{Page}
use modera_shield.Signup
use modera_shield.Sidebar
use modera_shield.Tests.{serving, denying, visitor, member, reply}

abbrev signs_in : Act
signs_in = logs_in "msk_new" Login.initial

act-Move_example :
    Move
      (serving 0)
      (get_stored_api_key visitor)
      (get_stored_api_key (act (serving 0) signs_in visitor))
act-Move_example = act-Move (serving 0) visitor signs_in refl

signed_in-Reach : Reach (serving 0) visitor (act (serving 0) signs_in visitor)
signed_in-Reach = next signs_in here refl

check_session-IsTrusted_example :
    ((Sidebar.check_session (page Sidebar.initial (act (serving 0) signs_in visitor))).world
      ≡ visit "/login" (act (serving 0) signs_in visitor))
    ⊎ ((key : String) × ((Sidebar.check_session
            (page Sidebar.initial (act (serving 0) signs_in visitor))).world
          ≡ act (serving 0) signs_in visitor)
        × (get_stored_api_key (act (serving 0) signs_in visitor) ≡ some key)
        × IsTrusted (serving 0) key)
unfolding get_stored_api_key get_item
check_session-IsTrusted_example =
    check_session-IsTrusted (serving 0) visitor (act (serving 0) signs_in visitor) Sidebar.initial
      refl refl signed_in-Reach

abbrev values : Signup.Values
values = record {
  name = "Ada";
  email = "ada@acme.example";
  company_name = "Acme & Sons";
  password = "correct horse";
  confirm_password = "correct horse";
  terms = true;
}

get_stored_tenant-set_example :
    (get_stored_tenant (set_stored_tenant "t1" "Acme" visitor) ≡ (
      if "t1" == ""
      then none
      else (if "Acme" == "" then none else some (record { id = "t1"; name = "Acme" }))))
    × (get_stored_api_key (set_stored_tenant "t1" "Acme" visitor) ≡ get_stored_api_key visitor)
get_stored_tenant-set_example = get_stored_tenant-set "t1" "Acme" visitor refl

-- The session after a sign-in.
perform_all-change_all_example :
    (session_of (perform_all (sets_key "msk_new" ∷ sets_tenant "t1" "Acme" ∷ []) visitor)
      ≡ change_all (sets_key "msk_new" ∷ sets_tenant "t1" "Acme" ∷ []) (session_of visitor))
    × (get_stored_api_key (perform_all (sets_key "msk_new" ∷ sets_tenant "t1" "Acme" ∷ []) visitor)
        ≡ (change_all (sets_key "msk_new" ∷ sets_tenant "t1" "Acme" ∷ []) (session_of visitor)).key)
    × (get_stored_tenant (perform_all (sets_key "msk_new" ∷ sets_tenant "t1" "Acme" ∷ []) visitor)
        ≡ tenant_in
            (change_all (sets_key "msk_new" ∷ sets_tenant "t1" "Acme" ∷ []) (session_of visitor)))
perform_all-change_all_example =
    perform_all-change_all (sets_key "msk_new" ∷ sets_tenant "t1" "Acme" ∷ []) visitor refl

abbrev guessing : Page Login.Ui
guessing = page Login.initial visitor

check_session-while_checking_example :
    ((Sidebar.check_session (record {
      ui = Sidebar.initial;
      world = checking (denying 401) (trim " msk_guess ") guessing.world;
    })).world
      ≡ checking (denying 401) (trim " msk_guess ") guessing.world)
    × (get_stored_api_key (checking (denying 401) (trim " msk_guess ") guessing.world)
        ≡ some (trim " msk_guess "))
    × ((c : Connection) × ((test_connection
            (denying 401)
            (some (trim " msk_guess "))
            (set_stored_api_key (trim " msk_guess ") guessing.world)).0
          ≡ ok c)
        × ((Login.on_submit (denying 401) " msk_guess " guessing).1.world
            ≡ concluded c
                (receive
                  (answer
                    (denying 401)
                    tenant_info
                    verify_path
                    (key_options (trim " msk_guess "))
                    (set_stored_api_key (trim " msk_guess ") guessing.world))
                  (checking (denying 401) (trim " msk_guess ") guessing.world)).1))
unfolding trim
check_session-while_checking_example =
    check_session-while_checking (denying 401) " msk_guess " guessing Sidebar.initial refl refl

-- A member's request that is denied after another key was stored.
receive-stale_denial_example :
    (get_header "X-API-Key" (prepare (denying 401) "/moderate/Req-2" no_options member).headers
      ≡ some "msk_live")
    × (get_stored_api_key
          (receive {A = ModerationResultResponse}
            (replied (reply 401 (malformed "no JSON")))
            (set_stored_api_key "msk_new" member)).1
        ≡ none)
    × (get_stored_tenant
          (receive {A = ModerationResultResponse}
            (replied (reply 401 (malformed "no JSON")))
            (set_stored_api_key "msk_new" member)).1
        ≡ none)
    × ((receive {A = ModerationResultResponse}
          (replied (reply 401 (malformed "no JSON")))
          (set_stored_api_key "msk_new" member)).1.visited
        ≡ "/login?error=session_expired" ∷ (set_stored_api_key "msk_new" member).visited)
unfolding get_stored_api_key get_item set_stored_api_key
receive-stale_denial_example =
    receive-stale_denial (denying 401) detail "/moderate/Req-2" no_options member
      (set_stored_api_key "msk_new" member) "msk_live" (reply 401 (malformed "no JSON")) refl refl
      refl
