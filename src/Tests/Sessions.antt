-- ===== src/Tests/Sessions.antt =====
-- Signing in and out, and the bars around each page.
use modera_shield.Base.{String, none, some, [], ◌∷◌, ◌≡◌, refl, trim}
use modera_shield.Client.Types.{tenant_info}
use modera_shield.Client.Browser.{World, get_stored_api_key, set_stored_api_key, get_stored_tenant}
use modera_shield.Client.Http.{receive, request}
use modera_shield.Client.Api.{test_connection, failed_connection, verified}
use modera_shield.Page.{Page}
use modera_shield.Login
use modera_shield.Login.Laws.{on_submit-accepted, on_submit-rejected}
use modera_shield.Sidebar.{NavRow, check_session, handle_logout, with_tenant}
use modera_shield.Sidebar
use modera_shield.Tests.{serving, denying, visitor, member, sample, page_of}

abbrev login : World → Page Login.Ui
login w = page_of Login.initial w

on_submit-accepted_example :
    (get_stored_api_key (Login.on_submit (serving 0) " msk_new " (login visitor)).1.world
      ≡ some "msk_new")
    × ((Login.on_submit (serving 0) " msk_new " (login visitor)).1.world.visited
        ≡ "/dashboard" ∷ [])
    × ((Login.on_submit (serving 0) " msk_new " (login visitor)).1.ui.api_error ≡ none)
unfolding trim test_connection set_stored_api_key request receive
on_submit-accepted_example =
    on_submit-accepted (serving 0) " msk_new " (login visitor)
      (verified (sample "approved" tenant_info)) refl refl refl refl

on_submit-rejected_example :
    (get_stored_api_key (Login.on_submit (denying 500) "msk_new" (login member)).1.world ≡ none)
    × (get_stored_tenant (Login.on_submit (denying 500) "msk_new" (login member)).1.world ≡ none)
    × ((message : String) × ((Login.on_submit (denying 500) "msk_new" (login member)).1.ui.api_error
          ≡ some message))
unfolding trim test_connection set_stored_api_key request receive
on_submit-rejected_example =
    on_submit-rejected (denying 500) "msk_new" (login member) (failed_connection "refused") refl
      refl refl refl

abbrev sidebar : World → Page Sidebar.Ui
sidebar w = page_of Sidebar.initial w
