-- ===== src/ApiKeys/SessionKey.antt =====
-- What the page of the keys lists, and what a revocation does
-- (frontend/tenant-dashboard/app/dashboard/api-keys/page.tsx).
use modera_shield.Base.{String, none, some, [], ◌∷◌, ◌≡◌, refl, ok, present}
use modera_shield.Client.Types.{ApiKeyResponse}
use modera_shield.Client.Browser.{get_stored_api_key}
use modera_shield.Client.Http.{Env}
use modera_shield.Client.Api.{list_api_keys, revoke_api_key}
use modera_shield.Page.{Page}
use modera_shield.ApiKeys.{Ui, session_entry, fetch_keys, handle_revoke_key, alert}
use modera_shield.ApiKeys.View.{no_keys, table, row, view}

-- `fetchKeys` never fails and asks the backend nothing: whatever was on the page, it lists the key
-- of the session alone, or no key where there is none.
fetch_keys-lists_session :
    (now : String) (p : Page Ui)
    → ((fetch_keys now p).0 ≡ ok tt)
      × ((fetch_keys now p).1.world ≡ p.world)
      × ((present (get_stored_api_key p.world) ≡ none
          → (view (fetch_keys now p).1.ui).listing ≡ no_keys))
      × ((key : String)
          → present (get_stored_api_key p.world) ≡ some key
          → (view (fetch_keys now p).1.ui).listing ≡ table (row (session_entry now) ∷ []))
unfolding fetch_keys view list_api_keys
fetch_keys-lists_session now p = (refl, refl, λ e. rw e, λ key e. rw e)

-- A revocation that the user confirms revokes nothing: no request is sent and the list stays, but
-- an alert says so and the question is closed.
handle_revoke_key-revokes_nothing :
    (env : Env) (now : String) (key : ApiKeyResponse) (p : Page Ui)
    → ((handle_revoke_key env now (some key) p).1.world
        ≡ alert "API key revocation is not supported by the backend." p.world)
      × ((handle_revoke_key env now (some key) p).1.ui.keys ≡ p.ui.keys)
      × ((view (handle_revoke_key env now (some key) p).1.ui).revoke ≡ none)
unfolding handle_revoke_key revoke_api_key view
handle_revoke_key-revokes_nothing env now key p = (refl, refl, refl)
