-- ===== src/ApiKeys/Creation.antt =====
-- What handleCreateKey leaves of the page's state
-- (frontend/tenant-dashboard/app/dashboard/api-keys/page.tsx).
use modera_shield.Base.{String, true, false, some, thrown, ◌≡◌, refl, arith, ok, ◌==◌, trim}
use modera_shield.Client.Types.{ApiKeyCreatedResponse}
use modera_shield.Client.Http.{Env}
use modera_shield.Client.Api.{create_api_key, list_api_keys}
use modera_shield.Page.{Page, set_ui, on_world, after_await, after_await_lem}
use modera_shield.ApiKeys.{Ui, active_tenant, handle_create_key, fetch_keys}
use modera_shield.ApiKeys.View.{secret, dialog}

module _ (env : Env) (now : String) (meanwhile : Ui → Ui) (name : String) (p : Page Ui)
    (named : (trim name == "") ≡ false) where
  abbrev creating : Ui
  creating = record p.ui { is_creating = true }

  module _ (key : ApiKeyCreatedResponse)
      (created : (create_api_key env (active_tenant p.world).id (trim name) p.world).0
        ≡ ok key) where
    create_lem :
        after_await meanwhile
          (on_world (create_api_key env (active_tenant p.world).id (trim name)))
          (set_ui (λ u. record u { is_creating = true }) p)
        ≡ (
          ok key,
          record {
            ui = meanwhile creating;
            world = (create_api_key env (active_tenant p.world).id (trim name) p.world).1;
          },
        )
    create_lem =
        after_await_lem meanwhile (create_api_key env (active_tenant p.world).id (trim name))
          (set_ui (λ u. record u { is_creating = true }) p) created

    -- The fields that a successful creation leaves.
    pub handle_create_key-fields :
        ((handle_create_key env now meanwhile name p).1.ui.show_create_modal
          ≡ (meanwhile creating).show_create_modal)
        × ((handle_create_key env now meanwhile name p).1.ui.created_key_data ≡ some key)
        × ((handle_create_key env now meanwhile name p).1.ui.is_copied
            ≡ (meanwhile creating).is_copied)
        × ((handle_create_key env now meanwhile name p).1.ui.new_key_name ≡ "")
        × ((handle_create_key env now meanwhile name p).1.ui.is_creating ≡ false)
    unfolding handle_create_key fetch_keys list_api_keys
    handle_create_key-fields = rw (named, create_lem) (refl, refl, refl, refl, refl)

    -- A key that is created under a name that is not blank, while the dialog stays open, is shown in
    -- it; the name is cleared and the button is enabled again.
    handle_create_key-shows :
        (meanwhile creating).show_create_modal ≡ true
        → (dialog (handle_create_key env now meanwhile name p).1.ui
            ≡ secret key.key (meanwhile creating).is_copied)
          × ((handle_create_key env now meanwhile name p).1.ui.new_key_name ≡ "")
          × ((handle_create_key env now meanwhile name p).1.ui.is_creating ≡ false)
    unfolding dialog
    handle_create_key-shows h =
        let (shown, data_set, copied, cleared, idle) = handle_create_key-fields in
        (ground arith, cleared, idle)

  pub create_failed_lem :
      {message : String}
      → (create_api_key env (active_tenant p.world).id (trim name) p.world).0 ≡ thrown message
      → ((handle_create_key env now meanwhile name p).1.ui.show_create_modal
          ≡ (meanwhile creating).show_create_modal)
        × ((handle_create_key env now meanwhile name p).1.ui.created_key_data
            ≡ (meanwhile creating).created_key_data)
  unfolding handle_create_key
  create_failed_lem failed =
      rw
        (
          named,
          after_await_lem meanwhile (create_api_key env (active_tenant p.world).id (trim name))
              (set_ui (λ u. record u { is_creating = true }) p) failed,
        )
        (refl, refl)
