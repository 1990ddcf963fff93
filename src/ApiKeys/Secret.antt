-- ===== src/ApiKeys/Secret.antt =====
-- The secret of a new key, which the page shows once
-- (frontend/tenant-dashboard/app/dashboard/api-keys/page.tsx).
use modera_shield.Base.{
  String, Bool, true, false, none, some, List, [], ◌∷◌, Option, sym, ap, Bool-cases, Option-cases,
  ◌≡◌, refl, ◌≢◌, ◌⊎◌, inl, inr, ◌∙◌, arith, ok, ◌==◌, trim,
}
use modera_shield.Client.Types.{ApiKeyResponse, ApiKeyCreatedResponse}
use modera_shield.Client.Browser.{World}
use modera_shield.Client.Http.{Env}
use modera_shield.Client.Api.{create_api_key, list_api_keys, revoke_api_key}
use modera_shield.Page.{Page, set_ui, Result-cases}
use modera_shield.ApiKeys.{
  Ui, active_tenant, handle_create_key, fetch_keys, open_create, close_create, done_create,
  ask_revoke, cancel_revoke, type_name, handle_copy_key, copy_key, handle_revoke_key,
}
use modera_shield.ApiKeys.Creation.{handle_create_key-fields, create_failed_lem}
use modera_shield.ApiKeys.View.{secret, dialog}

-- The buttons and inputs of the page that change its state at once.
pub data Local : Type 0 where
  opens closes dones cancels copies : Local
  asks : ApiKeyResponse → Local
  types : String → Local

abbrev press_local : Local → Page Ui → Page Ui
press_local opens p = set_ui open_create p
press_local closes p = set_ui close_create p
press_local dones p = set_ui done_create p
press_local cancels p = set_ui cancel_revoke p
press_local copies p = handle_copy_key p
press_local (asks key) p = set_ui (ask_revoke key) p
press_local (types text) p = set_ui (type_name text) p

-- What these do to the page's state, the browser apart.
abbrev meanwhile_of : World → List Local → Ui → Ui
meanwhile_of w [] u = u
meanwhile_of w (b ∷ bs) u = meanwhile_of w bs (press_local b (record { ui = u; world = w })).ui

-- All of them: also "Generate Key", with the name that the input holds and what is pressed while the
-- backend makes the key, "Revoke Key", of the key that the question is about, and "Retry".
pub data Button : Type 0 where
  local : Local → Button
  generates : (name : String) (during : List Local) → Button
  revokes : Option ApiKeyResponse → Button
  retries : Button

-- The secret cannot be seen: the dialog is closed, or it has none or another one.
abbrev Without : String → Ui → Type 0
Without key u =
    (u.show_create_modal ≡ false)
    ⊎ ((k : ApiKeyCreatedResponse) → u.created_key_data ≡ some k → k.key ≢ key)

dialog-Without :
    (u : Ui) (key : String) (copied : Bool) → Without key u → dialog u ≢ secret key copied
unfolding dialog
dialog-Without u key copied (inl e) d = ground (arith, e, d)
dialog-Without u key copied (inr h) d = elim (Option-cases u.created_key_data) [
  | inl e ↦ ground (arith, e, d)
  | inr (k, e) ↦ h k e (ground (arith, e, d))
]

Without-same :
    (key : String) (u v : Ui)
    → v.show_create_modal ≡ u.show_create_modal
    → v.created_key_data ≡ u.created_key_data
    → Without key u
    → Without key v
Without-same key u v e f (inl h) = inl (e ∙ h)
Without-same key u v e f (inr h) = inr (λ k g. h k (sym f ∙ g))

copied_same :
    (o : Option ApiKeyCreatedResponse) (p : Page Ui)
    → ((copy_key o p).ui.show_create_modal ≡ p.ui.show_create_modal)
      × ((copy_key o p).ui.created_key_data ≡ p.ui.created_key_data)
copied_same none p = (refl, refl)
copied_same (some key) p = (refl, refl)

press_local-Without :
    (key : String) (b : Local) (p : Page Ui) → Without key p.ui → Without key (press_local b p).ui
unfolding open_create close_create done_create cancel_revoke ask_revoke type_name handle_copy_key
press_local-Without key opens p h = inr (λ k e. cc)
press_local-Without key closes p h = inl refl
press_local-Without key dones p h = inl refl
press_local-Without key cancels p h = h
press_local-Without key copies p h =
    let (e, f) = copied_same p.ui.created_key_data p in
    Without-same key p.ui (copy_key p.ui.created_key_data p).ui e f h
press_local-Without key (asks k) p h = h
press_local-Without key (types text) p h = h

meanwhile_of-Without :
    (key : String) (w : World) (bs : List Local) (u : Ui)
    → Without key u
    → Without key (meanwhile_of w bs u)
meanwhile_of-Without key w [] u h = h
meanwhile_of-Without key w (b ∷ bs) u h =
    meanwhile_of-Without key w bs (press_local b (record { ui = u; world = w })).ui
      (press_local-Without key b (record { ui = u; world = w }) h)

-- The dialog is closed by its cross, or by "Done".
abbrev pub closing : Bool → Page Ui → Page Ui
closing true p = set_ui close_create p
closing false p = set_ui done_create p

module _ (env : Env) (now : String) where
  pub press : Button → Page Ui → Page Ui
  press (local b) p = press_local b p
  press (generates name during) p =
      (handle_create_key env now (meanwhile_of p.world during) name p).1
  press (revokes key) p = (handle_revoke_key env now key p).1
  press retries p = (fetch_keys now p).1

  abbrev pub press_all : List Button → Page Ui → Page Ui
  press_all [] p = p
  press_all (b ∷ bs) p = press_all bs (press b p)

  -- One of the clicks is "Generate Key", and the backend answers it with the secret.
  abbrev Makes : Button → Page Ui → String → Type 0
  Makes (generates name during) p key =
      (made : ApiKeyCreatedResponse) × ((create_api_key env (active_tenant p.world).id (trim name)
          p.world).0
        ≡ ok made)
      × (made.key ≡ key)
  Makes (local b) p key = ⊥
  Makes (revokes k) p key = ⊥
  Makes retries p key = ⊥

  abbrev pub MadeBy : List Button → Page Ui → String → Type 0
  MadeBy [] p key = ⊥
  MadeBy (b ∷ bs) p key = Makes b p key ⊎ MadeBy bs (press b p) key

  blank_lem :
      (key name : String) (during : List Local) (p : Page Ui)
      → (trim name == "") ≡ true
      → Without key p.ui
      → Without key (handle_create_key env now (meanwhile_of p.world during) name p).1.ui
  unfolding handle_create_key
  blank_lem key name during p blank h = rw blank h

  generate-Without :
      (key name : String) (during : List Local) (p : Page Ui)
      → Without key p.ui
      → ¬ Makes (generates name during) p key
      → Without key (handle_create_key env now (meanwhile_of p.world during) name p).1.ui
  generate-Without key name during p h none_made = elim (Bool-cases (trim name == "")) [
    | inl blank ↦ blank_lem key name during p blank h
    | inr named ↦
        elim (Result-cases (create_api_key env (active_tenant p.world).id (trim name) p.world).0) [
          | inl (made, e) ↦
              let (_, set, _, _, _) =
                handle_create_key-fields env now (meanwhile_of p.world during) name p named made
                  e in
              inr (λ k f. λ same. none_made (
                made,
                e,
                let equal : made ≡ k = cc in ap (λ (x : ApiKeyCreatedResponse). x.key) equal ∙ same,
              ))
          | inr (m, e) ↦
              let (shown, kept) =
                create_failed_lem env now (meanwhile_of p.world during) name p named e in
              Without-same key (meanwhile_of p.world during (record p.ui { is_creating = true }))
                (handle_create_key env now (meanwhile_of p.world during) name p).1.ui shown kept
                (meanwhile_of-Without key p.world during (record p.ui { is_creating = true }) h)
        ]
  ]

  press-Without :
      (key : String) (b : Button) (p : Page Ui)
      → Without key p.ui
      → ¬ Makes b p key
      → Without key (press b p).ui
  unfolding press handle_revoke_key fetch_keys list_api_keys revoke_api_key
  press-Without key (local b) p h n = press_local-Without key b p h
  press-Without key (generates name during) p h n = generate-Without key name during p h n
  press-Without key (revokes none) p h n = h
  press-Without key (revokes (some k)) p h n = h
  press-Without key retries p h n = h

  press_all-Without :
      (key : String) (bs : List Button) (p : Page Ui)
      → Without key p.ui
      → ¬ MadeBy bs p key
      → Without key (press_all bs p).ui
  press_all-Without key [] p h n = h
  press_all-Without key (b ∷ bs) p h n =
      press_all-Without key bs (press b p) (press-Without key b p h (λ m. n (inl m)))
        (λ m. n (inr m))

  -- A key that is created under a name that is not blank, and arrives after the dialog was closed, is
  -- not shown by any sequence of clicks on the page's buttons, nor is another secret, unless one of
  -- them is "Generate Key" and is answered with that very secret.
  pub handle_create_key-loses :
      (meanwhile : Ui → Ui) (name : String) (p : Page Ui) (made : ApiKeyCreatedResponse)
      (bs : List Button) (key : String) (copied : Bool)
      → (trim name == "") ≡ false
      → (create_api_key env (active_tenant p.world).id (trim name) p.world).0 ≡ ok made
      → (meanwhile (record p.ui { is_creating = true })).show_create_modal ≡ false
      → ¬ MadeBy bs (handle_create_key env now meanwhile name p).1 key
      → dialog (press_all bs (handle_create_key env now meanwhile name p).1).ui ≢ secret key copied
  handle_create_key-loses meanwhile name p made bs key copied named e h n =
      let (kept, _, _, _, _) = handle_create_key-fields env now meanwhile name p named made e in
      dialog-Without _ key copied (press_all-Without key bs _ (inl (kept ∙ h)) n)
