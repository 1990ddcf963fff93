-- ===== src/Client/Refines.antt =====
-- The session of frontend/tenant-dashboard/lib/api/client.ts as an abstract value, and its functions
-- as operations on that value: what the rest of the dashboard may rely on, whatever the storage
-- holds otherwise and in whatever order.
use modera_shield.Base.{
  String, true, Option, none, some, List, [], ◌∷◌, ◌≡◌, refl, ◌∙◌, ap, arith, present,
}
use modera_shield.Client.Browser.{
  World, StoredTenant, get_item, api_key_item, tenant_id_item, tenant_name_item, tenant_of,
  get_stored_api_key, set_stored_api_key, remove_stored_api_key, get_stored_tenant,
  set_stored_tenant,
}
use modera_shield.Client.Session.{get_item-set_item, get_item-remove_item}

-- What the storage says of the session: the key, and the id and the name of the tenant.
pub record Session : Type 0 where
  pub key : Option String
  pub tenant_id : Option String
  pub tenant_name : Option String

-- The three functions that change the session.
pub data Change : Type 0 where
  sets_key : String → Change
  sets_tenant : (id : String) (name : String) → Change
  removes_key : Change

abbrev perform : Change → World → World
perform (sets_key key) w = set_stored_api_key key w
perform (sets_tenant id name) w = set_stored_tenant id name w
perform removes_key w = remove_stored_api_key w

abbrev change : Change → Session → Session
change (sets_key key) s = record s { key = some key }
change (sets_tenant id name) s = record s { tenant_id = some id; tenant_name = some name }
change removes_key s = record { key = none; tenant_id = none; tenant_name = none }

abbrev pub perform_all : List Change → World → World
perform_all [] w = w
perform_all (c ∷ cs) w = perform_all cs (perform c w)

abbrev pub change_all : List Change → Session → Session
change_all [] s = s
change_all (c ∷ cs) s = change_all cs (change c s)

abbrev pub session_of : World → Session
session_of w = record {
  key = get_item api_key_item w.storage;
  tenant_id = get_item tenant_id_item w.storage;
  tenant_name = get_item tenant_name_item w.storage;
}

-- The getters read the session.
abbrev pub tenant_in : Session → Option StoredTenant
tenant_in s = tenant_of (present s.tenant_id) (present s.tenant_name)

perform-browser : (c : Change) (w : World) → w.browser ≡ true → (perform c w).browser ≡ true
unfolding set_stored_api_key set_stored_tenant remove_stored_api_key
perform-browser (sets_key key) w b = ground (arith, b)
perform-browser (sets_tenant id name) w b = ground (arith, b)
perform-browser removes_key w b = ground (arith, b)

perform-session_of :
    (c : Change) (w : World) → w.browser ≡ true → session_of (perform c w) ≡ change c (session_of w)
unfolding set_stored_api_key set_stored_tenant remove_stored_api_key
perform-session_of (sets_key key) w b = rw b (simp (get_item-set_item))
perform-session_of (sets_tenant id name) w b = rw b (simp (get_item-set_item))
perform-session_of removes_key w b = rw b (simp (get_item-remove_item))

perform_all-browser :
    (cs : List Change) (w : World) → w.browser ≡ true → (perform_all cs w).browser ≡ true
perform_all-browser [] w b = b
perform_all-browser (c ∷ cs) w b = perform_all-browser cs (perform c w) (perform-browser c w b)

perform_all-session_of :
    (cs : List Change) (w : World)
    → w.browser ≡ true
    → session_of (perform_all cs w) ≡ change_all cs (session_of w)
perform_all-session_of [] w b = refl
perform_all-session_of (c ∷ cs) w b =
    perform_all-session_of cs (perform c w) (perform-browser c w b)
    ∙ ap (change_all cs) (perform-session_of c w b)

getters_lem :
    (w : World)
    → w.browser ≡ true
    → (get_stored_api_key w ≡ (session_of w).key) × (get_stored_tenant w ≡ tenant_in (session_of w))
unfolding get_stored_api_key get_stored_tenant
getters_lem w b = rw b (refl, refl)

-- In the browser, the session after any functions that change it, one after the other, is what the
-- abstract operations make of the session before, and the getters give its key and its tenant.
pub perform_all-change_all :
    (cs : List Change) (w : World)
    → w.browser ≡ true
    → (session_of (perform_all cs w) ≡ change_all cs (session_of w))
      × (get_stored_api_key (perform_all cs w) ≡ (change_all cs (session_of w)).key)
      × (get_stored_tenant (perform_all cs w) ≡ tenant_in (change_all cs (session_of w)))
perform_all-change_all cs w b =
    let e = perform_all-session_of cs w b in
    let (key, tenant) = getters_lem (perform_all cs w) (perform_all-browser cs w b) in
    (e, key ∙ ap (λ (s : Session). s.key) e, tenant ∙ ap tenant_in e)
