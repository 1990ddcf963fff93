-- ===== src/Client/Session.antt =====
-- The session in the local storage: what the getters give after each setter, and after the session
-- is removed (frontend/tenant-dashboard/lib/api/client.ts).
use modera_shield.Base.{
  String, true, none, some, List, [], ◌∷◌, ◌≡◌, refl, ◌≢◌, arith, ◌==◌, if◌then◌else◌, eq_iff,
}
use modera_shield.Client.Browser.{
  World, Request, send, visit, get_item, set_item, remove_item, api_key_item, tenant_id_item,
  tenant_name_item, get_stored_api_key, set_stored_api_key, remove_stored_api_key,
  get_stored_tenant, set_stored_tenant,
}

pub get_item-set_item :
    (j k v : String) (m : List (String × String))
    → get_item j (set_item k v m) ≡ (if k == j then some v else get_item j m)
unfolding get_item set_item
get_item-set_item j k v [] = refl
get_item-set_item j k v ((i, w) ∷ m) =
    ground (arith, eq_iff k j, eq_iff i k, eq_iff i j, get_item-set_item j k v m)

pub get_item-remove_item :
    (j k : String) (m : List (String × String))
    → get_item j (remove_item k m) ≡ (if k == j then none else get_item j m)
unfolding get_item remove_item
get_item-remove_item j k [] = ground arith
get_item-remove_item j k ((i, w) ∷ m) =
    ground (arith, eq_iff k j, eq_iff i k, eq_iff i j, get_item-remove_item j k m)

pub get_stored_api_key-set :
    (key : String) (w : World)
    → w.browser ≡ true
    → get_stored_api_key (set_stored_api_key key w) ≡ some key
unfolding get_stored_api_key set_stored_api_key
get_stored_api_key-set key w b =
    ground (arith, b, get_item-set_item api_key_item api_key_item key w.storage)

abbrev without_session : List (String × String) → List (String × String)
without_session m =
    remove_item tenant_name_item (remove_item tenant_id_item (remove_item api_key_item m))

get_item-without_session :
    (j : String) (m : List (String × String))
    → get_item j (without_session m) ≡ (
        if tenant_name_item == j
        then none
        else (if tenant_id_item == j
            then none
            else (if api_key_item == j then none else get_item j m)))
get_item-without_session j m = simp get_item-remove_item

-- After `removeStoredApiKey` there is no key and no tenant, and every other item of the storage is
-- what it was.
pub remove_stored_api_key-ends_session :
    (w : World)
    → (get_stored_api_key (remove_stored_api_key w) ≡ none)
      × (get_stored_tenant (remove_stored_api_key w) ≡ none)
      × ((k : String)
          → k ≢ api_key_item
          → k ≢ tenant_id_item
          → k ≢ tenant_name_item
          → get_item k (remove_stored_api_key w).storage ≡ get_item k w.storage)
unfolding get_stored_api_key get_stored_tenant remove_stored_api_key
remove_stored_api_key-ends_session w = (
  ground (arith, get_item-without_session api_key_item w.storage),
  ground (arith, get_item-without_session tenant_id_item w.storage),
  λ k a b c. ground (
    arith,
    get_item-without_session k w.storage,
    eq_iff tenant_name_item k,
    eq_iff tenant_id_item k,
    eq_iff api_key_item k,
  ),
)

pub get_stored_api_key-set_stored_tenant :
    (id name : String) (w : World)
    → get_stored_api_key (set_stored_tenant id name w) ≡ get_stored_api_key w
unfolding get_stored_api_key set_stored_tenant
get_stored_api_key-set_stored_tenant id name w = ground (
  arith,
  get_item-set_item api_key_item tenant_name_item name (set_item tenant_id_item id w.storage),
  get_item-set_item api_key_item tenant_id_item id w.storage,
)

-- Navigation and requests do not touch the session.
pub get_stored_api_key-visit :
    (path : String) (w : World) → get_stored_api_key (visit path w) ≡ get_stored_api_key w
unfolding get_stored_api_key
get_stored_api_key-visit path w = refl

pub get_stored_tenant-visit :
    (path : String) (w : World) → get_stored_tenant (visit path w) ≡ get_stored_tenant w
unfolding get_stored_tenant
get_stored_tenant-visit path w = refl

pub get_stored_api_key-send :
    (r : Request) (w : World) → get_stored_api_key (send r w) ≡ get_stored_api_key w
unfolding get_stored_api_key
get_stored_api_key-send r w = refl

pub set_stored_api_key-visited :
    (key : String) (w : World) → (set_stored_api_key key w).visited ≡ w.visited
unfolding set_stored_api_key
set_stored_api_key-visited key w = ground arith

-- In the browser, `getStoredTenant` gives back the tenant that `setStoredTenant` stored exactly
-- when neither its id nor its name is empty, and null otherwise; the key is left alone.
pub get_stored_tenant-set :
    (id name : String) (w : World)
    → w.browser ≡ true
    → (get_stored_tenant (set_stored_tenant id name w) ≡ (
        if id == ""
        then none
        else (if name == "" then none else some (record { id = id; name = name }))))
      × (get_stored_api_key (set_stored_tenant id name w) ≡ get_stored_api_key w)
unfolding get_stored_tenant get_stored_api_key set_stored_tenant
get_stored_tenant-set id name w b = (
  ground (
    arith,
    get_item-set_item tenant_id_item tenant_name_item name (set_item tenant_id_item id w.storage),
    get_item-set_item tenant_name_item tenant_name_item name (set_item tenant_id_item id w.storage),
    get_item-set_item tenant_id_item tenant_id_item id w.storage,
  ),
  get_stored_api_key-set_stored_tenant id name w,
)
