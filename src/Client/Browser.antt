-- ===== src/Client/Browser.antt =====
-- frontend/tenant-dashboard/lib/api/client.ts: the local storage and the functions that keep the
-- session in it.
-- `localStorage` is an association list; `browser` tells whether `window` is defined, which it is
-- not while the server renders.
use modera_shield.Base.{
  String, Bool, Option, none, some, List, [], ◌∷◌, ◌==◌, if◌then◌else◌, present,
}

-- What a request is sent with. The JSON text of a body is kept as the fields that it was made of.
pub data Scalar : Type 0 where
  text : String → Scalar
  flag : Bool → Scalar

pub data Body : Type 0 where
  json : List (String × Scalar) → Body
  form_data : Body

pub record Request : Type 0 where
  pub url : String
  pub method : String
  pub headers : List (String × String)
  pub body : Option Body

-- The browser as the code changes it: its storage, the pages that it was sent to with the latest
-- first, the requests sent with the latest first, the texts shown by `alert` and the clipboard.
pub record World : Type 0 where
  pub browser : Bool
  pub storage : List (String × String)
  pub visited : List String
  pub sent : List Request
  pub alerts : List String
  pub clipboard : Option String

-- `localStorage.getItem`, `setItem` and `removeItem`.
unfoldable pub get_item : String → List (String × String) → Option String
get_item k [] = none
get_item k ((j, v) ∷ m) = if j == k then some v else get_item k m

unfoldable pub set_item : String → String → List (String × String) → List (String × String)
set_item k v [] = (k, v) ∷ []
set_item k v ((j, w) ∷ m) = if j == k then (k, v) ∷ m else (j, w) ∷ set_item k v m

unfoldable pub remove_item : String → List (String × String) → List (String × String)
remove_item k [] = []
remove_item k ((j, w) ∷ m) = let rest = remove_item k m in if j == k then rest else (j, w) ∷ rest

pub record StoredTenant : Type 0 where
  pub id : String
  pub name : String

abbrev pub api_key_item : String
api_key_item = "moderashield_api_key"

abbrev pub tenant_id_item : String
tenant_id_item = "moderashield_tenant_id"

abbrev pub tenant_name_item : String
tenant_name_item = "moderashield_tenant_name"

abbrev pub api_url_item : String
api_url_item = "moderashield_api_url"

unfoldable pub get_stored_api_key : World → Option String
get_stored_api_key w = if w.browser then get_item api_key_item w.storage else none

unfoldable pub set_stored_api_key : String → World → World
set_stored_api_key key w =
    if w.browser then record w { storage = set_item api_key_item key w.storage } else w

unfoldable pub remove_stored_api_key : World → World
remove_stored_api_key w =
    if w.browser
    then record w {
      storage =
          remove_item tenant_name_item
            (remove_item tenant_id_item (remove_item api_key_item w.storage));
    }
    else w

-- `if (id && name)`
abbrev pub tenant_of : Option String → Option String → Option StoredTenant
tenant_of none name = none
tenant_of (some id) none = none
tenant_of (some id) (some name) = some (record { id = id; name = name })

unfoldable pub get_stored_tenant : World → Option StoredTenant
get_stored_tenant w =
    if w.browser
    then tenant_of (present (get_item tenant_id_item w.storage))
        (present (get_item tenant_name_item w.storage))
    else none

unfoldable pub set_stored_tenant : String → String → World → World
set_stored_tenant id name w =
    if w.browser
    then record w {
      storage = set_item tenant_name_item name (set_item tenant_id_item id w.storage);
    }
    else w

-- `router.push(path)` and `window.location.href = path`
abbrev pub visit : String → World → World
visit path w = record w { visited = path ∷ w.visited }

-- The record of a request that is sent.
abbrev pub send : Request → World → World
send r w = record w { sent = r ∷ w.sent }
