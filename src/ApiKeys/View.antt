-- ===== src/ApiKeys/View.antt =====
-- What the page of the keys shows
-- (frontend/tenant-dashboard/app/dashboard/api-keys/page.tsx).
use Prim.Native.String.{◌++◌}
use modera_shield.Base.{
  String, Bool, Option, none, some, List, [], ◌∷◌, map, if◌then◌else◌, present,
}
use modera_shield.Client.Types.{ApiKeyResponse, ApiKeyCreatedResponse}
use modera_shield.ApiKeys.{Ui}

-- A row of the list; its dates are shown in the browser's format, a missing one as "Never". The
-- bin is there for an active key.
pub record Row : Type 0 where
  pub name : String
  pub created : String
  pub status : String
  pub last_used : Option String
  pub has_bin : Bool

unfoldable pub row : ApiKeyResponse → Row
row key = record {
  name = key.name;
  created = key.created_at;
  status = if key.is_active then "Active" else "Revoked";
  last_used = present key.last_used_at;
  has_bin = key.is_active;
}

pub data Listing : Type 0 where
  loading : Listing
  failed : String → Listing
  no_keys : Listing
  table : List Row → Listing

abbrev listed : List ApiKeyResponse → Listing
listed [] = no_keys
listed (key ∷ keys) = table (map row (key ∷ keys))

abbrev settled : Option String → List ApiKeyResponse → Listing
settled (some error) keys = failed error
settled none keys = listed keys

-- The dialog for a new key: closed, the form, or the secret of the key that was created.
pub data Dialog : Type 0 where
  closed : Dialog
  form : (name : String) (disabled : Bool) → Dialog
  secret : (key : String) (copied : Bool) → Dialog

abbrev opened : Option ApiKeyCreatedResponse → Ui → Dialog
opened none u = form u.new_key_name u.is_creating
opened (some key) u = secret key.key u.is_copied

unfoldable pub dialog : Ui → Dialog
dialog u = if u.show_create_modal then opened u.created_key_data u else closed

-- The question before a key is revoked, whose two buttons are disabled while that is tried.
pub record Question : Type 0 where
  pub title : String
  pub text : String
  pub cancel : String
  pub confirm : String
  pub disabled : Bool

abbrev question_of : ApiKeyResponse → Bool → Question
question_of key busy = record {
  title = "Revoke API Key?";
  text =
      "Are you sure you want to revoke \"" ++ key.name
      ++ "\"? Any active service using this key will"
      ++ " immediately receive 401 Unauthorized errors. This action cannot be undone.";
  cancel = "Cancel";
  confirm = "Revoke Key";
  disabled = busy;
}

abbrev question : Option ApiKeyResponse → Bool → Option Question
question none busy = none
question (some key) busy = some (question_of key busy)

-- The page: the list, the dialog for a new key, and the question.
pub record View : Type 0 where
  pub listing : Listing
  pub create : Dialog
  pub revoke : Option Question

unfoldable pub view : Ui → View
unfolding dialog row
view u = record {
  listing = if u.is_loading then loading else settled (present u.error) u.keys;
  create = dialog u;
  revoke = question u.key_to_revoke u.is_revoking;
}
