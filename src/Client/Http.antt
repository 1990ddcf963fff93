-- ===== src/Client/Http.antt =====
-- frontend/tenant-dashboard/lib/api/client.ts: `getApiUrl` and `request`.
-- The network and the build's environment are an argument, `Env`: what the n-th request of the
-- page is answered. The body of a successful answer has the type at which the caller reads it, as
-- the cast `as T` assumes.
use Prim.Native.String.{◌++◌}
use modera_shield.Base.{
  ℕ, String, Bool, true, false, not, ◌&&◌, ◌||◌, Option, none, some, List, [], ◌∷◌, length, M, pure,
  throw, modify, gets, ◌>>=◌, ◌>>◌, ◌==◌, leb, nat_eq, if◌then◌else◌, present, to_lower_case,
  ends_with, show_number,
}
use modera_shield.Client.Types.{ReplyType, Reply}
use modera_shield.Client.Browser.{
  Body, json, form_data, Request, World, get_item, set_item, api_url_item, get_stored_api_key,
  remove_stored_api_key, visit, send,
}

-- What `response.json()` gives: a value, or the message of the error that it throws.
pub data Json (A : Type 0) : Type 0 where
  parsed : A → Json A
  malformed : String → Json A

-- The body of an answer that is not `ok`: `body.detail` as a text, where it counts as true, and
-- `JSON.stringify(body)`.
pub record ErrorBody : Type 0 where
  pub detail : Option String
  pub text : String

pub record Response (A : Type 0) : Type 0 where
  pub status : ℕ
  pub value : Json A
  pub error_body : Json ErrorBody

pub data Fetched (A : Type 0) : Type 0 where
  unreachable : String → Fetched A
  replied : Response A → Fetched A

pub record Env : Type 0 where
  pub api_url : Option String
  pub fetch : ℕ → (t : ReplyType) → Request → Fetched (Reply t)

pub record Options : Type 0 where
  pub method : Option String
  pub headers : List (String × String)
  pub body : Option Body

abbrev pub no_options : Options
no_options = record { method = none; headers = []; body = none }

-- `new Headers(h)` of an object (its names are distinct), `headers.set` and `headers.has`: names are compared in lower case.
unfoldable pub set_header : String → String → List (String × String) → List (String × String)
set_header name value headers = set_item (to_lower_case name) value headers

unfoldable pub get_header : String → List (String × String) → Option String
get_header name headers = get_item (to_lower_case name) headers

unfoldable pub headers_of : List (String × String) → List (String × String)
headers_of [] = []
headers_of ((name, value) ∷ rest) = set_header name value (headers_of rest)

-- `url.replace(/\/$/, "")`
unfoldable pub drop_slash : String → String
drop_slash String.[] = ""
drop_slash (String.◌∷◌ c s) =
    let rest = String.◌∷◌ c (drop_slash s) in if String.◌∷◌ c s == "/" then "" else rest

abbrev pub with_api_path : String → String
with_api_path url = if ends_with url "/api/v1" then url else drop_slash url ++ "/api/v1"

abbrev configured_url : Option String → String
configured_url none = "http://localhost:8000"
configured_url (some url) = url

abbrev stored_or : Option String → String → String
stored_or none url = url
stored_or (some stored) url = stored

unfoldable pub get_api_url : Env → World → String
get_api_url env w =
    stored_or (present (if w.browser then get_item api_url_item w.storage else none))
      (with_api_path (configured_url (present env.api_url)))

abbrev with_key : Option String → List (String × String) → List (String × String)
with_key none headers = headers
with_key (some key) headers = set_header "X-API-Key" key headers

abbrev is_form_data : Option Body → Bool
is_form_data (some form_data) = true
is_form_data (some (json fields)) = false
is_form_data none = false

abbrev is_missing : Option String → Bool
is_missing none = true
is_missing (some s) = false

abbrev method_or_get : Option String → String
method_or_get none = "GET"
method_or_get (some method) = method

abbrev with_content_type : Option Body → List (String × String) → List (String × String)
with_content_type body headers =
    if not (is_form_data body) && is_missing (get_header "Content-Type" headers)
    then set_header "Content-Type" "application/json" headers
    else headers

-- The part of `request` above the `fetch`.
unfoldable pub prepare : Env → String → Options → World → Request
prepare env path options w = record {
  url = get_api_url env w ++ path;
  method = method_or_get options.method;
  headers = with_content_type options.body (
      set_header "Accept" "application/json"
        (with_key (present (get_stored_api_key w)) (headers_of options.headers)));
  body = options.body;
}

-- `response.ok`
abbrev pub is_ok : ℕ → Bool
is_ok status = leb 200 status && leb status 299

-- `body.detail || JSON.stringify(body)`, or the fallback if the body cannot be read.
abbrev error_detail : ℕ → Json ErrorBody → String
error_detail status (malformed e) = "HTTP error " ++ show_number status
error_detail status (parsed body) = elim (present body.detail) [
  | none ↦ body.text
  | some detail ↦ detail
]

-- The session ends: the key and the tenant are dropped, and the browser goes to the login page.
unfoldable pub expire_session : World → World
expire_session w =
    if w.browser
    then visit "/login?error=session_expired" (remove_stored_api_key w)
    else remove_stored_api_key w

abbrev pub is_denied : ℕ → Bool
is_denied status = nat_eq status 401 || nat_eq status 403

abbrev pub read_json : {A : Type 0} → Json A → M World A
read_json (parsed a) = pure a
read_json (malformed e) = throw e

-- The part of `request` below the `fetch`.
unfoldable pub receive : {A : Type 0} → Fetched A → M World A
receive (unreachable message) = throw message
receive (replied response) = if is_ok response.status then read_json response.value else do
  modify (λ w. if is_denied response.status then expire_session w else w)
  throw (error_detail response.status response.error_body)

unfoldable pub request : Env → (t : ReplyType) → String → Options → M World (Reply t)
unfolding prepare
request env t path options = do
  r ← gets (prepare env path options)
  n ← gets (λ w. length w.sent)
  modify (send r)
  receive (env.fetch n t r)
