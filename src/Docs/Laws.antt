-- ===== src/Docs/Laws.antt =====
-- The documentation page against the page's own navigation and against what the client of
-- frontend/tenant-dashboard/lib/api/client.ts sends and does.
use Prim.Native.String.{◌++◌}
use package.text.Mathlib.TextLemmas.{append_assoc, nil-append}
use modera_shield.Base.{
  String, true, false, Option, none, some, List, [], ◌∷◌, length, filter, All, ◌≡◌, refl, ◌∙◌, ap,
  present, ◌==◌, to_lower_case, ends_with, Bool-cases, inl, inr,
}
use modera_shield.Client.Types.{created}
use modera_shield.Client.Browser.{
  World, Request, Scalar, text, flag, Body, json, form_data, get_item, api_url_item,
  get_stored_api_key, set_item,
}
use modera_shield.Client.Http.{
  Env, get_header, set_header, headers_of, prepare, get_api_url, drop_slash,
}
use modera_shield.Client.Api.{with_json, create_moderation_request}
use modera_shield.Client.Requests.{request-sent}
use modera_shield.Docs.Block.{Section}
use modera_shield.Docs.Guides.{intro, quickstart, auth, limits}
use modera_shield.Docs.Reference.{text_mod, python_sdk, errors, curl_example, fields}
use modera_shield.Docs.Webhooks.{webhooks}
use modera_shield.Docs.View.{
  Ui, NavItem, NavRow, click, view, doc_nav_items, user_api_key, sections, scroll_to,
}

-- After a click on the item, its row is the one active row, the page is scrolled to the item's
-- section, and one section of the page has that name.
abbrev Leads : World → Ui → NavItem → Type 0
Leads w u item =
    (filter (λ (r : NavRow). r.is_active) (view w (click w item u)).rows
      ≡ (record { title = item.title; is_active = true }) ∷ [])
    × ((click w item u).scrolled_to ≡ some item.id)
    × (length (filter (λ (s : Section). s.id == item.id) (view w (click w item u)).shown) ≡ 1)

-- Whatever the browser and the page's state, a click on any item of the navigation makes its row
-- the only active one and scrolls to the one section that has its name.
click-Leads : (w : World) (u : Ui) → All (Leads w u) doc_nav_items
unfolding click view sections scroll_to intro quickstart auth limits text_mod python_sdk errors
    webhooks
click-Leads w u = (
  (refl, refl, refl),
  (
    (refl, refl, refl),
    (
      (refl, refl, refl),
      (
        (refl, refl, refl),
        ((refl, refl, refl), ((refl, refl, refl), ((refl, refl, refl), ((refl, refl, refl), tt)))),
      ),
    ),
  ),
)

-- A request as a command line, in the layout of the documentation; a header that the documentation
-- leaves out is left out.
abbrev header_line : String → Option String → String → String
header_line name none rest = rest
header_line name (some value) rest = "  -H \"" ++ (name ++ (": " ++ (value ++ ("\" \\\n" ++ rest))))

abbrev scalar : Scalar → String
scalar (text s) = "\"" ++ (s ++ "\"")
scalar (flag true) = "true"
scalar (flag false) = "false"

abbrev members : List (String × Scalar) → String
members [] = ""
members ((name, value) ∷ []) = "    \"" ++ (name ++ ("\": " ++ (scalar value ++ "\n")))
members ((name, value) ∷ more ∷ rest) =
    "    \"" ++ (name ++ ("\": " ++ (scalar value ++ (",\n" ++ members (more ∷ rest)))))

abbrev body_text : Option Body → String
body_text (some (json fields)) = "  -d '{\n" ++ (members fields ++ "  }'")
body_text (some form_data) = ""
body_text none = ""

pub curl_of : Request → String
curl_of r =
    "curl -X "
    ++ (r.method
        ++ (" "
            ++ (r.url
                ++ (" \\\n"
                    ++ header_line "X-API-Key" (get_header "X-API-Key" r.headers) (
                        header_line "Content-Type" (get_header "Content-Type" r.headers)
                          (body_text r.body))))))

-- The request that the client sends to have a text moderated.
abbrev pub moderation : Env → String → World → Request
moderation env content w =
    prepare env "/moderate/"
      (with_json "POST" (("content_type", text "text") ∷ ("content", text content) ∷ [])) w

-- The texts, one after the other, before a last one.
abbrev before : List String → String → String
before [] last = last
before (t ∷ ts) last = t ++ before ts last

before-append : (ts : List String) (last : String) → before ts "" ++ last ≡ before ts last
before-append [] last = nil-append last
before-append (t ∷ ts) last =
    append_assoc t (before ts "") last ∙ ap (λ (s : String). t ++ s) (before-append ts last)

-- The texts of the command before the key.
abbrev prefix : List String
prefix =
    "curl -X " ∷ "POST" ∷ " " ∷ "http://localhost:8000/api/v1/moderate/" ∷ " \\\n" ∷ "  -H \""
    ∷ "X-API-Key" ∷ ": " ∷ []

get_api_url-default :
    (env : Env) (w : World)
    → present (get_item api_url_item w.storage) ≡ none
    → present env.api_url ≡ none
    → get_api_url env w ≡ "http://localhost:8000/api/v1"
unfolding get_api_url drop_slash ends_with
get_api_url-default env w s u = elim (Bool-cases w.browser) [
  | inl b ↦ rw (b, s, u) refl
  | inr b ↦ rw (b, u) refl
]

-- In a browser with a stored key, with no address in its storage and none configured, the example command
-- of the documentation is the request that the client sends to moderate the example's text, up
-- to the headers that the example leaves out.
pub curl_example-sent :
    (env : Env) (w : World) (key : String)
    → present (get_stored_api_key w) ≡ some key
    → present (get_item api_url_item w.storage) ≡ none
    → present env.api_url ≡ none
    → (curl_example (user_api_key w) ≡ curl_of (moderation env "Text to moderate" w))
      × ((create_moderation_request env "Text to moderate" w).1.sent
          ≡ moderation env "Text to moderate" w ∷ w.sent)
unfolding curl_example user_api_key curl_of prepare set_header get_header headers_of set_item
    get_item to_lower_case create_moderation_request
curl_example-sent env w key k s u = (
  rw (k, get_api_url-default env w s u) (before-append prefix _),
  request-sent env created "/moderate/" _ w,
)
