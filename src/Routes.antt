-- ===== src/Routes.antt =====
-- frontend/tenant-dashboard/app/: the pages that the App Router serves, one per `page.tsx`, and the
-- addresses that lead to one.
pub mod Links
pub mod Laws
pub mod Reach
use Prim.Native.Char.{Char, code}
use modera_shield.Base.{
  String, Bool, true, false, not, ◌&&◌, ◌||◌, Option, none, some, ◌==◌, nat_eq, if◌then◌else◌,
}

-- The folder of the pages of one submission, `[requestId]`.
abbrev pub detail_folder : String
detail_folder = "/dashboard/submissions/"

pub data Route : Type 0 where
  home login sign_up forgot_password docs overview queue submissions rules : Route
  api_keys integrations settings analytics : Route
  detail : (id : String) → Route

abbrev without : String → String → Option String
without String.[] s = some s
without (String.◌∷◌ c p) String.[] = none
without (String.◌∷◌ c p) (String.◌∷◌ d s) =
    let rest = without p s in if nat_eq (code c) (code d) then rest else none

abbrev fixed_route_of : String → Option Route
fixed_route_of path =
    if path == "/"
    then some home
    else (if path == "/login"
        then some login
        else (if path == "/signup"
            then some sign_up
            else (if path == "/forgot-password"
                then some forgot_password
                else (if path == "/docs" then some docs else none))))

abbrev dashboard_route_of : String → Option Route
dashboard_route_of path =
    if path == "/dashboard"
    then some overview
    else (if path == "/dashboard/queue"
        then some queue
        else (if path == "/dashboard/submissions"
            then some submissions
            else (if path == "/dashboard/rules"
                then some rules
                else (if path == "/dashboard/api-keys"
                    then some api_keys
                    else (if path == "/dashboard/integrations"
                        then some integrations
                        else (if path == "/dashboard/settings"
                            then some settings
                            else (if path == "/dashboard/analytics"
                                then some analytics
                                else fixed_route_of path)))))))

abbrev detail_or : String → Option String → Option Route
detail_or path none = dashboard_route_of path
detail_or path (some id) = some (detail id)

-- The page at a path.
unfoldable pub route_of : String → Option Route
route_of path = detail_or path (without detail_folder path)

-- A character that ends a path, or a part of it.
abbrev ends_part : Char → Bool
ends_part c = nat_eq (code c) b'/' || (nat_eq (code c) b'?' || nat_eq (code c) b'#')

-- One part of a path.
unfoldable pub is_plain : String → Bool
is_plain String.[] = true
is_plain (String.◌∷◌ c s) = not (ends_part c) && is_plain s

abbrev is_part : String → Bool
is_part s = not (s == "") && is_plain s

abbrev is_served : Option Route → Bool
is_served (some (detail id)) = is_part id
is_served (some r) = true
is_served none = false

-- The path of an address of the site: what comes before its query and its fragment.
unfoldable pub path_of : String → String
path_of String.[] = ""
path_of (String.◌∷◌ c s) =
    let rest = String.◌∷◌ c (path_of s) in
    if nat_eq (code c) b'?' || nat_eq (code c) b'#' then "" else rest

-- An address of the site at which there is a page.
unfoldable pub leads : String → Bool
leads href = is_served (route_of (path_of href))
