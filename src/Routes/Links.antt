-- ===== src/Routes/Links.antt =====
-- frontend/tenant-dashboard/app/ and frontend/tenant-dashboard/components/layout/sidebar.tsx: the
-- links that the pages show, and where their handlers push the router. `ids` are the ids of the
-- requests that a page lists; a link is its text and its address.
use Prim.Native.String.{◌++◌}
use modera_shield.Base.{String, List, [], ◌∷◌, map}
use modera_shield.Routes.{
  Route, home, login, sign_up, forgot_password, docs, overview, queue, submissions, rules, api_keys,
  integrations, settings, analytics, detail, detail_folder,
}
use modera_shield.Sidebar.{NavItem, nav_items}

pub record Link : Type 0 where
  pub text : String
  pub href : String

abbrev link : String → String → Link
link text href = record { text = text; href = href }

-- The landing page.
abbrev header_links : List Link
header_links =
    link "ModeraShield" "/"
    ∷ link "Features" "#features"
    ∷ link "Simulator" "#simulator"
    ∷ link "Developer SDK" "#sdk"
    ∷ link "API Docs" "/docs"
    ∷ link "Sign In" "/login"
    ∷ link "Get Started" "/signup"
    ∷ []

abbrev hero_links : List Link
hero_links = link "Create Free Account" "/signup" ∷ link "Read API Documentation" "/docs" ∷ []

abbrev footer_links : List Link
footer_links =
    link "Privacy Policy" "#"
    ∷ link "Terms of Service" "#"
    ∷ link "Contact Support" "mailto:support@moderashield.dev"
    ∷ []

-- The pages of an account.
abbrev login_links : List Link
login_links = link "Sign up" "/signup" ∷ []

abbrev terms_links : List Link
terms_links = link "Terms of Service" "#" ∷ link "Privacy Policy" "#" ∷ []

abbrev log_in_links : List Link
log_in_links = link "Log in" "/login" ∷ []

-- The one of the form, and the one of the note that follows it.
abbrev back_links : List Link
back_links = link "Back to Login" "/login" ∷ []

abbrev docs_header_links : List Link
docs_header_links = link "ModeraShield" "/" ∷ link "Console" "/dashboard" ∷ []

abbrev intro_links : List Link
intro_links = link "Follow Quickstart" "#quickstart" ∷ []

abbrev quickstart_links : List Link
quickstart_links = link "API Keys console" "/dashboard/api-keys" ∷ []

-- The dashboard.
abbrev brand_links : List Link
brand_links = link "ModeraShield" "/" ∷ []

abbrev nav_link : NavItem → Link
nav_link item = link item.name item.href

abbrev pub empty_links : List Link
empty_links = link "Generate API Key" "/dashboard/api-keys" ∷ []

abbrev pub recent_links : List Link
recent_links = link "View all" "/dashboard/submissions" ∷ []

abbrev pub inspect_link : String → Link
inspect_link id = link "Inspect" (detail_folder ++ id)

abbrev pub details_link : String → Link
details_link id = link "Details →" (detail_folder ++ id)

abbrev pub detail_links : List Link
detail_links = link "Back to Submissions Log" "/dashboard/submissions" ∷ []

abbrev pub rules_links : List Link
rules_links = link "Read Policy Docs" "/docs" ∷ []

abbrev pub tips_links : List Link
tips_links = link "View API Reference Docs" "/docs" ∷ []

abbrev pub joined : List Link → List Link → List Link
joined [] ms = ms
joined (l ∷ ls) ms = l ∷ joined ls ms

-- The layout of the dashboard puts the sidebar beside each of its pages.
abbrev pub sidebar_links : List Link
sidebar_links = joined brand_links (map nav_link nav_items)

-- The links of a page, whichever of its parts are shown.
unfoldable pub links : List String → Route → List Link
links ids home = joined header_links (joined hero_links footer_links)
links ids login = login_links
links ids sign_up = joined terms_links log_in_links
links ids forgot_password = back_links
links ids docs = joined docs_header_links (joined intro_links quickstart_links)
links ids overview = joined sidebar_links (joined empty_links recent_links)
links ids queue = joined sidebar_links (map inspect_link ids)
links ids submissions = joined sidebar_links (map details_link ids)
links ids rules = joined sidebar_links rules_links
links ids api_keys = sidebar_links
links ids integrations = joined sidebar_links tips_links
links ids settings = sidebar_links
links ids analytics = sidebar_links
links ids (detail id) = joined sidebar_links detail_links

-- Where the handlers of a page push the router: after a sign-in or a sign-up, at the end of a
-- session, which is what the sidebar's guard and its button do, and from a row of a table.
abbrev pub row_address : String → String
row_address id = detail_folder ++ id

unfoldable pub pushes : List String → Route → List String
pushes ids home = []
pushes ids login = "/dashboard" ∷ []
pushes ids sign_up = "/dashboard" ∷ []
pushes ids forgot_password = []
pushes ids docs = []
pushes ids overview = "/login" ∷ map row_address ids
pushes ids queue = "/login" ∷ map row_address ids
pushes ids submissions = "/login" ∷ map row_address ids
pushes ids rules = "/login" ∷ []
pushes ids api_keys = "/login" ∷ []
pushes ids integrations = "/login" ∷ []
pushes ids settings = "/login" ∷ []
pushes ids analytics = "/login" ∷ []
pushes ids (detail id) = "/login" ∷ []

-- The ids of the sections of a page that a link of it may lead to.
unfoldable pub sections : Route → List String
sections home = "simulator" ∷ "features" ∷ "sdk" ∷ []
sections docs =
    "intro" ∷ "quickstart" ∷ "auth" ∷ "text-mod" ∷ "python-sdk" ∷ "errors" ∷ "limits" ∷ "webhooks"
    ∷ []
sections _ = []
