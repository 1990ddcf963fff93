-- ===== src/Routes/Laws.antt =====
-- Where the links of the pages lead, and which pages they lead to
-- (frontend/tenant-dashboard/app/ and frontend/tenant-dashboard/components/layout/sidebar.tsx).
use Prim.Native.Char.{code}
use Prim.Native.String.{◌++◌}
use text.Mathlib.TextLemmas.{cons-append, nil-append}
use modera_shield.Base.{
  String, Bool, true, not, ◌&&◌, ◌||◌, some, List, [], ◌∷◌, map, ◌≡◌, refl, ap, All, all, all-All,
  any, ◌==◌, arith, nat_eq,
}
use modera_shield.Routes.{
  Route, home, login, sign_up, forgot_password, docs, overview, queue, submissions, rules, api_keys,
  integrations, settings, analytics, detail, detail_folder, without, detail_or, route_of, path_of,
  is_plain, is_part, leads,
}
use modera_shield.Routes.Links.{
  Link, joined, links, sections, sidebar_links, inspect_link, details_link, empty_links,
  recent_links, rules_links, tips_links, detail_links,
}

without-append : (p s : String) → without p (p ++ s) ≡ some s
without-append String.[] s = ap some (nil-append s)
without-append (String.◌∷◌ c p) s = ground (arith, cons-append c p s, without-append p s)

path_of-plain : (s : String) → is_plain s ≡ true → path_of s ≡ s
unfolding path_of is_plain
path_of-plain String.[] h = refl
path_of-plain (String.◌∷◌ c s) h = ground (arith, h, path_of-plain s)

route_of-detail : (id : String) → route_of (detail_folder ++ id) ≡ some (detail id)
unfolding route_of
route_of-detail id = ap (detail_or (detail_folder ++ id)) (without-append detail_folder id)

-- A text that starts no query and no fragment.
abbrev is_unmarked : String → Bool
is_unmarked String.[] = true
is_unmarked (String.◌∷◌ c s) = not (nat_eq (code c) b'?' || nat_eq (code c) b'#') && is_unmarked s

path_of-append : (p s : String) → is_unmarked p ≡ true → path_of (p ++ s) ≡ p ++ path_of s
unfolding path_of
path_of-append String.[] s h = rw (nil-append s, nil-append (path_of s)) refl
path_of-append (String.◌∷◌ c p) s h =
    ground (arith, h, cons-append c p s, cons-append c p (path_of s), path_of-append p s)

is_plain-part : (s : String) → is_part s ≡ true → is_plain s ≡ true
is_plain-part s h = ground (arith, h)

pub route_of_detail_path :
    (id : String) → is_part id ≡ true → route_of (path_of (detail_folder ++ id)) ≡ some (detail id)
route_of_detail_path id h =
    rw (path_of-append detail_folder id refl, path_of-plain id (is_plain-part id h))
      (route_of-detail id)

leads-detail : (id : String) → is_part id ≡ true → leads (detail_folder ++ id) ≡ true
unfolding leads
leads-detail id h = rw (route_of_detail_path id h) h

-- A link of a page arrives at a page, or at a section of the page that shows it.
arrives : Route → String → Bool
arrives r href = leads href || any (λ s. href == "#" ++ s) (sections r)

-- The links to the two policies, which have no page and no address but #.
has_no_page : Link → Bool
has_no_page l = l.href == "#" && (l.text == "Privacy Policy" || l.text == "Terms of Service")

-- The link to the address of the support.
is_contact : Link → Bool
is_contact l = l.href == "mailto:support@moderashield.dev" && l.text == "Contact Support"

goes : Route → Link → Bool
goes r l = arrives r l.href || has_no_page l || is_contact l

pub Arrives : Route → Link → Type 0
Arrives r l = goes r l ≡ true

All-joined : (P : Link → Type 0) (ls ms : List Link) → All P ls → All P ms → All P (joined ls ms)
All-joined P [] ms p q = q
All-joined P (l ∷ ls) ms (p, ps) q = (p, All-joined P ls ms ps q)

goes-leads : (r : Route) (l : Link) → leads l.href ≡ true → goes r l ≡ true
unfolding goes arrives
goes-leads r l h = rw h refl

inspect_links-Arrive :
    (r : Route) (ids : List String)
    → All (λ id. is_part id ≡ true) ids
    → All (Arrives r) (map inspect_link ids)
unfolding Arrives
inspect_links-Arrive r [] h = tt
inspect_links-Arrive r (id ∷ ids) (p, h) =
    (goes-leads r _ (leads-detail id p), inspect_links-Arrive r ids h)

details_links-Arrive :
    (r : Route) (ids : List String)
    → All (λ id. is_part id ≡ true) ids
    → All (Arrives r) (map details_link ids)
unfolding Arrives
details_links-Arrive r [] h = tt
details_links-Arrive r (id ∷ ids) (p, h) =
    (goes-leads r _ (leads-detail id p), details_links-Arrive r ids h)

all-Arrive :
    (r : Route) (ls : List Link) → all (λ (l : Link). goes r l) ls ≡ true → All (Arrives r) ls
unfolding Arrives
all-Arrive r ls h = all-All (λ (l : Link). goes r l) ls h

sidebar_links-Arrive : (r : Route) → All (Arrives r) sidebar_links
unfolding Arrives goes arrives has_no_page is_contact sections leads route_of path_of
sidebar_links-Arrive r = all-Arrive r sidebar_links refl

-- The links of a page beside the sidebar.
beside :
    (r : Route) (ls : List Link) → All (Arrives r) ls → All (Arrives r) (joined sidebar_links ls)
beside r ls h = All-joined (Arrives r) sidebar_links ls (sidebar_links-Arrive r) h

-- Where the ids of the listed requests are parts of a path, every link of every page leads to a page
-- or to a section of the page that shows it, but for the links to the privacy policy and the terms
-- of service, whose address is #, and the link to the mail address of the support.
pub links-Arrive :
    (ids : List String) (r : Route)
    → All (λ id. is_part id ≡ true) ids
    → All (Arrives r) (links ids r)
unfolding links sections Arrives goes arrives has_no_page is_contact leads route_of path_of is_plain
links-Arrive ids home h = all-Arrive home (links ids home) refl
links-Arrive ids login h = all-Arrive login (links ids login) refl
links-Arrive ids sign_up h = all-Arrive sign_up (links ids sign_up) refl
links-Arrive ids forgot_password h = all-Arrive forgot_password (links ids forgot_password) refl
links-Arrive ids docs h = all-Arrive docs (links ids docs) refl
links-Arrive ids overview h =
    beside overview (joined empty_links recent_links)
      (all-Arrive overview (joined empty_links recent_links) refl)
links-Arrive ids queue h = beside queue (map inspect_link ids) (inspect_links-Arrive queue ids h)
links-Arrive ids submissions h =
    beside submissions (map details_link ids) (details_links-Arrive submissions ids h)
links-Arrive ids rules h = beside rules rules_links (all-Arrive rules rules_links refl)
links-Arrive ids api_keys h = sidebar_links-Arrive api_keys
links-Arrive ids integrations h =
    beside integrations tips_links (all-Arrive integrations tips_links refl)
links-Arrive ids settings h = sidebar_links-Arrive settings
links-Arrive ids analytics h = sidebar_links-Arrive analytics
links-Arrive ids (detail id) h =
    beside (detail id) detail_links (all-Arrive (detail id) detail_links refl)
