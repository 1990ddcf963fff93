-- ===== src/Routes/Reach.antt =====
-- Which pages a visitor of the landing page comes to by links and by what the handlers push
-- (frontend/tenant-dashboard/app/ and frontend/tenant-dashboard/components/layout/sidebar.tsx).
use mathlib.Core.List.{Memᴰ}
use mathlib.Core.List.Memᴰ.{head, tail}
use modera_shield.Base.{
  String, Bool, true, false, Option, none, some, List, [], ◌∷◌, map, ◌≡◌, refl, ap, ◌↔◌, All, all,
  all-All, any, ◌==◌, arith, eq_iff, Bool-cases, inl, inr,
}
use modera_shield.Routes.{
  Route, home, login, sign_up, forgot_password, docs, overview, queue, submissions, rules, api_keys,
  integrations, settings, analytics, detail, route_of, path_of, is_part,
}
use modera_shield.Routes.Links.{
  Link, joined, links, pushes, sidebar_links, inspect_link, details_link, row_address, empty_links,
  recent_links,
}
use modera_shield.Routes.Laws.{route_of_detail_path}

abbrev hrefs : List Link → List String → List String
hrefs [] ps = ps
hrefs (l ∷ ls) ps = l.href ∷ hrefs ls ps

-- The addresses that a page leads to.
pub exits : List String → Route → List String
exits ids r = hrefs (links ids r) (pushes ids r)

-- The pages that a visitor comes to from the landing page.
pub data Reachable (ids : List String) : Route → Type 0 where
  start : Reachable ids home
  follow :
      {r s : Route} (href : String)
      → Reachable ids r
      → Memᴰ href (exits ids r)
      → route_of (path_of href) ≡ some s
      → Reachable ids s

-- Every page but two, and of the submissions those that are listed.
pub is_linked : List String → Route → Bool
is_linked ids forgot_password = false
is_linked ids analytics = false
is_linked ids (detail id) = any (λ listed. id == listed) ids
is_linked ids _ = true

abbrev is_linked_to : List String → Option Route → Bool
is_linked_to ids none = true
is_linked_to ids (some r) = is_linked ids r

Linked : List String → String → Type 0
Linked ids href = is_linked_to ids (route_of (path_of href)) ≡ true

any-Memᴰ : (id : String) (ids : List String) → Memᴰ id ids → any (λ listed. id == listed) ids ≡ true
any-Memᴰ id [] m = elim m [ ]
any-Memᴰ id (x ∷ xs) (head e) = ground (arith, (eq_iff id x).1 e)
any-Memᴰ id (x ∷ xs) (tail m) = ground (arith, any-Memᴰ id xs m)

Memᴰ-any : (id : String) (ids : List String) → any (λ listed. id == listed) ids ≡ true → Memᴰ id ids
Memᴰ-any id [] h = cc
Memᴰ-any id (x ∷ xs) h = elim (Bool-cases (id == x)) [
  | inl e ↦ head ((eq_iff id x).0 e)
  | inr e ↦ tail (Memᴰ-any id xs (ground (arith, h, e)))
]

All-Memᴰ : (P : String → Type 0) (h : String) (hs : List String) → All P hs → Memᴰ h hs → P h
All-Memᴰ P h [] p m = elim m [ ]
All-Memᴰ P h (x ∷ xs) (p, ps) (head e) = rw e p
All-Memᴰ P h (x ∷ xs) (p, ps) (tail m) = All-Memᴰ P h xs ps m

detail-Linked :
    (ids : List String) (id : String)
    → is_part id ≡ true
    → Memᴰ id ids
    → Linked ids (row_address id)
unfolding Linked is_linked
detail-Linked ids id p m = rw (route_of_detail_path id p) (any-Memᴰ id ids m)

rows-Linked :
    (ids : List String) (xs : List String)
    → ((id : String) → Memᴰ id xs → Memᴰ id ids)
    → All (λ id. is_part id ≡ true) xs
    → All (Linked ids) (map row_address xs)
rows-Linked ids [] g h = tt
rows-Linked ids (x ∷ xs) g (p, h) =
    (detail-Linked ids x p (g x (head refl)), rows-Linked ids xs (λ id m. g id (tail m)) h)

-- The links of the rows are their addresses.
inspect_links-Linked :
    (ids xs ps : List String)
    → All (Linked ids) (map row_address xs)
    → All (Linked ids) ps
    → All (Linked ids) (hrefs (map inspect_link xs) ps)
inspect_links-Linked ids [] ps h k = k
inspect_links-Linked ids (x ∷ xs) ps (p, h) k = (p, inspect_links-Linked ids xs ps h k)

details_links-Linked :
    (ids xs ps : List String)
    → All (Linked ids) (map row_address xs)
    → All (Linked ids) ps
    → All (Linked ids) (hrefs (map details_link xs) ps)
details_links-Linked ids [] ps h k = k
details_links-Linked ids (x ∷ xs) ps (p, h) k = (p, details_links-Linked ids xs ps h k)

all-Linked :
    (ids hs : List String)
    → all (λ h. is_linked_to ids (route_of (path_of h))) hs ≡ true
    → All (Linked ids) hs
unfolding Linked
all-Linked ids hs h = all-All (λ h. is_linked_to ids (route_of (path_of h))) hs h

-- The links of the sidebar are nine.
beside :
    (ids : List String) (ls : List Link) (ps : List String)
    → All (Linked ids) (hrefs ls ps)
    → All (Linked ids) (hrefs (joined sidebar_links ls) ps)
unfolding Linked is_linked route_of path_of
beside ids ls ps h = (refl, (refl, (refl, (refl, (refl, (refl, (refl, (refl, (refl, h)))))))))

exits-Linked :
    (ids : List String) (r : Route)
    → All (λ id. is_part id ≡ true) ids
    → All (Linked ids) (exits ids r)
unfolding exits links pushes Linked is_linked route_of path_of
exits-Linked ids home h = all-Linked ids (exits ids home) refl
exits-Linked ids login h = all-Linked ids (exits ids login) refl
exits-Linked ids sign_up h = all-Linked ids (exits ids sign_up) refl
exits-Linked ids forgot_password h = all-Linked ids (exits ids forgot_password) refl
exits-Linked ids docs h = all-Linked ids (exits ids docs) refl
exits-Linked ids rules h = all-Linked ids (exits ids rules) refl
exits-Linked ids api_keys h = all-Linked ids (exits ids api_keys) refl
exits-Linked ids integrations h = all-Linked ids (exits ids integrations) refl
exits-Linked ids settings h = all-Linked ids (exits ids settings) refl
exits-Linked ids analytics h = all-Linked ids (exits ids analytics) refl
exits-Linked ids (detail id) h = all-Linked ids (exits ids (detail id)) refl
exits-Linked ids overview h =
    beside ids (joined empty_links recent_links) (pushes ids overview)
      (refl, (refl, (refl, rows-Linked ids ids (λ id m. m) h)))
exits-Linked ids queue h =
    let rows = rows-Linked ids ids (λ id m. m) h in
    beside ids (map inspect_link ids) (pushes ids queue)
      (inspect_links-Linked ids ids (pushes ids queue) rows (refl, rows))
exits-Linked ids submissions h =
    let rows = rows-Linked ids ids (λ id m. m) h in
    beside ids (map details_link ids) (pushes ids submissions)
      (details_links-Linked ids ids (pushes ids submissions) rows (refl, rows))

Reachable-linked :
    (ids : List String) (r : Route)
    → All (λ id. is_part id ≡ true) ids
    → Reachable ids r
    → is_linked ids r ≡ true
unfolding Linked is_linked
Reachable-linked ids r h start = refl
Reachable-linked ids s h (follow {r = r} href reached m e) =
    let linked = All-Memᴰ (Linked ids) href (exits ids r) (exits-Linked ids r h) m in rw e at linked

pushed : {h : String} (ls : List Link) (ps : List String) → Memᴰ h ps → Memᴰ h (hrefs ls ps)
pushed [] ps m = m
pushed (l ∷ ls) ps m = tail (pushed ls ps m)

row-Memᴰ :
    (id : String) (ids : List String) → Memᴰ id ids → Memᴰ (row_address id) (map row_address ids)
row-Memᴰ id [] m = elim m [ ]
row-Memᴰ id (x ∷ xs) (head e) = head (ap row_address e)
row-Memᴰ id (x ∷ xs) (tail m) = tail (row-Memᴰ id xs m)

module _ (ids : List String) where
  -- One more address of a page that is reached.
  via :
      (r s : Route) (href : String)
      → Reachable ids r
      → any (λ h. href == h) (exits ids r) ≡ true
      → route_of (path_of href) ≡ some s
      → Reachable ids s
  via r s href reached h e = follow href reached (Memᴰ-any href (exits ids r) h) e

  login-Reachable : Reachable ids login
  unfolding exits links pushes route_of path_of
  login-Reachable = via home login "/login" start refl refl

  overview-Reachable : Reachable ids overview
  unfolding exits links pushes route_of path_of
  overview-Reachable = via login overview "/dashboard" login-Reachable refl refl

  linked-Reachable :
      (r : Route) → All (λ id. is_part id ≡ true) ids → is_linked ids r ≡ true → Reachable ids r
  unfolding exits links pushes route_of path_of is_linked
  linked-Reachable home h k = start
  linked-Reachable login h k = login-Reachable
  linked-Reachable sign_up h k = via home sign_up "/signup" start refl refl
  linked-Reachable forgot_password h k = cc
  linked-Reachable docs h k = via home docs "/docs" start refl refl
  linked-Reachable overview h k = overview-Reachable
  linked-Reachable queue h k = via overview queue "/dashboard/queue" overview-Reachable refl refl
  linked-Reachable submissions h k =
      via overview submissions "/dashboard/submissions" overview-Reachable refl refl
  linked-Reachable rules h k = via overview rules "/dashboard/rules" overview-Reachable refl refl
  linked-Reachable api_keys h k =
      via overview api_keys "/dashboard/api-keys" overview-Reachable refl refl
  linked-Reachable integrations h k =
      via overview integrations "/dashboard/integrations" overview-Reachable refl refl
  linked-Reachable settings h k =
      via overview settings "/dashboard/settings" overview-Reachable refl refl
  linked-Reachable analytics h k = cc
  linked-Reachable (detail id) h k =
      let m = Memᴰ-any id ids k in
      let part = All-Memᴰ (λ id. is_part id ≡ true) id ids h m in
      follow (row_address id) overview-Reachable
        (pushed (links ids overview) (pushes ids overview) (tail (row-Memᴰ id ids m)))
        (route_of_detail_path id part)

  -- A visitor of the landing page comes, by links and by what the handlers push, to every page but
  -- the one that resets a password and the one of the analytics, and to the submissions that are
  -- listed, but to no other, where the ids of the listed requests are parts of a path.
  pub Reachable_iff :
      (r : Route) → All (λ id. is_part id ≡ true) ids → Reachable ids r ↔ (is_linked ids r ≡ true)
  Reachable_iff r h = (Reachable-linked ids r h, linked-Reachable r h)
