-- ===== src/Submissions/Paging.antt =====
-- The paging of the submissions page
-- (frontend/tenant-dashboard/app/dashboard/submissions/page.tsx).
use modera_shield.Base.{
  ◌+◌, ◌/◌, ◌↔◌, ℕ, ok, thrown, ◌*◌, ◌≤◌, ◌<◌, ◌-◌, String, Bool, true, false, Option, none, some,
  [], ◌≡◌, refl, arith, if◌then◌else◌, Bool-cases, inl, inr, present,
}
use modera_shield.Client.Types.{RecentRequestsResponse}
use modera_shield.Submissions.{
  Ui, View, loading, failed, nothing_found, table, Controls, controls, view, click, Click, previous,
  next, clear, refresh, retry, opens, begin, finish, search, choose, total_pages, previous_page,
  next_page, filtered_items, turn, on_table, has_clear_button, handle_clear_filters, settled,
}

-- The page number names a page of the log.
pub record InRange (u : Ui) : Type 0 where
  pub lower : 1 ≤ u.page
  pub upper : u.page ≤ total_pages u

-- Where a page of the log is loaded and the log is not empty, the pages hold all the requests, and
-- the last page is not empty.
total_pages_bounds :
    (u : Ui) (res : RecentRequestsResponse)
    → u.content ≡ some res
    → 1 ≤ res.total
    → (res.total ≤ total_pages u * 25) × ((total_pages u - 1) * 25 < res.total)
unfolding total_pages
total_pages_bounds u res e h = rw e (omega arith, omega arith)

-- The number of pages is that of the content.
clear_upper : (u : Ui) → InRange u → u.page ≤ total_pages (handle_clear_filters u)
unfolding total_pages handle_clear_filters
clear_upper u r = r.upper

search_upper :
    (text : String) (u : Ui) → InRange u → u.page ≤ total_pages (record u { search_id = text })
unfolding total_pages
search_upper text u r = r.upper

choose_upper :
    (status : String) (u : Ui)
    → InRange u
    → u.page ≤ total_pages (record u { status_filter = status })
unfolding total_pages
choose_upper status u r = r.upper

previous_page-InRange : (u : Ui) → InRange u → InRange (previous_page u)
unfolding previous_page total_pages
previous_page-InRange u r = record { lower = omega arith; upper = omega arith }

next_page-InRange : (u : Ui) → InRange u → InRange (next_page u)
unfolding next_page total_pages
next_page-InRange u r = record { lower = omega arith; upper = omega arith }

module _ (u : Ui) (P : Ui → Type 0) (stay : P u) where
  on_table_rule :
      (v : View) (disabled : Controls → Bool) (u' : Ui)
      → P u'
      → P (on_table v (λ c. if disabled c then u else u') u)
  on_table_rule (table rows c) disabled u' h = elim (Bool-cases (disabled c)) [
    | inl e ↦ rw e stay
    | inr e ↦ rw e h
  ]
  on_table_rule loading disabled u' h = stay
  on_table_rule (failed error) disabled u' h = stay
  on_table_rule nothing_found disabled u' h = stay

-- In range, with the content of the page `u`.
abbrev Keeps : Ui → Ui → Type 0
Keeps u u' = InRange u' × (u'.content ≡ u.content)

begun_lem : (u : Ui) → InRange u → Keeps u (begin u)
unfolding begin total_pages
begun_lem u r = (record { lower = r.lower; upper = r.upper }, refl)

turn-InRange : (v : View) (c : Click) (u : Ui) → InRange u → Keeps u (turn v c u)
unfolding previous_page next_page handle_clear_filters
turn-InRange v previous u r =
    on_table_rule u (Keeps u) (r, refl) v (λ c. c.previous_disabled) (previous_page u)
      (previous_page-InRange u r, refl)
turn-InRange v next u r =
    on_table_rule u (Keeps u) (r, refl) v (λ c. c.next_disabled) (next_page u)
      (next_page-InRange u r, refl)
turn-InRange v refresh u r = begun_lem u r
turn-InRange loading retry u r = (r, refl)
turn-InRange (failed error) retry u r = begun_lem u r
turn-InRange nothing_found retry u r = (r, refl)
turn-InRange (table rows c) retry u r = (r, refl)
turn-InRange v (opens id) u r = (r, refl)
turn-InRange v clear u r = elim (Bool-cases (has_clear_button u)) [
  | inl e ↦ rw e (record { lower = r.lower; upper = clear_upper u r }, refl)
  | inr e ↦ rw e (r, refl)
]
turn-InRange v (search text) u r = (record { lower = r.lower; upper = search_upper text u r }, refl)
turn-InRange v (choose status) u r =
    (record { lower = r.lower; upper = choose_upper status u r }, refl)

-- The number of pages that an answer speaks of.
abbrev pub pages_in : RecentRequestsResponse → ℕ
pages_in res = (res.total + 24) / 25

finish_range :
    (res : RecentRequestsResponse) (u : Ui)
    → 1 ≤ u.page
    → InRange (finish (ok res) u) ↔ (u.page ≤ pages_in res)
unfolding finish total_pages
finish_range res u l = (λ r. r.upper, λ h. record { lower = l; upper = h })

failed_range : (e : String) (u : Ui) → InRange u → InRange (finish (thrown e) u)
unfolding finish total_pages
failed_range e u r = record { lower = r.lower; upper = r.upper }

-- Where the page number is in the range of the log, no click takes it out of that range, or drops
-- what was loaded; nor does the failure of a call, and the answer to one takes it out exactly where
-- the log has fewer pages by then.
pub click-InRange :
    (c : Click) (u : Ui)
    → InRange u
    → InRange (click c u)
      × ((click c u).content ≡ u.content)
      × ((e : String) → InRange (finish (thrown e) u))
      × ((res : RecentRequestsResponse) → InRange (finish (ok res) u) ↔ (u.page ≤ pages_in res))
unfolding click
click-InRange c u r =
    let (kept, same) = turn-InRange (view u) c u r in
    (kept, same, λ e. failed_range e u r, λ res. finish_range res u r.lower)

-- Where the table is shown, "next" leads to the following page while there is one, and "previous"
-- leads back from it.
next-previous :
    (u : Ui)
    → InRange u
    → u.page < total_pages u
    → ((next_page u).page ≡ u.page + 1) × (previous_page (next_page u) ≡ u)
unfolding next_page previous_page
next-previous u r h =
    let forth : (next_page u).page ≡ u.page + 1 = omega arith in
    let back : (previous_page (next_page u)).page ≡ u.page = omega arith in
    (forth, λ i. record u { page = back i })

settled_empty :
    (loads : Bool) (error : Option String) (k : Controls) (u u' : Ui) (disabled : Controls → Bool)
    → on_table (if loads then loading else settled error k []) (λ c. if disabled c then u else u') u
      ≡ u
settled_empty true error k u u' disabled = refl
settled_empty false none k u u' disabled = refl
settled_empty false (some error) k u u' disabled = refl

view_empty :
    (u : Ui)
    → filtered_items u ≡ []
    → (disabled : Controls → Bool) (u' : Ui)
    → on_table (view u) (λ c. if disabled c then u else u') u ≡ u
unfolding view
view_empty u e disabled u' =
    rw e (settled_empty u.is_loading (present u.error) (controls u) u u' disabled)

-- Where no item of the loaded page passes the filters, clicks on the buttons for the pages do
-- nothing, whatever the number of pages.
pub nothing_found-no_paging :
    (u : Ui) → filtered_items u ≡ [] → (click next u ≡ u) × (click previous u ≡ u)
unfolding click
nothing_found-no_paging u e =
    (stays (λ c. c.next_disabled) (next_page u), stays (λ c. c.previous_disabled) (previous_page u))
  where
    stays :
        (disabled : Controls → Bool) (u' : Ui)
        → on_table (view u) (λ c. if disabled c then u else u') u ≡ u
    stays disabled u' = view_empty u e disabled u'
