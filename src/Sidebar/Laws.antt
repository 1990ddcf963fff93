-- ===== src/Sidebar/Laws.antt =====
-- The guard of the dashboard and the active row
-- (frontend/tenant-dashboard/components/layout/sidebar.tsx).
use modera_shield.Base.{
  ◌≤◌, String, Bool, true, false, none, some, List, [], ◌∷◌, map, All, length, filter, ◌≡◌, refl,
  ◌∙◌, ap, sym, arith, ◌==◌, eq_iff, present, Bool-cases, inl, inr,
}
use modera_shield.Client.Browser.{
  get_stored_api_key, get_stored_tenant, remove_stored_api_key, visit,
}
use modera_shield.Client.Session.{
  remove_stored_api_key-ends_session, get_stored_api_key-visit, get_stored_tenant-visit,
}
use modera_shield.Page.{Page}
use modera_shield.Sidebar.{
  Ui, NavRow, check_session, with_tenant, handle_logout, NavItem, nav_row, nav_items, view,
  toggle_user_menu,
}

-- The guard sends the browser to the login page exactly when no key is stored, and then leaves the
-- rest alone; with a key it leaves the browser alone and shows the stored tenant, if there is one.
pub check_session_lem :
    (p : Page Ui)
    → (present (get_stored_api_key p.world) ≡ none
        → ((check_session p).world ≡ visit "/login" p.world) × ((check_session p).ui ≡ p.ui))
      × ((key : String)
          → present (get_stored_api_key p.world) ≡ some key
          → ((check_session p).world ≡ p.world)
            × ((check_session p).ui ≡ with_tenant (get_stored_tenant p.world) p.ui))
unfolding check_session
check_session_lem p = (λ e. rw e (refl, refl), λ key e. rw e (refl, refl))

-- Logging out ends the session and leads to the login page; a page of the dashboard that is opened
-- then leads there too.
handle_logout-guards :
    (p : Page Ui)
    → (present (get_stored_api_key (handle_logout p).world) ≡ none)
      × (get_stored_tenant (handle_logout p).world ≡ none)
      × ((check_session (handle_logout p)).world ≡ visit "/login" (handle_logout p).world)
unfolding handle_logout
handle_logout-guards p =
    let (no_key, no_tenant, _) = remove_stored_api_key-ends_session p.world in
    let e : present (get_stored_api_key (handle_logout p).world) ≡ none =
      rw (get_stored_api_key-visit "/login" (remove_stored_api_key p.world), no_key) refl in
    (
      e,
      get_stored_tenant-visit "/login" (remove_stored_api_key p.world) ∙ no_tenant,
      ((check_session_lem (handle_logout p)).0 e).0,
    )

abbrev active : List NavRow → List NavRow
active = filter (λ (r : NavRow). r.is_active)

-- No two rows lead to the same page.
abbrev AllDistinct : List NavItem → Type 0
AllDistinct [] = Unit
AllDistinct (item ∷ items) =
    All (λ (other : NavItem). (item.href == other.href) ≡ false) items × AllDistinct items

none_active :
    (href : String) (is_collapsed : Bool) (items : List NavItem)
    → All (λ (other : NavItem). (href == other.href) ≡ false) items
    → active (map (nav_row href is_collapsed) items) ≡ []
unfolding nav_row
none_active href c [] fresh = refl
none_active href c (item ∷ items) (fresh, rest) = rw (fresh, none_active href c items rest) refl

active_lem :
    (pathname : String) (is_collapsed : Bool) (items : List NavItem)
    → AllDistinct items
    → length (active (map (nav_row pathname is_collapsed) items)) ≤ 1
unfolding nav_row
active_lem pathname c [] distinct = omega arith
active_lem pathname c (item ∷ items) (fresh, rest) = elim (Bool-cases (pathname == item.href)) [
  | inl e ↦
      let same : pathname ≡ item.href = (eq_iff pathname item.href).0 e in
      rw e (omega (arith, ap length (none_active pathname c items (rw (sym same) at fresh))))
  | inr e ↦ rw e (active_lem pathname c items rest)
]

nav_items-AllDistinct : AllDistinct nav_items
nav_items-AllDistinct = (
  (refl, (refl, (refl, (refl, (refl, (refl, (refl, tt))))))),
  (
    (refl, (refl, (refl, (refl, (refl, (refl, tt)))))),
    (
      (refl, (refl, (refl, (refl, (refl, tt))))),
      (
        (refl, (refl, (refl, (refl, tt)))),
        ((refl, (refl, (refl, tt))), ((refl, (refl, tt)), ((refl, tt), (tt, tt)))),
      ),
    ),
  ),
)

-- At most one row is active, whatever the path.
view_one_active :
    (pathname : String) (u : Ui)
    → length (filter (λ (r : NavRow). r.is_active) (view pathname u).rows) ≤ 1
unfolding view
view_one_active pathname u = active_lem pathname u.is_collapsed nav_items nav_items-AllDistinct

-- A collapsed sidebar has no menu to log out, however it was reached by clicks.
no_menu_when_collapsed :
    (pathname : String) (u : Ui)
    → u.is_collapsed ≡ true
    → ((view pathname u).has_menu ≡ false) × (toggle_user_menu u ≡ u)
unfolding view toggle_user_menu
no_menu_when_collapsed pathname u e = ground (arith, e, Bool-cases u.show_user_menu)
