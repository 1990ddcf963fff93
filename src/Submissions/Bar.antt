-- ===== src/Submissions/Bar.antt =====
-- frontend/tenant-dashboard/app/dashboard/submissions/page.tsx: the bar with the filters, above the
-- log.
use modera_shield.Base.{
  String, Bool, true, false, List, [], ◌∷◌, ◌≡◌, refl, arith, trim, ◌==◌, eq_iff,
}
use modera_shield.Submissions.{Ui, has_clear_button, handle_clear_filters, filtered_items, items_of}

pub record Choice : Type 0 where
  pub value : String
  pub label : String

abbrev choice : String → String → Choice
choice value label = record { value = value; label = label }

abbrev status_choices : List Choice
status_choices =
    choice "all" "All Statuses"
    ∷ choice "approved" "Approved"
    ∷ choice "flagged" "Flagged"
    ∷ choice "failed" "Failed"
    ∷ []

-- The text that is searched for, the chosen status among those that are offered, and whether the
-- filters can be cleared. The button that refreshes the log is always there.
pub record Bar : Type 0 where
  pub title : String
  pub description : String
  pub placeholder : String
  pub search_id : String
  pub status_filter : String
  pub choices : List Choice
  pub has_clear : Bool
  pub refresh : String

bar : Ui → Bar
bar u = record {
  title = "Submissions Log";
  description = "Verify raw API moderation history, status, and classification details";
  placeholder = "Search by Request ID...";
  search_id = u.search_id;
  status_filter = u.status_filter;
  choices = status_choices;
  has_clear = has_clear_button u;
  refresh = "Refresh";
}

-- The button that clears the filters goes away with them.
cleared-has_clear : (u : Ui) → (bar (handle_clear_filters u)).has_clear ≡ false
unfolding bar has_clear_button handle_clear_filters
cleared-has_clear u = refl

-- Where the filters cannot be cleared, the page lists all that is loaded.
unfiltered_lem : (u : Ui) → (bar u).has_clear ≡ false → filtered_items u ≡ items_of u.content
unfolding bar has_clear_button filtered_items trim
unfiltered_lem u h =
    let no_search : u.search_id ≡ "" = (eq_iff u.search_id "").0 (ground (arith, h)) in
    let all_shown : (u.status_filter == "all") ≡ true = ground (arith, h) in
    rw (all_shown, no_search) refl
