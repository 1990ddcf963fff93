-- ===== src/Tests/Routes.antt =====
-- The pages' links at concrete requests.
use modera_shield.Base.{String, List, [], ◌∷◌, All, ◌≡◌, refl, ◌↔◌, true}
use modera_shield.Routes.{submissions, detail, is_plain}
use modera_shield.Routes.Links.{links}
use modera_shield.Routes.Laws.{Arrives, links-Arrive}
use modera_shield.Routes.Reach.{Reachable, is_linked, Reachable_iff}

abbrev listed_ids : List String
listed_ids = "req_1" ∷ "req_2" ∷ []

links-Arrive_example : All (Arrives submissions) (links listed_ids submissions)
unfolding is_plain
links-Arrive_example = links-Arrive listed_ids submissions (refl, (refl, tt))

Reachable_iff_example :
    Reachable listed_ids (detail "req_2") ↔ (is_linked listed_ids (detail "req_2") ≡ true)
unfolding is_plain
Reachable_iff_example = Reachable_iff listed_ids (detail "req_2") (refl, (refl, tt))
