-- ===== src/Tests/Fetches.antt =====
-- Pages that fetch again while calls are pending.
use modera_shield.Base.{ℕ, String, some, List, [], ◌∷◌, Result, ok, ◌≡◌, refl, arith}
use modera_shield.Client.Types.{overview, category_metrics, UsageMetrics, RecentRequestsResponse}
use modera_shield.Analytics.{Metrics, shown, view, figures}
use modera_shield.Analytics.Fetching.{
  analytics, after, left_alone, analytics-IsShown, analytics-shows_first,
}
use modera_shield.Submissions.{click, next}
use modera_shield.Submissions.Fetching.{submissions, refreshed, submissions-shows_first}
use modera_shield.Fetching.{Event, chooses, fires, refreshes, answers, run, AtRest}
use modera_shield.Fetching.Laws.{IsShown}
use modera_shield.Fetching.Overtaken.{overtaken, IsStale}
use modera_shield.Tests.{sample, item, log}

-- The usage differs with the range.
abbrev usage_in : String → UsageMetrics
usage_in range = record {
  days = record { date = range; requests = 1; approved = 1; flagged = 0; failed = 0 } ∷ [];
}

abbrev metrics_in : String → Metrics
metrics_in range = record {
  ov = sample "approved" overview;
  us = usage_in range;
  cat = sample "approved" category_metrics;
}

abbrev reply_for : String → Result Metrics
reply_for range = ok (metrics_in range)

-- The range is changed, and one of the calls is answered.
abbrev changed_once : List (Event String)
changed_once = fires ∷ chooses "7d" ∷ fires ∷ answers 0 ∷ []

analytics-IsShown_example :
    AtRest (left_alone reply_for changed_once)
    × IsShown analytics reply_for (left_alone reply_for changed_once).ui
    × (view (left_alone reply_for changed_once).ui
        ≡ shown (figures (left_alone reply_for changed_once).ui))
analytics-IsShown_example =
    analytics-IsShown reply_for changed_once (λ range. (metrics_in range, refl))
      (refl, (refl, (refl, (refl, tt))))

analytics-shows_first_example :
    AtRest (after reply_for (fires ∷ overtaken "7d"))
    × ((after reply_for (fires ∷ overtaken "7d")).ui.date_range ≡ "7d")
    × ((after reply_for (fires ∷ overtaken "7d")).ui.usage_data ≡ some (usage_in "30d"))
    × (view (after reply_for (fires ∷ overtaken "7d")).ui
        ≡ shown (figures (after reply_for (fires ∷ overtaken "7d")).ui))
analytics-shows_first_example =
    analytics-shows_first reply_for "7d" (metrics_in "30d") (metrics_in "7d") refl refl refl

-- Every page of the log has the same items.
abbrev log_of : ℕ → Result RecentRequestsResponse
log_of page = ok (record log { page = page })

abbrev turned_once : List (Event ℕ)
turned_once = fires ∷ answers 0 ∷ chooses 2 ∷ refreshes ∷ fires ∷ answers 0 ∷ answers 0 ∷ []

submissions-shows_first_example :
    ((click next (refreshed log_of).ui).page ≡ 2)
    × IsStale submissions log_of 2
        (record log { page = 1 })
        (run submissions log_of (overtaken 2) (refreshed log_of))
submissions-shows_first_example =
    submissions-shows_first log_of (record log { page = 1 }) (record log { page = 2 })
      (item "Req-1" "approved") (item "Req-2" "flagged" ∷ item "Req-3" "queued" ∷ []) refl
      (omega arith) refl refl
