-- ===== src/Tests/Requests.antt =====
-- The pages of the moderated requests: the log, one request, the queue and the simulator.
use modera_shield.Base.{
  ◌==◌, String, ◌↔◌, ok, thrown, ◌≤◌, true, false, none, some, [], ◌∷◌, ◌≡◌, refl, length, filter,
  trim, to_lower_case, includes, arith,
}
use modera_shield.Client.Types.{ModerationResultResponse, RecentRequestItem, RecentRequestsResponse}
use modera_shield.Client.Browser.{World}
use modera_shield.Client.Http.{request, receive}
use modera_shield.Client.Api.{get_request_detail}
use modera_shield.Page.{Page}
use modera_shield.Submissions
use modera_shield.Submissions.{
  filtered_items, matches_id, matches_status, total_pages, next_page, previous_page, click, next,
  previous, finish,
}
use modera_shield.Submissions.Filters.{keeps, IsWanted, filtered_items-eq-filter}
use modera_shield.Submissions.Paging.{pages_in, InRange, click-InRange, nothing_found-no_paging}
use modera_shield.Detail
use modera_shield.Detail.{poll, wait, set_detail}
use modera_shield.Detail.Laws.{poll_failure_stops, wait_shows_decision}
use modera_shield.Queue
use modera_shield.Landing
use modera_shield.Landing.View
use modera_shield.Landing.Laws.{run_simulation_ends, run_simulation-denied}
use modera_shield.Tests.{serving, denying, offline, visitor, member, log, result, page_of}

-- The first page of the log, loaded, with a search that some items pass, and one that none passes.
abbrev loaded : Submissions.Ui
loaded = record Submissions.initial { is_loading = false; content = some log; search_id = " req " }

abbrev nowhere : Submissions.Ui
nowhere = record loaded { search_id = "Req-9" }

loaded-InRange : InRange loaded
unfolding total_pages
loaded-InRange = record { lower = omega arith; upper = omega arith }

filtered_items-eq-filter_example :
    (filtered_items loaded ≡ filter (keeps loaded) log.items)
    × ((item : RecentRequestItem) → (keeps loaded item ≡ true) ↔ IsWanted loaded item)
filtered_items-eq-filter_example = filtered_items-eq-filter loaded

click-InRange_example :
    InRange (click next loaded)
    × ((click next loaded).content ≡ some log)
    × ((e : String) → InRange (finish (thrown e) loaded))
    × ((res : RecentRequestsResponse) → InRange (finish (ok res) loaded) ↔ (1 ≤ pages_in res))
click-InRange_example = click-InRange next loaded loaded-InRange

nothing_found-no_paging_example :
    (click next nowhere ≡ nowhere) × (click previous nowhere ≡ nowhere)
unfolding filtered_items matches_id matches_status trim to_lower_case includes
nothing_found-no_paging_example = nothing_found-no_paging nowhere refl

-- A request that is shown and not decided.
abbrev waiting : Page Detail.Ui
waiting =
    page_of
      (record { is_loading = false; error = none; detail = some (result "queued"); timer = true })
      member

wait_shows_decision_example :
    (d : ModerationResultResponse) × (Detail.view (wait (serving 1) "Req-2" 2 waiting).ui
      ≡ Detail.shown (Detail.card d))
    × (Detail.is_final d.status ≡ true)
    × ((wait (serving 1) "Req-2" 2 waiting).ui.timer ≡ false)
unfolding get_request_detail request receive poll Detail.is_final
wait_shows_decision_example =
    wait_shows_decision (serving 1) "Req-2" 1 waiting (record { is_loading = refl; error = refl })
      refl (_, refl, refl, (_, refl, refl))

poll_failure_stops_example :
    (Detail.view (poll offline "Req-2" waiting).1.ui ≡ Detail.view waiting.ui)
    × (wait offline "Req-2" 30 (poll offline "Req-2" waiting).1 ≡ (poll offline "Req-2" waiting).1)
unfolding get_request_detail request receive
poll_failure_stops_example = poll_failure_stops offline "Req-2" waiting "Failed to fetch" 30 refl

abbrev queue : Page Queue.Ui
queue = page_of Queue.initial member

abbrev landing : World → Page Landing.Ui
landing w = page_of Landing.initial w

run_simulation_ends_example :
    ((Landing.run_simulation
        (serving 4)
        (record { units = 142; scale = 1 })
        "hi"
        (landing member)).1.ui.is_simulating
      ≡ false)
    × ((Landing.View.view
          (Landing.run_simulation
            (serving 4)
            (record { units = 142; scale = 1 })
            "hi"
            (landing member)).1.ui).disabled
        ≡ (trim
              (Landing.run_simulation
                (serving 4)
                (record { units = 142; scale = 1 })
                "hi"
                (landing member)).1.ui.input_text
            == ""))
    × (length
          (Landing.run_simulation
            (serving 4)
            (record { units = 142; scale = 1 })
            "hi"
            (landing member)).1.world.sent
        ≤ 12)
run_simulation_ends_example =
    run_simulation_ends (serving 4) (record { units = 142; scale = 1 }) "hi" (landing member)

run_simulation-denied_example :
    ((Landing.run_simulation
        (denying 401)
        (record { units = 1; scale = 0 })
        "hi"
        (landing visitor)).1.world.visited
      ≡ "/login?error=session_expired" ∷ [])
    × ((Landing.run_simulation
          (denying 401)
          (record { units = 1; scale = 0 })
          "hi"
          (landing visitor)).1.ui.sim_result
        ≡ Landing.offline_result "hi")
run_simulation-denied_example =
    run_simulation-denied (denying 401) (record { units = 1; scale = 0 }) "hi" (landing visitor) _
      refl refl refl
