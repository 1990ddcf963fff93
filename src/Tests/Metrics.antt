-- ===== src/Tests/Metrics.antt =====
-- The overview, its ring and its bars.
use mathlib.Core.List.{Permᴰ}
use modera_shield.Base.{thrown, List, ◌≡◌, refl, ◌↔◌, some, none, [], ◌∷◌, ok}
use modera_shield.Client.Types.{overview, category_metrics, usage, requests, OverviewMetrics}
use modera_shield.Client.Browser.{get_item, get_stored_api_key}
use modera_shield.Client.Http.{request, receive, Env}
use modera_shield.Client.Api.{test_connection, verified}
use modera_shield.Client.Types.{tenant_info, ReplyType, Reply}
use modera_shield.Client.Http.{Fetched, unreachable, replied, parsed}
use modera_shield.Page.{Page}
use modera_shield.Overview
use modera_shield.Overview.{send_four, receive_four, fetch_dashboard_data, Metrics}
use modera_shield.Overview.View.{view, shown, figures}
use modera_shield.Overview.Answers.{Answer, answers_of, receive_all}
use modera_shield.Overview.Arrivals.{kinds, first_failed, receive_four-in_any_order}
use modera_shield.Overview.Laws.{failed_refresh-keeps_figures}
use modera_shield.Tests.{serving, member, sample, reply, page_of}

abbrev totals : OverviewMetrics
totals = sample "approved" overview

abbrev metrics : Metrics
metrics = record {
  ov = sample "approved" overview;
  cat = sample "approved" category_metrics;
  us = sample "approved" usage;
  req = sample "approved" requests;
}

abbrev sent : Overview.Sent
sent = send_four (serving 0) 7 member

-- The answer for the usage is the first to arrive.
abbrev arrived : List Answer
arrived =
    record { kind = usage; fetched = sent.us }
    ∷ record { kind = overview; fetched = sent.ov }
    ∷ record { kind = category_metrics; fetched = sent.cat }
    ∷ record { kind = requests; fetched = sent.req }
    ∷ []

arrived-Permᴰ : Permᴰ arrived (answers_of sent)
arrived-Permᴰ = Permᴰ.trans (Permᴰ.swap refl refl) (
    Permᴰ.cons refl (
      Permᴰ.trans (Permᴰ.swap refl refl)
        (Permᴰ.cons refl (Permᴰ.cons refl (Permᴰ.cons refl Permᴰ.nil)))))

receive_four-in_any_order_example :
    ((receive_four (kinds arrived) sent).1 ≡ receive_all arrived sent.world)
    × (((receive_four (kinds arrived) sent).0 ≡ ok metrics) ↔ (
        ((receive sent.ov sent.world).0 ≡ ok metrics.ov)
        × ((receive sent.cat sent.world).0 ≡ ok metrics.cat)
        × ((receive sent.us member).0 ≡ ok metrics.us)
        × ((receive sent.req sent.world).0 ≡ ok metrics.req)))
    × (((receive_four (kinds arrived) sent).0 ≡ thrown "Failed to fetch")
        ↔ (first_failed sent.world arrived ≡ some "Failed to fetch"))
receive_four-in_any_order_example =
    receive_four-in_any_order sent metrics sent.world sent.world member sent.world "Failed to fetch"
      arrived arrived-Permᴰ

abbrev page : Page Overview.Ui
page = page_of (record Overview.initial { overview_data = some totals }) member

-- A backend that verifies keys and fails to give metrics.
abbrev half : (t : ReplyType) → Fetched (Reply t)
half tenant_info = replied (reply 200 (parsed (sample "approved" tenant_info)))
half _ = unreachable "Failed to fetch"

abbrev half_serving : Env
half_serving = record { api_url = none; fetch = λ n t r. half t }

failed_refresh-keeps_figures_example :
    (u : Overview.Ui) × (view (fetch_dashboard_data half_serving [] "30d" page).1.ui
      ≡ shown (figures u))
    × (u.overview_data ≡ some totals)
    × (u.category_data ≡ none)
    × (u.usage_data ≡ none)
    × (u.requests_data ≡ none)
unfolding get_stored_api_key get_item test_connection request receive send_four receive_four
failed_refresh-keeps_figures_example =
    failed_refresh-keeps_figures half_serving [] "30d" page "msk_live"
      (verified (sample "approved" tenant_info)) refl refl refl "Failed to fetch" totals refl refl
