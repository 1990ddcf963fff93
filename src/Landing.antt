-- ===== src/Landing.antt =====
-- frontend/tenant-dashboard/app/page.tsx: the simulator of the landing page.
-- `elapsed` is what `performance.now()` measures in milliseconds. The pauses of half a second are
-- left out: nothing else of the page acts on the simulation.
pub mod Laws
pub mod View
use Prim.Native.String.{◌++◌}
use modera_shield.Base.{
  ℕ, zero, suc, String, Bool, true, false, ◌&&◌, ◌||◌, Option, none, some, List, [], ◌∷◌, any, M,
  pure, modify, ◌>>=◌, ◌>>◌, try_catch, finally, ◌==◌, if◌then◌else◌, present, includes,
  to_lower_case, show_number,
}
use modera_shield.Client.Types.{Decimal, ModerationResultResponse, CreatedRequest}
use modera_shield.Client.Browser.{World}
use modera_shield.Client.Http.{Env}
use modera_shield.Client.Api.{create_moderation_request, get_request_detail}
use modera_shield.Numeric.{fraction_of, round}
use modera_shield.Page.{Page, on_world, set_ui}

pub record SimResult : Type 0 where
  pub status : String
  pub is_flagged : Option Bool
  pub model : String
  pub latency : String
  pub scores : List (String × Decimal)

-- The sample that is shown.
pub data Tab : Type 0 where
  python curl : Tab

pub record Ui : Type 0 where
  pub input_text : String
  pub is_simulating : Bool
  pub sim_result : SimResult
  pub active_tab : Tab

-- `units / 10 ^ scale`, as the source writes the scores.
abbrev decimal : ℕ → ℕ → Decimal
decimal units scale = record { units = units; scale = scale }

abbrev pub initial : Ui
initial = record {
  input_text = "Let's build a safe, respectful community together!";
  is_simulating = false;
  sim_result = record {
    status = "approved";
    is_flagged = some false;
    model = "moderashield-text-v1";
    latency = "14ms";
    scores =
        ("toxic", decimal 12 3)
        ∷ ("insult", decimal 8 3)
        ∷ ("threat", decimal 1 3)
        ∷ ("obscene", decimal 4 3)
        ∷ ("severe_toxic", decimal 2 4)
        ∷ ("identity_hate", decimal 5 4)
        ∷ [];
  };
  active_tab = python;
}

-- The presets and the text area set the text.
set_input_text : String → Ui → Ui
set_input_text text u = record u { input_text = text }

unfoldable set_active_tab : Tab → Ui → Ui
set_active_tab tab u = record u { active_tab = tab }

unfoldable pub is_final : String → Bool
is_final status = status == "approved" || status == "flagged" || status == "failed"

-- The `while` of `runSimulation`, with the attempts that are left.
unfoldable pub await_verdict :
    Env → String → ℕ → ModerationResultResponse → M World ModerationResultResponse
await_verdict env id zero detail = pure detail
await_verdict env id (suc left) detail =
    let again = get_request_detail env id >>= await_verdict env id left in
    if is_final detail.status then pure detail else again

abbrev max_attempts : ℕ
max_attempts = 10

abbrev flagged_or : Option Bool → String → Bool
flagged_or (some flagged) status = flagged
flagged_or none status = status == "flagged"

abbrev model_or_default : Option String → String
model_or_default none = "moderashield-text-v1"
model_or_default (some model) = model

unfoldable pub result_of : Decimal → ModerationResultResponse → SimResult
result_of elapsed d = record {
  status = d.status;
  is_flagged = some (flagged_or d.is_flagged d.status);
  model = model_or_default (present d.model);
  latency = show_number (round (fraction_of elapsed)) ++ "ms";
  scores = d.scores;
}

-- `/toxic|hate|kill|idiot|stupid|hurt|threat/i.test(inputText)`
unfoldable pub is_toxic : String → Bool
is_toxic input =
    any (includes (to_lower_case input))
      ("toxic" ∷ "hate" ∷ "kill" ∷ "idiot" ∷ "stupid" ∷ "hurt" ∷ "threat" ∷ [])

-- The verdict without the backend.
unfoldable pub offline_result : String → SimResult
offline_result input = record {
  status = if is_toxic input then "flagged" else "approved";
  is_flagged = some (is_toxic input);
  model = "moderashield-text-v1";
  latency = "18ms";
  scores =
      ("toxic", if is_toxic input then decimal 94 2 else decimal 3 2)
      ∷ ("insult", if is_toxic input && includes input "idiot" then decimal 91 2 else decimal 1 2)
      ∷ ("threat", if is_toxic input && includes input "kill" then decimal 97 2 else decimal 2 3)
      ∷ ("obscene", if is_toxic input then decimal 45 2 else decimal 5 3)
      ∷ ("severe_toxic", if is_toxic input then decimal 12 2 else decimal 1 3)
      ∷ ("identity_hate", if is_toxic input then decimal 8 2 else decimal 2 3)
      ∷ [];
}

-- The calls in the `try` of `runSimulation`.
abbrev pub classify : Env → String → M World ModerationResultResponse
classify env input = do
  res ← create_moderation_request env input
  detail ← get_request_detail env res.id
  await_verdict env res.id max_attempts detail

abbrev simulate : Env → Decimal → String → M (Page Ui) (Unit {0})
simulate env elapsed input = do
  detail ← on_world (classify env input)
  modify (set_ui λ u. record u { sim_result = result_of elapsed detail })

-- `runSimulation`, of the render whose input holds `input`.
unfoldable pub run_simulation : Env → Decimal → String → M (Page Ui) (Unit {0})
run_simulation env elapsed input = do
  modify (set_ui λ u. record u { is_simulating = true })
  finally
      (try_catch (simulate env elapsed input)
        (λ _. modify (set_ui λ u. record u { sim_result = offline_result input })))
      (set_ui λ u. record u { is_simulating = false })
