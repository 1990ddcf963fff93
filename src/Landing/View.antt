-- ===== src/Landing/View.antt =====
-- What frontend/tenant-dashboard/app/page.tsx shows of the simulator and of the samples.
use modera_shield.Base.{
  ℕ, String, Bool, false, ◌||◌, Option, none, some, List, [], ◌∷◌, All, map, ◌≡◌, arith, ◌==◌,
  if◌then◌else◌, replace_underscore, text_length, trim,
}
use modera_shield.Client.Types.{Decimal}
use modera_shield.Numeric.{fraction_of, times, round, to_fixed, is_over_half}
use modera_shield.Landing.{Tab, python, curl, Ui, set_input_text}

pub record Preset : Type 0 where
  pub label : String
  pub text : String

abbrev presets : List Preset
presets =
    record { label = "Toxic Insult"; text = "You are such a stupid idiot and I hate you." }
    ∷ record { label = "Threat"; text = "I will hunt you down and destroy you." }
    ∷ record { label = "Clean Text"; text = "Thank you so much for this amazing platform!" }
    ∷ []

-- A score: its name with the first underscore as a space, the score with four decimals, the width
-- of its bar in percent, and whether it is drawn as a high one.
pub record Bar : Type 0 where
  pub category : String
  pub score : String
  pub percent : ℕ
  pub is_high : Bool

unfoldable pub bar : String × Decimal → Bar
bar (category, score) = record {
  category = replace_underscore category;
  score = to_fixed 4 (fraction_of score);
  percent = round (times 100 (fraction_of score));
  is_high = is_over_half (fraction_of score);
}

-- Whether `is_flagged` counts as true.
abbrev counts : Option Bool → Bool
counts (some flagged) = flagged
counts none = false

abbrev python_sample : String
python_sample =
    "# Install the SDK: pip install moderashield\nfrom moderashield import Moderashield\n\n# Initialize the client\nclient = Moderashield(api_key=\"msk_your_key_here\")\n\n# Moderate a text string (synchronous wrapper around async queue)\nresult = client.moderate_text(\"This text is completely safe!\")\n\nif result.is_flagged:\n    print(f\"Content flagged: {result.categories}\")\nelse:\n    print(\"Content approved!\")"

abbrev curl_sample : String
curl_sample =
    "curl -X POST http://localhost:8000/api/v1/moderate/ \\\n  -H \"X-API-Key: msk_your_key_here\" \\\n  -H \"Content-Type: application/json\" \\\n  -d '{\n    \"content_type\": \"text\",\n    \"content\": \"This text is completely safe!\"\n  }'"

abbrev sample_of : Tab → String
sample_of python = python_sample
sample_of curl = curl_sample

-- The button and the panel of the simulator, and the sample.
pub record View : Type 0 where
  pub disabled : Bool
  pub character_count : ℕ
  pub button : String
  pub model : String
  pub latency : String
  pub verdict : String
  pub flagged : String
  pub bars : List Bar
  pub sample : String

unfoldable pub view : Ui → View
unfolding bar
view u = record {
  disabled = u.is_simulating || (trim u.input_text == "");
  character_count = text_length u.input_text;
  button = if u.is_simulating then "Analyzing..." else "Test Moderation API";
  model = u.sim_result.model;
  latency = u.sim_result.latency;
  verdict = if counts u.sim_result.is_flagged then "Flagged / Blocked" else "Approved";
  flagged = if counts u.sim_result.is_flagged then "True" else "False";
  bars = map bar u.sim_result.scores;
  sample = sample_of u.active_tab;
}

-- A preset fills in its text, and then the button can be pressed unless a simulation runs.
presets-ready :
    (u : Ui)
    → All (λ (p : Preset). (view (set_input_text p.text u)).disabled ≡ u.is_simulating) presets
unfolding view set_input_text trim
presets-ready u = (ground arith, (ground arith, (ground arith, tt)))
