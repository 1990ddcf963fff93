-- ===== src/Integrations/Guide.antt =====
-- The guide of frontend/tenant-dashboard/app/dashboard/integrations/page.tsx: the languages, the
-- package and the sample.
use Prim.Native.String.{◌++◌}
use modera_shield.Base.{String, Bool, List, [], ◌∷◌, map, ◌==◌, if◌then◌else◌}
use modera_shield.Client.Browser.{World}
use modera_shield.Integrations.{Ui, user_api_key}

pub record Integration : Type 0 where
  pub name : String
  pub status : String
  pub lang : String
  pub icon : String

abbrev integrations : List Integration
integrations =
    record { name = "Python SDK"; status = "supported"; lang = "python"; icon = "🐍" }
    ∷ record { name = "REST HTTP API"; status = "supported"; lang = "http"; icon = "🌐" }
    ∷ record { name = "Node.js / JS"; status = "soon"; lang = "javascript"; icon = "🟨" }
    ∷ record { name = "Go Lang"; status = "soon"; lang = "go"; icon = "🔹" }
    ∷ record { name = "Java SDK"; status = "soon"; lang = "java"; icon = "☕" }
    ∷ record { name = "Rust Crate"; status = "soon"; lang = "rust"; icon = "🦀" }
    ∷ []

pub record Card : Type 0 where
  pub icon : String
  pub name : String
  pub is_dimmed : Bool
  pub badge : String

unfoldable card : Integration → Card
card i = record {
  icon = i.icon;
  name = i.name;
  is_dimmed = i.status == "soon";
  badge = if i.status == "supported" then "Active" else "Coming Soon";
}

-- The sample under "2. Implementation Example".
shown_sample : String → String
shown_sample key =
    "from moderashield import Moderashield\n\n# Initialize the client\nclient = Moderashield(api_key=\""
    ++ (key
        ++ "\")\n\n# Run moderation\nresult = client.moderate_text(\"This text is completely safe!\")\n\nif result.is_flagged:\n    print(f\"Content blocked: {result.categories}\")\nelse:\n    print(\"Content approved!\")")

pub record View : Type 0 where
  pub cards : List Card
  pub install : String
  pub install_tick : Bool
  pub sample : String
  pub sample_tick : Bool

unfoldable view : World → Ui → View
unfolding card shown_sample
view w u = record {
  cards = map card integrations;
  install = "pip install moderashield";
  install_tick = u.copied_install;
  sample = shown_sample (user_api_key w);
  sample_tick = u.copied_code;
}
