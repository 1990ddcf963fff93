-- ===== src/Docs/Guides.antt =====
-- The sections of frontend/tenant-dashboard/app/docs/page.tsx that introduce the API.
use modera_shield.Base.{String, [], ◌∷◌}
use modera_shield.Docs.Block.{paragraph, linked, coded, button, step, value, Section}

unfoldable pub intro : Section
intro = record {
  id = "intro";
  title = "Moderate content with one API call.";
  blocks =
      paragraph
        "ModeraShield provides enterprise-grade content safety classification services. Incorporate our AI filter pipeline into chat systems, community forums, input boxes, and message streams to prevent abuse, hate, and harassment instantly."
      ∷ button "#quickstart" "Follow Quickstart"
      ∷ [];
}

unfoldable pub quickstart : Section
quickstart = record {
  id = "quickstart";
  title = "Quickstart Guide";
  blocks =
      paragraph "Integrate ModeraShield into your application in three easy steps:"
      ∷ step 1 "Generate an API Key"
      ∷ linked "Head over to the " "/dashboard/api-keys" "API Keys console"
          " to generate your credential."
      ∷ step 2 "Install the Python SDK"
      ∷ coded "Run the command: " "pip install moderashield" ""
      ∷ step 3 "Submit Content for Classification"
      ∷ paragraph "Call the text moderation method and read classification category scores."
      ∷ [];
}

unfoldable pub auth : String → Section
auth user_api_key = record {
  id = "auth";
  title = "Authentication";
  blocks =
      coded "API requests are authenticated using the custom HTTP Header " "X-API-Key"
        ". Ensure you include this key header in all standard REST API requests."
      ∷ value "Your current console API key:" user_api_key
      ∷ [];
}

unfoldable pub limits : Section
limits = record {
  id = "limits";
  title = "Rate Limits";
  blocks =
      paragraph "Default rate limits are configured based on your tenant's plan:"
      ∷ value "Developer Plan" "60 requests/min"
      ∷ value "Enterprise Plan" "Custom SLA"
      ∷ [];
}
