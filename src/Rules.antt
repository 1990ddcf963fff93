-- ===== src/Rules.antt =====
-- frontend/tenant-dashboard/app/dashboard/rules/page.tsx: the rules and the thresholds of the model,
-- which the page only shows.
pub mod Laws
use modera_shield.Base.{ℕ, String, Option, none, some, List, [], ◌∷◌, map}
use modera_shield.Client.Types.{Decimal}
use modera_shield.Numeric.{fraction_of, times, round, to_fixed}
use modera_shield.TopNav.{Props}

pub record Rule : Type 0 where
  pub category : String
  pub name : String
  pub threshold : Decimal
  pub description : String

-- `hundredths / 100`
abbrev hundredths : ℕ → Decimal
hundredths n = record { units = n; scale = 2 }

abbrev rules : List Rule
rules =
    record {
      category = "toxic";
      name = "Toxic Content";
      threshold = hundredths 85;
      description =
          "Rude, disrespectful, or unreasonable content that is likely to make users leave a discussion.";
    }
    ∷ record {
      category = "insult";
      name = "Insult";
      threshold = hundredths 80;
      description =
          "Inflammatory, degrading, or mocking language targeted at individuals or groups.";
    }
    ∷ record {
      category = "threat";
      name = "Threat";
      threshold = hundredths 70;
      description =
          "Statements expressing intent to inflict pain, injury, damage, or other hostile action on someone.";
    }
    ∷ record {
      category = "obscene";
      name = "Obscene";
      threshold = hundredths 80;
      description =
          "Vulgar, profane, or sexually explicit comments inappropriate for general audience channels.";
    }
    ∷ record {
      category = "severe_toxic";
      name = "Severe Toxic";
      threshold = hundredths 75;
      description =
          "Extremely offensive or hateful expressions including extreme profanity or violent harassment.";
    }
    ∷ record {
      category = "identity_hate";
      name = "Identity Hate";
      threshold = hundredths 75;
      description =
          "Hate speech, bias, or slurs targeting race, gender, religion, sexual orientation, or disability.";
    }
    ∷ []

-- The card of a rule: the badge, and the percentage that is written and that the bar is as wide as.
pub record Card : Type 0 where
  pub name : String
  pub category : String
  pub badge : String
  pub description : String
  pub percent : ℕ

unfoldable card : Rule → Card
card rule = record {
  name = rule.name;
  category = rule.category;
  badge = to_fixed 2 (fraction_of rule.threshold);
  description = rule.description;
  percent = round (times 100 (fraction_of rule.threshold));
}

pub record View : Type 0 where
  pub title : String
  pub description : String
  pub notice : String
  pub notice_text : String
  pub cards : List Card
  pub question : String
  pub answer : String
  pub link : String
  pub link_text : String

unfoldable view : View
unfolding card
view = record {
  title = "Rules & Thresholds";
  description = "Configuration parameters for the active AI text moderation model";
  notice = "Read-only configuration";
  notice_text =
      "Model thresholds are determined at the organization tenant level to ensure uniform safety controls. To request adjustments to your active classification weights, contact security policy administration.";
  cards = map card rules;
  question = "Need a custom safety configuration?";
  answer =
      "Enterprise subscribers can define custom categories, customize thresholds, and support manual human overrides.";
  link = "/docs";
  link_text = "Read Policy Docs";
}
