-- ===== src/Rules/Laws.antt =====
-- The thresholds of frontend/tenant-dashboard/app/dashboard/rules/page.tsx against the pages that
-- show scores and verdicts: frontend/tenant-dashboard/app/dashboard/submissions/[id]/page.tsx and
-- frontend/tenant-dashboard/app/page.tsx.
use modera_shield.Base.{
  ℕ, ◌*◌, ◌^◌, ◌<◌, String, Bool, true, ◌&&◌, any, ◌≡◌, refl, arith, leb, ◌==◌, Bool-cases, inl,
  inr, zero, suc,
}
use modera_shield.Client.Types.{Decimal}
use modera_shield.Numeric.{is_over_half}
use modera_shield.Rules.{Rule, rules}
use modera_shield.Detail.{bar}
use modera_shield.Landing.View
use modera_shield.Landing.{offline_result, is_toxic}

-- The score is at least the rule's threshold.
abbrev reaches : Decimal → Rule → Bool
reaches score rule =
    leb (rule.threshold.units * 10 ^ score.scale) (score.units * 10 ^ rule.threshold.scale)

-- The score is at least the threshold of the rule of its category.
abbrev pub breaks_rule : String × Decimal → Bool
breaks_rule (category, score) =
    any (λ (rule : Rule). rule.category == category && reaches score rule) rules

pow_pos : (n : ℕ) → 0 < 10 ^ n
pow_pos zero = omega arith
pow_pos (suc n) = omega (arith, pow_pos n)

-- On the page of a submission and on the landing page, the bar of a score that is at least the
-- threshold of any rule is drawn as a high one.
bar-is_high :
    (category : String) (score : Decimal)
    → any (reaches score) rules ≡ true
    → ((bar (category, score)).is_high ≡ true) × ((View.bar (category, score)).is_high ≡ true)
unfolding bar View.bar is_over_half
bar-is_high category score h =
    (ground (arith, pow_pos score.scale), ground (arith, pow_pos score.scale))

-- Without the backend, the simulator of the landing page flags a text exactly when it gives it a
-- score that is at least the threshold of its category's rule.
pub offline_result-breaks_rule :
    (input : String)
    → any breaks_rule (offline_result input).scores ≡ ((offline_result input).status == "flagged")
unfolding offline_result
offline_result-breaks_rule input = elim (Bool-cases (is_toxic input)) [
  | inl e ↦ rw e refl
  | inr e ↦ rw e refl
]
