-- ===== src/Findings/RiskTotals.antt =====
-- The numbers of a risk report agree with each other and with its verdict.
use ai_pr_reviewer.Prelude.{
  ℕ, ◌+◌, ◌≤◌, ◌<◌, ◌≡◌, refl, ◌↔◌, ◌⊎◌, Bool, true, false, ◌&&◌, ◌||◌, List, [], ◌∷◌, arith, ltb,
  length, any, keep, length-keep-le,
}
use ai_pr_reviewer.Findings.Taxonomy.{sast, secrets, dependencies, AiSuggestion}
use ai_pr_reviewer.Findings.Risk.{
  block, is_source, probe_findings, other_findings, is_matched, corroborated_probes, risk_score,
  is_critical_security, has_critical_security, has_secret, is_blocking, blocking_findings,
  count_source, assess_risk,
}

module _ {ℓ} {A : Type ℓ} where
  any-of-keep : (p : A → Bool) (xs : List A) → any p xs ≡ ltb 0 (length (keep p xs))
  any-of-keep p [] = refl
  any-of-keep p (x ∷ xs) = ground (arith, any-of-keep p xs)

probe_counts :
    (fs : List AiSuggestion)
    → count_source sast fs + count_source secrets fs + count_source dependencies fs
      ≡ length (probe_findings fs)
unfolding count_source
probe_counts [] = refl
probe_counts (f ∷ fs) = ground (arith, probe_counts fs)

blocking-le :
    (policy : Bool) (score : ℕ) (fs : List AiSuggestion)
    → blocking_findings policy score fs ≤ length (probe_findings fs)
unfolding blocking_findings
blocking-le policy score fs =
    ground (arith, length-keep-le (is_blocking policy) (probe_findings fs))

-- Below the threshold, some finding blocks exactly when a critical security finding or a secret does.
blocking-any :
    (policy : Bool) (fs : List AiSuggestion)
    → any (is_blocking policy) fs ≡ (
        any (is_critical_security policy) fs
        || (policy && any (λ f. is_source secrets f.source) fs))
blocking-any policy [] = ground arith
blocking-any true (f ∷ fs) = ground (arith, blocking-any true fs)
blocking-any false (f ∷ fs) = ground (arith, blocking-any false fs)

verdict_block :
    (policy : Bool) (fs : List AiSuggestion)
    → ((assess_risk policy fs).0.verdict ≡ block)
      ↔ ((75 ≤ risk_score fs) ⊎ (0 < blocking_findings policy (risk_score fs) fs))
unfolding assess_risk has_critical_security has_secret blocking_findings
verdict_block policy fs = ground (
  arith,
  blocking-any policy (probe_findings fs),
  any-of-keep (is_blocking policy) (probe_findings fs),
  length-keep-le (is_blocking policy) (probe_findings fs),
)

-- In every risk report the three probe counts add up to the security findings, the corroborated and
-- the blocking ones are among them, the score is at most 100, and the verdict is BLOCK exactly when
-- the score reaches 75 or something blocks.
pub risk_report_agrees :
    (policy : Bool) (fs : List AiSuggestion)
    → let report = (assess_risk policy fs).0 in
      (report.sast_count + report.secrets_count + report.dependencies_count
        ≡ report.security_finding_count)
      × (report.corroborated_count ≤ report.security_finding_count)
      × (report.blocking_count ≤ report.security_finding_count)
      × (report.score ≤ 100)
      × ((report.verdict ≡ block) ↔ ((75 ≤ report.score) ⊎ (0 < report.blocking_count)))
unfolding assess_risk corroborated_probes risk_score
risk_report_agrees policy fs = (
  probe_counts fs,
  length-keep-le (is_matched (other_findings fs)) (probe_findings fs),
  blocking-le policy (risk_score fs) fs,
  omega arith,
  verdict_block policy fs,
)
