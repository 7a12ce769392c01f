-- ===== src/Findings/Risk.antt =====
-- `assessRisk` of services/security/risk-engine.ts.
use ai_pr_reviewer.Prelude.{
  ℕ, min, Bool, true, false, not, ◌&&◌, ◌||◌, Option, none, some, List, [], ◌∷◌, ◌++◌, map, ltb,
  leb, if◌then◌else◌, length, any, keep, total, distinct,
}
use ai_pr_reviewer.Store.{text_eq}
use ai_pr_reviewer.Findings.Taxonomy.{
  FindingSeverity, critical, high, medium, low, info, FindingCategory, FindingSource, sast, secrets,
  dependencies, AiSuggestion, category_eq, source_eq, distance,
}

pub data RiskVerdict : Type 0 where
  block review safe : RiskVerdict

-- The texts of `reasons`, with the numbers they show.
pub data RiskReason : Type 0 where
  critical_security hardcoded_credential high_severity : RiskReason
  above_threshold non_blocking corroborations : ℕ → RiskReason

pub record RiskReport : Type 0 where
  pub score : ℕ
  pub verdict : RiskVerdict
  pub blocking_count : ℕ
  pub security_finding_count : ℕ
  pub corroborated_count : ℕ
  pub categories : List FindingCategory
  pub sast_count : ℕ
  pub secrets_count : ℕ
  pub dependencies_count : ℕ
  pub reasons : List RiskReason

abbrev pub severity_weight : FindingSeverity → ℕ
severity_weight critical = 30
severity_weight high = 15
severity_weight medium = 6
severity_weight low = 2
severity_weight info = 0

abbrev pub corroboration_window : ℕ
corroboration_window = 5

abbrev pub is_source : FindingSource → Option FindingSource → Bool
is_source s none = false
is_source s (some t) = source_eq t s

-- `f.source && PROBE_SOURCES.includes(f.source)`
abbrev pub is_probe_source : Option FindingSource → Bool
is_probe_source s = is_source sast s || (is_source secrets s || is_source dependencies s)

abbrev pub is_probe : AiSuggestion → Bool
is_probe f = is_probe_source f.source

abbrev pub is_critical : FindingSeverity → Bool
is_critical critical = true
is_critical _ = false

abbrev pub is_high : FindingSeverity → Bool
is_high high = true
is_high _ = false

unfoldable pub lines_up : AiSuggestion → AiSuggestion → Bool
lines_up probe o =
    text_eq o.file_path probe.file_path
    && leb (distance o.line_number probe.line_number) corroboration_window

unfoldable pub is_matched : List AiSuggestion → AiSuggestion → Bool
is_matched others probe = any (lines_up probe) others

abbrev pub probe_findings : List AiSuggestion → List AiSuggestion
probe_findings findings = keep is_probe findings

abbrev pub other_findings : List AiSuggestion → List AiSuggestion
other_findings findings = keep (λ f. not (is_probe f)) findings

-- The first loop: `probe.corroborated = true` in the copied findings.
unfoldable pub annotate : List AiSuggestion → List AiSuggestion
annotate findings =
    map
      (λ (f : AiSuggestion).
        if is_probe f && is_matched (other_findings findings) f
        then record f { corroborated = true }
        else f)
      findings

unfoldable pub corroborated_probes : List AiSuggestion → ℕ
corroborated_probes findings =
    length (keep (is_matched (other_findings findings)) (probe_findings findings))

unfoldable pub risk_score : List AiSuggestion → ℕ
risk_score findings = min (total (λ f. severity_weight f.priority) findings) 100

abbrev pub is_critical_security : Bool → AiSuggestion → Bool
is_critical_security policy f =
    is_critical f.priority && (not (is_source secrets f.source) || policy)

unfoldable pub has_critical_security : Bool → List AiSuggestion → Bool
has_critical_security policy findings = any (is_critical_security policy) (probe_findings findings)

unfoldable pub has_secret : Bool → List AiSuggestion → Bool
has_secret policy findings =
    policy && any (λ f. is_source secrets f.source) (probe_findings findings)

unfoldable pub has_high : List AiSuggestion → Bool
has_high findings = any (λ f. is_high f.priority) findings

abbrev pub verdict_of : Bool → Bool → ℕ → Bool → RiskVerdict
verdict_of critical_found secret_found score high_found =
    if critical_found || (secret_found || leb 75 score)
    then block
    else if leb 25 score || high_found
    then review
    else safe

abbrev pub when : Bool → RiskReason → List RiskReason
when true reason = reason ∷ []
when false reason = []

abbrev pub blocking_reasons : Bool → Bool → ℕ → Bool → List RiskReason
blocking_reasons critical_found secret_found score high_found =
    when critical_found critical_security
    ++ (when secret_found hardcoded_credential
        ++ (when (leb 75 score) (above_threshold score) ++ when high_found high_severity))

abbrev pub or_non_blocking : ℕ → List RiskReason → List RiskReason
or_non_blocking n [] = when (ltb 0 n) (non_blocking n)
or_non_blocking n (r ∷ rs) = r ∷ rs

abbrev pub is_blocking : Bool → AiSuggestion → Bool
is_blocking policy f = if is_source secrets f.source then policy else is_critical f.priority

unfoldable pub blocking_findings : Bool → ℕ → List AiSuggestion → ℕ
blocking_findings policy score findings =
    if leb 75 score
    then length (probe_findings findings)
    else length (keep (is_blocking policy) (probe_findings findings))

unfoldable pub count_source : FindingSource → List AiSuggestion → ℕ
count_source s findings = length (keep (λ f. is_source s f.source) (probe_findings findings))

-- `policy` is `options.blockOnCriticalSecret ?? true`.
unfoldable pub assess_risk : Bool → List AiSuggestion → RiskReport × List AiSuggestion
assess_risk policy findings =
    let score = risk_score findings in
    let critical_found = has_critical_security policy findings in
    let secret_found = has_secret policy findings in
    let high_found = has_high findings in
    let corroborated = corroborated_probes findings in
    (
      record {
        score = score;
        verdict = verdict_of critical_found secret_found score high_found;
        blocking_count = blocking_findings policy score findings;
        security_finding_count = length (probe_findings findings);
        corroborated_count = corroborated;
        categories = distinct category_eq [] (map (λ (f : AiSuggestion). f.agent_type) findings);
        sast_count = count_source sast findings;
        secrets_count = count_source secrets findings;
        dependencies_count = count_source dependencies findings;
        reasons =
            or_non_blocking (length findings)
              (blocking_reasons critical_found secret_found score high_found)
            ++ when (ltb 0 corroborated) (corroborations corroborated);
      },
      annotate findings,
    )
