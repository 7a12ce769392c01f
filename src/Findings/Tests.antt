-- ===== src/Findings/Tests.antt =====
-- Tests of the findings.
use ai_pr_reviewer.Prelude.{
  ◌+◌, ◌≤◌, ◌<◌, ◌≡◌, refl, ◌↔◌, ◌⊎◌, true, false, none, some, List, [], ◌∷◌, length, if◌then◌else◌,
}
use Prim.Native.String.{String, ◌++◌}
use text.Mathlib.Text.{◌==◌ as str_eq}
use ai_pr_reviewer.Settings.Strings.{trim, trim_start, trim_end}
use ai_pr_reviewer.Findings.Separators.{underscored_from}
use ai_pr_reviewer.Findings.Spelling.{named, spelling_is_lenient}
use ai_pr_reviewer.Findings.Taxonomy.{
  lookup, severity_aliases, category_aliases, normalize_severity, normalize_category, bug,
  AiSuggestion, critical, high, medium, security, secrets, llm,
}
use ai_pr_reviewer.Findings.Risk.{
  block, assess_risk, has_critical_security, has_secret, has_high, risk_score, corroborated_probes,
  is_matched, lines_up,
}
use ai_pr_reviewer.Store.{Text}
use ai_pr_reviewer.Findings.Dedup.{
  deduplicate, add_findings, add_finding, merge_target, is_exact, sort_words, insert_word,
  same_anchor,
}
use ai_pr_reviewer.Findings.Coverage.{IsCovered, deduplicate_covers}
use ai_pr_reviewer.Findings.RiskTotals.{risk_report_agrees}
use ai_pr_reviewer.Findings.RiskGrowth.{verdict_rank, added_finding_never_lowers_risk}

abbrev leak : AiSuggestion
leak = record {
  verified_anchor = none;
  file_path = 97 ∷ 46 ∷ 116 ∷ [];
  line_number = 10;
  agent_type = security;
  issue = 107 ∷ [];
  suggestion = 114 ∷ [];
  priority = critical;
  source = some secrets;
  sources = none;
  rule_keys = none;
  corroborated = false;
}

abbrev model_leak : AiSuggestion
model_leak = record leak { line_number = 14; priority = high; source = some llm }

leak_verdict : (assess_risk true (leak ∷ model_leak ∷ [])).0.verdict ≡ block
unfolding assess_risk has_critical_security has_secret has_high risk_score
leak_verdict = refl

leak_corroborated : (assess_risk true (leak ∷ model_leak ∷ [])).0.corroborated_count ≡ 1
unfolding assess_risk corroborated_probes is_matched lines_up
leak_corroborated = refl

risk_report_agrees_example :
    let report = (assess_risk true (leak ∷ model_leak ∷ [])).0 in
    (report.sast_count + report.secrets_count + report.dependencies_count
      ≡ report.security_finding_count)
    × (report.corroborated_count ≤ report.security_finding_count)
    × (report.blocking_count ≤ report.security_finding_count)
    × (report.score ≤ 100)
    × ((report.verdict ≡ block) ↔ ((75 ≤ report.score) ⊎ (0 < report.blocking_count)))
risk_report_agrees_example = risk_report_agrees true (leak ∷ model_leak ∷ [])

added_finding_never_lowers_risk_example :
    let old = (assess_risk true (model_leak ∷ [])).0 in
    let new = (assess_risk true (model_leak ∷ leak ∷ [])).0 in
    (old.score ≤ new.score) × (verdict_rank old.verdict ≤ verdict_rank new.verdict)
added_finding_never_lowers_risk_example =
    added_finding_never_lowers_risk true (model_leak ∷ []) [] leak

abbrev one_word : Text → List Text
one_word t = t ∷ []

-- The model's report of the same leak three lines below, less severe.
abbrev echo : AiSuggestion
echo = record leak { line_number = 12; priority = medium; source = some llm }

merged_once : length (deduplicate (λ t. t) one_word (echo ∷ leak ∷ [])) ≡ 1
unfolding deduplicate add_findings add_finding merge_target is_exact sort_words insert_word
    same_anchor
merged_once = refl

deduplicate_covers_example :
    IsCovered (λ t. t) one_word leak (deduplicate (λ t. t) one_word (echo ∷ leak ∷ []))
deduplicate_covers_example = deduplicate_covers (λ t. t) one_word (echo ∷ leak ∷ []) 1 leak refl

-- The letters of one text in upper case.
abbrev upper : String → String
upper t = if str_eq t "bug -risk" then "BUG -RISK" else t

spelling_is_lenient_example :
    (normalize_severity upper (some (" " ++ ("bug -risk" ++ "  ")))
      ≡ lookup "BUG -RISK" severity_aliases)
    × (normalize_category upper (some (" " ++ ("bug -risk" ++ "  ")))
        ≡ lookup ("BUG" ++ named ((" -", "RISK") ∷ [])) category_aliases)
unfolding trim trim_start trim_end
spelling_is_lenient_example =
    spelling_is_lenient upper " " "bug -risk" "  " "BUG" ((" -", "RISK") ∷ []) refl refl refl refl
      (refl, refl) ((refl, refl, (refl, refl)), tt)

bug_risk_is_bug : normalize_category upper (some " bug -risk  ") ≡ some bug
unfolding normalize_category trim trim_start trim_end underscored_from
bug_risk_is_bug = refl

moderate_is_medium : normalize_severity upper (some "MODERATE ") ≡ some medium
unfolding normalize_severity trim trim_start trim_end
moderate_is_medium = refl
