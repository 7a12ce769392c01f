-- ===== src/Settings/Tests.antt =====
-- A configuration, a rule and an evaluation at concrete values.
use ai_pr_reviewer.Prelude.{
  ◌≡◌, refl, inl, if◌then◌else◌, Bool, true, false, Option, none, some, List, [], ◌∷◌,
}
use Prim.Native.String.{String}
use text.Mathlib.Text.{◌==◌ as str_eq}
use ai_pr_reviewer.Store.{Text}
use ai_pr_reviewer.Findings.Taxonomy.{medium, maintainability}
use ai_pr_reviewer.Settings.Value.{Value, finite, number, string, object, end_fields, field}
use ai_pr_reviewer.Settings.Strings.{trim, trim_start, trim_end, utf16_length}
use ai_pr_reviewer.Settings.Config.{
  Limits, first_file, fetch_repo_config, parse_config_yaml, config_of, parse_context_config,
}
use ai_pr_reviewer.Settings.Ceilings.{IsWithin, config_never_widens}
use ai_pr_reviewer.Settings.Defaults.{platform_config, unusable_config_is_default}
use ai_pr_reviewer.Settings.Rules.{RuleInput, both, ok, validate_rule, validate_fields, check_mode}
use ai_pr_reviewer.Settings.Valid.{IsRunnable, accepted_rule-IsRunnable}
use ai_pr_reviewer.Settings.Checks.{RuleRecord, added_lines, evaluate_rules}
use ai_pr_reviewer.Settings.Evaluated.{IsSound, evaluation_adds_up}

abbrev limits : Limits
limits = record { files = 25; hops = 2; tokens = 30000 }

-- `context: { max_files: 100 }`
abbrev wide : Value
wide = object (
    field "context" (object (field "max_files" (number (finite false 100 0)) end_fields))
      end_fields)

abbrev parsed : String → Option Value
parsed content = some wide

abbrev file : String → Option String
file path = some "context"

abbrev same : String → String
same t = t

config_never_widens_example : IsWithin limits (fetch_repo_config same parsed limits file).context
config_never_widens_example = config_never_widens same parsed limits file

wide_is_clamped : (fetch_repo_config same parsed limits file).context.max_files ≡ 25
unfolding fetch_repo_config first_file parse_config_yaml config_of parse_context_config
wide_is_clamped = refl

-- Only the second candidate can be read; it has a setting that is none of the eight.
abbrev second_only : String → Option String
second_only path = if str_eq path ".aipr.yaml" then some "severity: high" else none

abbrev misspelt : String → Option Value
misspelt content = some (object (field "severity" (string "high") end_fields))

unusable_config_is_default_example :
    fetch_repo_config same misspelt limits second_only ≡ platform_config limits
unusable_config_is_default_example =
    unusable_config_is_default same misspelt limits second_only (some "severity: high")
      (
        ".aipr.yml" ∷ [],
        ".aipr.yaml",
        ".github/.aipr.yml" ∷ ".github/.aipr.yaml" ∷ [],
        refl,
        (inl refl, tt),
        refl,
        refl,
      )
      (record {
        version = refl;
        ignore = refl;
        min_severity = refl;
        guidelines = refl;
        language = refl;
        summarize = refl;
        context = refl;
        security = refl;
      })

abbrev compile : String → Option (Text → Bool)
compile pattern = some (λ line. true)

abbrev body : Value
body = object (
    field "name" (string " no eval ") (
      field "guideline" (string "Avoid eval")
        (field "pattern" (string "eval") (field "enforcement" (string "BOTH") end_fields))))

abbrev rule : RuleInput
rule = record {
  name = "no eval";
  description = none;
  guideline = some "Avoid eval";
  pattern = some "eval";
  severity = medium;
  category = maintainability;
  enforcement = both;
  enabled = true;
}

body_is_accepted : validate_rule compile body ≡ ok rule
unfolding validate_rule validate_fields check_mode trim trim_start trim_end utf16_length
body_is_accepted = refl

accepted_rule-IsRunnable_example : IsRunnable compile rule
accepted_rule-IsRunnable_example = accepted_rule-IsRunnable compile body rule body_is_accepted

abbrev rules : List RuleRecord
rules = record { id = 114 ∷ []; input = rule } ∷ []

-- `@@ -1 +1 @@` and an added line.
abbrev diff : List (Text × List Text)
diff =
    (97 ∷ [], (64 ∷ 64 ∷ 32 ∷ 45 ∷ 49 ∷ 32 ∷ 43 ∷ 49 ∷ 32 ∷ 64 ∷ 64 ∷ []) ∷ (43 ∷ 120 ∷ []) ∷ [])
    ∷ []

evaluation_adds_up_example :
    IsSound
      (λ n. 0)
      compile
      rules
      (added_lines (λ n. 0) compile rules diff)
      (evaluate_rules (λ n. 0) compile rules diff)
evaluation_adds_up_example = evaluation_adds_up (λ n. 0) compile rules diff
