-- ===== src/Settings/Checks.antt =====
-- `evaluateRules` of services/rules.service.ts: the rules with a pattern against the added lines. The
-- clock is an argument, the time of each of its readings.
use ai_pr_reviewer.Prelude.{
  ℕ, suc, ◌+◌, Bool, true, false, Option, none, some, List, [], ◌∷◌, ◌++◌, ltb, leb, if◌then◌else◌,
  any,
}
use Prim.Native.String.{String}
use ai_pr_reviewer.Store.{Text}
use ai_pr_reviewer.Findings.Taxonomy.{AiSuggestion, rules}
use ai_pr_reviewer.Findings.DiffLines.{ChangedLine, collect_changed_lines}
use ai_pr_reviewer.Settings.Strings.{is_empty, to_units}
use ai_pr_reviewer.Settings.Rules.{RuleInput, compile_pattern, uses_pattern}

abbrev pub max_violations_per_rule : ℕ
max_violations_per_rule = 50

pub record RuleRecord : Type 0 where
  pub id : Text
  pub input : RuleInput

pub data RuleCheckStatus : Type 0 where
  pass fail skipped : RuleCheckStatus

pub record RuleCheckRecord : Type 0 where
  pub rule_id : Text
  pub rule_name : String
  pub status : RuleCheckStatus
  pub violation_count : ℕ

pub record RuleEvaluation : Type 0 where
  pub checks : List RuleCheckRecord
  pub violations : List AiSuggestion

abbrev pub pattern_or_empty : Option String → String
pattern_or_empty none = ""
pattern_or_empty (some p) = p

-- The template shows a missing pattern as `null`.
abbrev pub pattern_or_null : Option String → String
pattern_or_null none = "null"
pattern_or_null (some p) = p

abbrev pub matches_text : RuleInput → Text
matches_text rule =
    to_units "matches `" ++ (to_units (pattern_or_null rule.pattern) ++ to_units "`")

-- `description ?? (guideline ? guideline : …)`
abbrev pub explanation_of : RuleInput → Text
explanation_of rule = elim rule.description [
  | some d ↦ to_units d
  | none ↦ elim rule.guideline [
    | some g ↦ if is_empty g then matches_text rule else to_units g
    | none ↦ matches_text rule
  ]
]

unfoldable pub to_violation : RuleRecord → ChangedLine → AiSuggestion
to_violation rule line = record {
  verified_anchor = none;
  file_path = line.filename;
  line_number = line.line_number;
  agent_type = rule.input.category;
  issue =
      to_units "Violates repository rule \""
      ++ (to_units rule.input.name ++ (to_units "\" — " ++ explanation_of rule.input));
  suggestion =
      to_units "Update this line so it no longer violates the \""
      ++ (to_units rule.input.name ++ to_units "\" rule.");
  priority = rule.input.severity;
  source = some rules;
  sources = none;
  rule_keys = some (rule.id ∷ []);
  corroborated = false;
}

-- What the loop over the lines of one rule leaves, with the number of clock readings so far.
pub record Scan : Type 0 where
  pub readings : ℕ
  pub count : ℕ
  pub incomplete : Bool
  pub violations : List AiSuggestion

abbrev pub status_of : Scan → RuleCheckStatus
status_of s = if s.incomplete then skipped else if ltb 0 s.count then fail else pass

abbrev pub check_record : RuleRecord → RuleCheckStatus → ℕ → RuleCheckRecord
check_record rule status count = record {
  rule_id = rule.id;
  rule_name = rule.input.name;
  status = status;
  violation_count = count;
}

abbrev pub start_scan : ℕ → Scan
start_scan readings = record { readings = readings; count = 0; incomplete = false; violations = [] }

module _ (clock : ℕ → ℕ) where
  -- `Date.now() + 1000` of the first reading.
  abbrev pub deadline : ℕ
  deadline = clock 0 + 1000

  unfoldable pub scan : RuleRecord → (Text → Bool) → List ChangedLine → Scan → Scan
  scan rule test [] s = s
  scan rule test (line ∷ lines) s =
      let next = record s { readings = suc s.readings } in
      let missed = scan rule test lines next in
      let hit = scan rule test lines (record next {
        count = suc s.count;
        violations = s.violations ++ to_violation rule line ∷ [];
      }) in
      if leb deadline (clock s.readings)
      then record next { incomplete = true }
      else if leb max_violations_per_rule s.count
      then next
      else if test line.text
      then hit
      else missed

module _ (clock : ℕ → ℕ) (compile : String → Option (Text → Bool)) where
  -- One rule: its record and its scan; a rule for the model, or with an unusable pattern, has none.
  unfoldable pub check_rule : RuleRecord → List ChangedLine → ℕ → RuleCheckRecord × Scan
  check_rule rule lines readings =
      if uses_pattern rule.input.enforcement
      then elim (compile_pattern compile (pattern_or_empty rule.input.pattern)) [
        | none ↦ (check_record rule skipped 0, start_scan readings)
        | some test ↦
            let s = scan clock rule test lines (start_scan readings) in
            (check_record rule (status_of s) s.count, s)
      ]
      else (check_record rule skipped 0, start_scan readings)

  unfoldable pub check_rules : List RuleRecord → List ChangedLine → ℕ → RuleEvaluation
  check_rules [] lines readings = record { checks = []; violations = [] }
  check_rules (rule ∷ rs) lines readings =
      let (check, s) = check_rule rule lines readings in
      let rest = check_rules rs lines s.readings in
      record { checks = check ∷ rest.checks; violations = s.violations ++ rest.violations }

  -- The diff is read only where some rule has a pattern.
  abbrev pub added_lines : List RuleRecord → List (Text × List Text) → List ChangedLine
  added_lines rs diff =
      if any (λ (r : RuleRecord). uses_pattern r.input.enforcement) rs
      then (collect_changed_lines diff).added
      else []

  unfoldable pub evaluate_rules : List RuleRecord → List (Text × List Text) → RuleEvaluation
  evaluate_rules rs diff = check_rules rs (added_lines rs diff) 1
