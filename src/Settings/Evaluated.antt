-- ===== src/Settings/Evaluated.antt =====
-- What an evaluation of the rules reports.
use ai_pr_reviewer.Prelude.{
  ℕ, ◌≤◌, ◌≡◌, refl, sym, subst, ◌⊎◌, inl, inr, Bool, Option, List, [], ◌∷◌, arith, Bool-cases,
  Option-cases, length, length-append, total, map,
}
use mathlib.Core.List.{Memᴰ}
use mathlib.Core.List.Memᴰ
use Prim.Native.String.{String}
use ai_pr_reviewer.Store.{Text}
use ai_pr_reviewer.Findings.Taxonomy.{AiSuggestion}
use ai_pr_reviewer.Findings.DiffLines.{ChangedLine}
use ai_pr_reviewer.Settings.Rules.{compile_pattern, uses_pattern}
use ai_pr_reviewer.Settings.Checks.{
  max_violations_per_rule, RuleRecord, pass, fail, skipped, RuleCheckRecord, RuleEvaluation,
  pattern_or_empty, Scan, scan, status_of, check_record, start_scan, check_rule, check_rules,
  added_lines, evaluate_rules,
}
use ai_pr_reviewer.Settings.Counts.{IsPlaced, IsCounted, start-IsCounted, scan-IsCounted}

module _ (clock : ℕ → ℕ) where
  -- What holds of the record of one rule.
  record IsChecked (rule : RuleRecord) (lines : List ChangedLine) (check : RuleCheckRecord)
      (s : Scan) : Type 0 where
    recorded : check.rule_id ≡ rule.id
    counted : check.violation_count ≡ length s.violations
    bounded : check.violation_count ≤ max_violations_per_rule
    passes : check.status ≡ pass → check.violation_count ≡ 0
    fails : check.status ≡ fail → 1 ≤ check.violation_count
    placed : (v : AiSuggestion) → Memᴰ v s.violations → IsPlaced lines v

  status-IsChecked :
      (lines : List ChangedLine) (rule : RuleRecord) (s : Scan)
      → IsCounted lines s
      → IsChecked rule lines (check_record rule (status_of s) s.count) s
  status-IsChecked lines rule s h = record {
    recorded = refl;
    counted = h.counted;
    bounded = h.bounded;
    passes = λ e. ground arith;
    fails = λ e. ground arith;
    placed = h.placed;
  }

  none-IsChecked :
      (lines : List ChangedLine) (rule : RuleRecord) (readings : ℕ)
      → IsChecked rule lines (check_record rule skipped 0) (start_scan readings)
  none-IsChecked lines rule readings = record {
    recorded = refl;
    counted = refl;
    bounded = omega arith;
    passes = λ e. refl;
    fails = λ e. cc;
    placed = λ v m. absurd (Memᴰ.not-nil m);
  }

  module _ (compile : String → Option (Text → Bool)) where
    check_rule-IsChecked :
        (rule : RuleRecord) (lines : List ChangedLine) (readings : ℕ)
        → let x = check_rule clock compile rule lines readings in IsChecked rule lines x.0 x.1
    unfolding check_rule
    check_rule-IsChecked rule lines readings =
        elim (Bool-cases (uses_pattern rule.input.enforcement)) [
          | inr by_model ↦ rw by_model (none-IsChecked lines rule readings)
          | inl matched ↦
              elim (Option-cases (compile_pattern compile (pattern_or_empty rule.input.pattern))) [
                | inl bad ↦ rw (matched, bad, check_rule) (none-IsChecked lines rule readings)
                | inr (test, good) ↦
                    rw (matched, good, check_rule)
                      (status-IsChecked lines rule
                        (scan clock rule test lines (start_scan readings))
                        (scan-IsCounted clock lines rule test lines (start_scan readings) (λ l m. m)
                          (start-IsCounted lines readings)))
              ]
        ]

    abbrev IsConsistent : RuleCheckRecord → Type 0
    IsConsistent check =
        (check.violation_count ≤ max_violations_per_rule)
        × (check.status ≡ pass → check.violation_count ≡ 0)
        × (check.status ≡ fail → 1 ≤ check.violation_count)

    -- What holds of an evaluation.
    pub record IsSound (rs : List RuleRecord) (lines : List ChangedLine) (e : RuleEvaluation)
        : Type 0 where
      pub recorded :
          map (λ (c : RuleCheckRecord). c.rule_id) e.checks ≡ map (λ (r : RuleRecord). r.id) rs
      pub consistent : (c : RuleCheckRecord) → Memᴰ c e.checks → IsConsistent c
      pub adds_up :
          total (λ (c : RuleCheckRecord). c.violation_count) e.checks ≡ length e.violations
      pub placed : (v : AiSuggestion) → Memᴰ v e.violations → IsPlaced lines v

    check_rules-IsSound :
        (rs : List RuleRecord) (lines : List ChangedLine) (readings : ℕ)
        → IsSound rs lines (check_rules clock compile rs lines readings)
    unfolding check_rules
    check_rules-IsSound [] lines readings = record {
      recorded = refl;
      consistent = λ c m. absurd (Memᴰ.not-nil m);
      adds_up = refl;
      placed = λ v m. absurd (Memᴰ.not-nil m);
    }
    check_rules-IsSound (rule ∷ rs) lines readings =
        let x = check_rule clock compile rule lines readings in
        let h = check_rule-IsChecked rule lines readings in
        let later = check_rules-IsSound rs lines x.1.readings in
        record {
          recorded = λ i. h.recorded i ∷ later.recorded i;
          consistent = λ c m. consistent c h later (Memᴰ.cases_cons m);
          adds_up =
              let a = h.counted in
              let b = later.adds_up in
              let c =
                length-append x.1.violations
                  (check_rules clock compile rs lines x.1.readings).violations in
              omega arith;
          placed = λ v m. placed v h later (Memᴰ.append_cases x.1.violations m);
        }
      where
        consistent :
            {check : RuleCheckRecord} {s : Scan} {e : RuleEvaluation} (c : RuleCheckRecord)
            → IsChecked rule lines check s
            → IsSound rs lines e
            → (c ≡ check) ⊎ Memᴰ c e.checks
            → IsConsistent c
        consistent c h later (inl same) =
            subst IsConsistent (sym same) (h.bounded, h.passes, h.fails)
        consistent c h later (inr m) = later.consistent c m

        placed :
            {check : RuleCheckRecord} {s : Scan} {e : RuleEvaluation} (v : AiSuggestion)
            → IsChecked rule lines check s
            → IsSound rs lines e
            → Memᴰ v s.violations ⊎ Memᴰ v e.violations
            → IsPlaced lines v
        placed v h later (inl m) = h.placed v m
        placed v h later (inr m) = later.placed v m

    -- Each rule has one record, in order. A record counts at most 50 violations, none where the rule
    -- passes and at least one where it fails; the records count the violations that are reported, and
    -- each of these names the file and the line of an added line of the diff.
    pub evaluation_adds_up :
        (rs : List RuleRecord) (diff : List (Text × List Text))
        → IsSound rs (added_lines clock compile rs diff) (evaluate_rules clock compile rs diff)
    unfolding evaluate_rules
    evaluation_adds_up rs diff = check_rules-IsSound rs (added_lines clock compile rs diff) 1
