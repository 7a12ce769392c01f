-- ===== src/Settings/Counts.antt =====
-- The counts of the rule checks and the places of their violations.
use ai_pr_reviewer.Prelude.{
  ℕ, suc, ◌≤◌, ◌≡◌, refl, ap, ◌⊎◌, inl, inr, Bool, true, false, List, [], ◌∷◌, ◌++◌, arith, leb,
  Bool-cases, length, length-append,
}
use mathlib.Core.List.{Memᴰ}
use mathlib.Core.List.Memᴰ
use ai_pr_reviewer.Store.{Text}
use ai_pr_reviewer.Findings.Taxonomy.{AiSuggestion}
use ai_pr_reviewer.Findings.DiffLines.{ChangedLine}
use ai_pr_reviewer.Settings.Checks.{
  max_violations_per_rule, RuleRecord, to_violation, Scan, deadline, scan, start_scan,
}

-- A violation stands at a line.
abbrev pub IsPlaced : List ChangedLine → AiSuggestion → Type 0
IsPlaced lines v =
    (l : ChangedLine) × Memᴰ l lines × (v.file_path ≡ l.filename) × (v.line_number ≡ l.line_number)

-- What holds of a scan: its violations are counted, bounded and placed.
pub record IsCounted (lines : List ChangedLine) (s : Scan) : Type 0 where
  pub counted : s.count ≡ length s.violations
  pub bounded : s.count ≤ max_violations_per_rule
  pub placed : (v : AiSuggestion) → Memᴰ v s.violations → IsPlaced lines v

pub start-IsCounted :
    (lines : List ChangedLine) (readings : ℕ) → IsCounted lines (start_scan readings)
start-IsCounted lines readings = record {
  counted = refl;
  bounded = omega arith;
  placed = λ v m. absurd (Memᴰ.not-nil m);
}

module _ (clock : ℕ → ℕ) where
  hit-IsCounted :
      (all : List ChangedLine) (rule : RuleRecord) (line : ChangedLine) (s : Scan)
      → Memᴰ line all
      → leb max_violations_per_rule s.count ≡ false
      → IsCounted all s
      → IsCounted all (record s {
        readings = suc s.readings;
        count = suc s.count;
        violations = s.violations ++ to_violation rule line ∷ [];
      })
  unfolding to_violation
  hit-IsCounted all rule line s here below h = record {
    counted =
        let e = length-append s.violations (to_violation rule line ∷ []) in
        let c = h.counted in omega arith;
    bounded = ground arith;
    placed = λ v m. place v (Memᴰ.append_cases s.violations m);
  }
    where
      place :
          (v : AiSuggestion)
          → Memᴰ v s.violations ⊎ Memᴰ v (to_violation rule line ∷ [])
          → IsPlaced all v
      place v (inl m) = h.placed v m
      place v (inr m) =
          let e = Memᴰ.eq_of_singleton m in
          (
            line,
            here,
            ap (λ (x : AiSuggestion). x.file_path) e,
            ap (λ (x : AiSuggestion). x.line_number) e,
          )

  pub scan-IsCounted :
      (all : List ChangedLine) (rule : RuleRecord) (test : Text → Bool) (lines : List ChangedLine)
      (s : Scan)
      → ((l : ChangedLine) → Memᴰ l lines → Memᴰ l all)
      → IsCounted all s
      → IsCounted all (scan clock rule test lines s)
  unfolding scan
  scan-IsCounted all rule test [] s sub h = h
  scan-IsCounted all rule test (line ∷ lines) s sub h =
      let later = λ (l : ChangedLine) (m : Memᴰ l lines). sub l (Memᴰ.tail m) in
      let next = record s { readings = suc s.readings } in
      let stays : IsCounted all next = record {
        counted = h.counted;
        bounded = h.bounded;
        placed = h.placed;
      } in
      let stopped : IsCounted all (record next { incomplete = true }) = record {
        counted = h.counted;
        bounded = h.bounded;
        placed = h.placed;
      } in
      let missed = scan-IsCounted all rule test lines next later stays in
      elim (Bool-cases (leb (deadline clock) (clock s.readings))) [
        | inl late ↦ rw late stopped
        | inr early ↦ elim (Bool-cases (leb max_violations_per_rule s.count)) [
          | inl full ↦ rw (early, full) stays
          | inr below ↦ elim (Bool-cases (test line.text)) [
            | inl hits ↦
                rw (early, below, hits)
                  (scan-IsCounted all rule test lines
                    (record next {
                      count = suc s.count;
                      violations = s.violations ++ to_violation rule line ∷ [];
                    })
                    later (hit-IsCounted all rule line s (sub line (Memᴰ.head refl)) below h))
            | inr misses ↦ rw (early, below, misses) missed
          ]
        ]
      ]
