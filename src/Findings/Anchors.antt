-- ===== src/Findings/Anchors.antt =====
-- A changed line carries the number at which it stands in its file.
use ai_pr_reviewer.Prelude.{
  ℕ, suc, ◌+◌, ◌≡◌, refl, ◌⊎◌, inl, inr, Bool, true, false, none, some, List, [], ◌∷◌, arith,
  length, get_elem?, keep, All,
}
use ai_pr_reviewer.Store.{Text}
use ai_pr_reviewer.Findings.DiffLines.{
  ChangedLine, parse_hunk, LineKind, plus_line, minus_line, no_newline, context_line, line_kind,
  scan_lines,
}

-- The lines of a hunk that the new file has, and those that the old file has.
unfoldable pub new_side : List Text → List LineKind
new_side [] = []
new_side (line ∷ lines) =
    let rest = new_side lines in
    elim (line_kind line) [
      | plus_line t ↦ plus_line t ∷ rest
      | context_line ↦ context_line ∷ rest
      | minus_line t ↦ rest
      | no_newline ↦ rest
    ]

unfoldable pub old_side : List Text → List LineKind
old_side [] = []
old_side (line ∷ lines) =
    let rest = old_side lines in
    elim (line_kind line) [
      | minus_line t ↦ minus_line t ∷ rest
      | context_line ↦ context_line ∷ rest
      | plus_line t ↦ rest
      | no_newline ↦ rest
    ]

-- The line stands in this side of the hunk, whose first line has the number `start`.
abbrev pub StandsAt : ℕ → (Text → LineKind) → List LineKind → ChangedLine → Type 0
StandsAt start kind side l =
    (i : ℕ) × (l.line_number ≡ start + i) × (get_elem? side i ≡ some (kind l.text))

StandsAt-cons :
    (start : ℕ) (kind : Text → LineKind) (x : LineKind) (side : List LineKind)
    (ls : List ChangedLine)
    → All (StandsAt (start + 1) kind side) ls
    → All (StandsAt start kind (x ∷ side)) ls
StandsAt-cons start kind x side [] h = tt
StandsAt-cons start kind x side (l ∷ ls) ((i, at, there), h) =
    ((suc i, omega (arith, at), there), StandsAt-cons start kind x side ls h)

LineKind-cases :
    (k : LineKind)
    → ((t : Text) × (k ≡ plus_line t))
      ⊎ ((t : Text) × (k ≡ minus_line t))
      ⊎ (k ≡ no_newline)
      ⊎ (k ≡ context_line)
LineKind-cases (plus_line t) = inl (t, refl)
LineKind-cases (minus_line t) = inr (inl (t, refl))
LineKind-cases no_newline = inr (inr (inl refl))
LineKind-cases context_line = inr (inr (inr refl))

-- Within a hunk, every added line has the number at which it stands in the new file, and every
-- removed line the one at which it stood in the old file.
pub changed_lines_stand :
    (file : Text) (old new : ℕ) (lines : List Text)
    → All (λ line. parse_hunk line ≡ none) lines
    → All (StandsAt new plus_line (new_side lines)) (scan_lines file old new true lines).added
      × All (StandsAt old minus_line (old_side lines)) (scan_lines file old new true lines).removed
unfolding scan_lines new_side old_side
changed_lines_stand file old new [] h = (tt, tt)
changed_lines_stand file old new (line ∷ lines) (body, h) = elim (LineKind-cases (line_kind line)) [
  | inl (t, e) ↦
      let (a, r) = changed_lines_stand file old (new + 1) lines h in
      rw (body, e, scan_lines, new_side, old_side)
        (
          ((0, omega arith, refl), StandsAt-cons new plus_line (plus_line t) (new_side lines) _ a),
          r,
        )
  | inr (inl (t, e)) ↦
      let (a, r) = changed_lines_stand file (old + 1) new lines h in
      rw (body, e, scan_lines, new_side, old_side)
        (
          a,
          (
            (0, omega arith, refl),
            StandsAt-cons old minus_line (minus_line t) (old_side lines) _ r,
          ),
        )
  | inr (inr (inl e)) ↦
      rw (body, e, scan_lines, new_side, old_side) (changed_lines_stand file old new lines h)
  | inr (inr (inr e)) ↦
      let (a, r) = changed_lines_stand file (old + 1) (new + 1) lines h in
      rw (body, e, scan_lines, new_side, old_side)
        (
          StandsAt-cons new plus_line context_line (new_side lines) _ a,
          StandsAt-cons old minus_line context_line (old_side lines) _ r,
        )
]

abbrev pub is_changed : LineKind → Bool
is_changed (plus_line t) = true
is_changed (minus_line t) = true
is_changed no_newline = false
is_changed context_line = false

-- Within a hunk, no added and no removed line is left out: there are as many as the new and the old
-- side have.
pub changed_lines_complete :
    (file : Text) (old new : ℕ) (lines : List Text)
    → All (λ line. parse_hunk line ≡ none) lines
    → (length (scan_lines file old new true lines).added
        ≡ length (keep is_changed (new_side lines)))
      × (length (scan_lines file old new true lines).removed
          ≡ length (keep is_changed (old_side lines)))
unfolding scan_lines new_side old_side
changed_lines_complete file old new [] h = (refl, refl)
changed_lines_complete file old new (line ∷ lines) (body, h) = ground (
  arith,
  changed_lines_complete file old (new + 1) lines h,
  changed_lines_complete file (old + 1) new lines h,
  changed_lines_complete file old new lines h,
  changed_lines_complete file (old + 1) (new + 1) lines h,
)
