-- ===== src/Findings/DiffLines.antt =====
-- `collectChangedLines` of services/diff-lines.ts. The diff comes split by file and by line.
use ai_pr_reviewer.Prelude.{
  ℕ, ◌+◌, ◌-◌, ◌*◌, Bool, true, false, ◌&&◌, Option, none, some, List, [], ◌∷◌, ◌++◌, leb, ◌==◌,
  if◌then◌else◌,
}
use ai_pr_reviewer.Store.{Text}
use ai_pr_reviewer.Findings.Dedup.{drop_dot}

-- An `AddedLine` or a `RemovedLine`.
pub record ChangedLine : Type 0 where
  pub filename : Text
  pub line_number : ℕ
  pub text : Text

pub record Changes : Type 0 where
  pub added : List ChangedLine
  pub removed : List ChangedLine

abbrev pub and_then {ℓ κ} : {A : Type ℓ} {B : Type κ} → Option A → (A → Option B) → Option B
and_then none f = none
and_then (some a) f = f a

-- The rest of a text after a prefix.
abbrev pub strip : Text → Text → Option Text
strip [] t = some t
strip (c ∷ p) [] = none
strip (c ∷ p) (d ∷ t) = if c == d then strip p t else none

abbrev pub is_decimal : ℕ → Bool
is_decimal c = leb 48 c && leb c 57

-- `\d*`, with the number read so far.
abbrev pub read_digits : ℕ → Text → ℕ × Text
read_digits n [] = (n, [])
read_digits n (c ∷ t) = if is_decimal c then read_digits (n * 10 + (c - 48)) t else (n, c ∷ t)

-- `\d+`
abbrev pub read_number : Text → Option (ℕ × Text)
read_number [] = none
read_number (c ∷ t) = if is_decimal c then some (read_digits (c - 48) t) else none

-- `(?:,\d+)?`
abbrev pub skip_count : Text → Text
skip_count t = elim (and_then (strip (44 ∷ []) t) read_number) [ none ↦ t | some x ↦ x.1 ]

-- `/^@@ -(\d+)(?:,\d+)? \+(\d+)(?:,\d+)? @@/`: the first old and the first new line.
unfoldable pub parse_hunk : Text → Option (ℕ × ℕ)
parse_hunk line = and_then (strip (64 ∷ 64 ∷ 32 ∷ 45 ∷ []) line) (λ t.
    and_then (read_number t) (λ old. and_then (strip (32 ∷ 43 ∷ []) (skip_count old.1)) (λ u.
      and_then (read_number u) (λ new.
        and_then (strip (32 ∷ 64 ∷ 64 ∷ []) (skip_count new.1)) (λ rest. some (old.0, new.0))))))

pub data LineKind : Type 0 where
  plus_line minus_line : Text → LineKind
  no_newline context_line : LineKind

-- The first character of a line of a hunk, and the rest of an added or removed one.
abbrev pub line_kind : Text → LineKind
line_kind [] = context_line
line_kind (c ∷ t) =
    if c == 43
    then plus_line t
    else if c == 45
    then minus_line t
    else if c == 92
    then no_newline
    else context_line

-- The loop over the lines of one file.
unfoldable pub scan_lines : Text → ℕ → ℕ → Bool → List Text → Changes
scan_lines file old new in_hunk [] = record { added = []; removed = [] }
scan_lines file old new in_hunk (line ∷ lines) = elim (parse_hunk line) [
  | some start ↦ scan_lines file start.0 start.1 true lines
  | none ↦ elim in_hunk [
    | false ↦ scan_lines file old new false lines
    | true ↦ elim (line_kind line) [
      | plus_line t ↦
          let rest = scan_lines file old (new + 1) true lines in
          record rest {
            added = record { filename = file; line_number = new; text = t } ∷ rest.added;
          }
      | minus_line t ↦
          let rest = scan_lines file (old + 1) new true lines in
          record rest {
            removed = record { filename = file; line_number = old; text = t } ∷ rest.removed;
          }
      | no_newline ↦ scan_lines file old new true lines
      | context_line ↦ scan_lines file (old + 1) (new + 1) true lines
    ]
  ]
]

unfoldable pub collect_changed_lines : List (Text × List Text) → Changes
collect_changed_lines [] = record { added = []; removed = [] }
collect_changed_lines ((filename, lines) ∷ chunks) =
    let here = scan_lines (drop_dot filename) 0 0 false lines in
    let rest = collect_changed_lines chunks in
    record { added = here.added ++ rest.added; removed = here.removed ++ rest.removed }
