-- ===== src/Findings/DiffTests.antt =====
-- Tests of the changed lines.
use ai_pr_reviewer.Prelude.{◌≡◌, refl, true, none, some, List, [], ◌∷◌, map, length, keep, All}
use ai_pr_reviewer.Store.{Text}
use ai_pr_reviewer.Findings.DiffLines.{
  ChangedLine, parse_hunk, plus_line, minus_line, scan_lines, collect_changed_lines,
}
use ai_pr_reviewer.Findings.Anchors.{
  new_side, old_side, StandsAt, is_changed, changed_lines_stand, changed_lines_complete,
}

-- ` a`, `+b`, `-c`
abbrev hunk_body : List Text
hunk_body = (32 ∷ 97 ∷ []) ∷ (43 ∷ 98 ∷ []) ∷ (45 ∷ 99 ∷ []) ∷ []

-- `@@ -3,2 +7,2 @@`
abbrev hunk_header : Text
hunk_header = 64 ∷ 64 ∷ 32 ∷ 45 ∷ 51 ∷ 44 ∷ 50 ∷ 32 ∷ 43 ∷ 55 ∷ 44 ∷ 50 ∷ 32 ∷ 64 ∷ 64 ∷ []

header_read : parse_hunk hunk_header ≡ some (3, 7)
unfolding parse_hunk
header_read = refl

one_added :
    map
      (λ (l : ChangedLine). l.line_number)
      (collect_changed_lines ((102 ∷ [], hunk_header ∷ hunk_body) ∷ [])).added
    ≡ 8 ∷ []
unfolding collect_changed_lines scan_lines parse_hunk
one_added = refl

body_plain : All (λ line. parse_hunk line ≡ none) hunk_body
unfolding parse_hunk
body_plain = (refl, (refl, (refl, tt)))

changed_lines_stand_example :
    All (StandsAt 7 plus_line (new_side hunk_body)) (scan_lines [] 3 7 true hunk_body).added
    × All (StandsAt 3 minus_line (old_side hunk_body)) (scan_lines [] 3 7 true hunk_body).removed
changed_lines_stand_example = changed_lines_stand [] 3 7 hunk_body body_plain

changed_lines_complete_example :
    (length (scan_lines [] 3 7 true hunk_body).added
      ≡ length (keep is_changed (new_side hunk_body)))
    × (length (scan_lines [] 3 7 true hunk_body).removed
        ≡ length (keep is_changed (old_side hunk_body)))
changed_lines_complete_example = changed_lines_complete [] 3 7 hunk_body body_plain
