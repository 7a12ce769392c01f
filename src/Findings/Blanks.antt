-- ===== src/Findings/Blanks.antt =====
-- What trimming and the rewriting of separators make of a text, by its parts.
use ai_pr_reviewer.Prelude.{
  ℕ, ◌≡◌, refl, sym, ap, ◌∙◌, inl, inr, Bool, true, false, not, ◌&&◌, Bool-cases,
}
use Prim.Native.Char.{Char, code}
use Prim.Native.String.{String, [], ◌∷◌, ◌++◌}
use Prim.Native.String.append
use text.Mathlib.TextLemmas.{append-nil}
use ai_pr_reviewer.Settings.Strings.{is_blank, is_empty, trim, trim_start, trim_end}
use ai_pr_reviewer.Findings.Separators.{is_separator, underscored_from}

-- Every character of the text passes the test.
abbrev pub all_codes : (ℕ → Bool) → String → Bool
all_codes p [] = true
all_codes p (c ∷ t) = p (code c) && all_codes p t

both-true : (a b : Bool) → (a && b) ≡ true → (a ≡ true) × (b ≡ true)
both-true true true h = (refl, refl)
both-true true false h = cc
both-true false b h = cc

not-true : (b : Bool) → not b ≡ true → b ≡ false
not-true true h = cc
not-true false h = refl

trim_start-blank : (l t : String) → all_codes is_blank l ≡ true → trim_start (l ++ t) ≡ trim_start t
unfolding trim_start
trim_start-blank [] t h = ap trim_start (append.nil t)
trim_start-blank (c ∷ l) t h =
    let (blank, rest) = both-true (is_blank (code c)) (all_codes is_blank l) h in
    ap trim_start (append.cons c l t) ∙ rw (blank, trim_start) (trim_start-blank l t rest)

trim_end-blank : (r : String) → all_codes is_blank r ≡ true → trim_end r ≡ []
unfolding trim_end
trim_end-blank [] h = refl
trim_end-blank (c ∷ r) h =
    let (blank, rest) = both-true (is_blank (code c)) (all_codes is_blank r) h in
    rw (trim_end-blank r rest, blank) refl

trim_end-append : (t r : String) → all_codes is_blank r ≡ true → trim_end (t ++ r) ≡ trim_end t
unfolding trim_end
trim_end-append [] r h = ap trim_end (append.nil r) ∙ trim_end-blank r h
trim_end-append (c ∷ t) r h =
    ap trim_end (append.cons c t r) ∙ rw (trim_end-append t r h, trim_end) refl

trimmed-append :
    (t r : String)
    → all_codes is_blank r ≡ true
    → trim_end (trim_start (t ++ r)) ≡ trim_end (trim_start t)
unfolding trim_start
trimmed-append [] r h =
    ap trim_end
      (ap trim_start (append.nil r) ∙ ap trim_start (sym (append-nil r)) ∙ trim_start-blank r [] h)
trimmed-append (c ∷ t) r h =
    ap (λ u. trim_end (trim_start u)) (append.cons c t r) ∙ elim (Bool-cases (is_blank (code c))) [
      | inl blank ↦ rw (blank, trim_start) (trimmed-append t r h)
      | inr solid ↦
          rw (solid, trim_start)
            (ap trim_end (sym (append.cons c t r)) ∙ trim_end-append (c ∷ t) r h)
    ]

-- Blanks around a text do not matter.
pub trim-padded :
    (l t r : String)
    → all_codes is_blank l ≡ true
    → all_codes is_blank r ≡ true
    → trim (l ++ (t ++ r)) ≡ trim t
unfolding trim
trim-padded l t r h k = ap trim_end (trim_start-blank l (t ++ r) h) ∙ trimmed-append t r k

-- A word keeps its characters.
pub underscored-word :
    (w t : String)
    → all_codes (λ c. not (is_separator c)) w ≡ true
    → underscored_from false (w ++ t) ≡ w ++ underscored_from false t
unfolding underscored_from
underscored-word [] t h = ap (underscored_from false) (append.nil t) ∙ sym (append.nil _)
underscored-word (c ∷ w) t h =
    let (plain, rest) =
      both-true (not (is_separator (code c))) (all_codes (λ c. not (is_separator c)) w) h in
    ap (underscored_from false) (append.cons c w t)
    ∙ rw (not-true (is_separator (code c)) plain, underscored_from)
        (ap (λ u. c ∷ u) (underscored-word w t rest)
          ∙ sym (append.cons c w (underscored_from false t)))

-- The rest of a run of separators is dropped.
underscored-run :
    (g t : String)
    → all_codes is_separator g ≡ true
    → underscored_from true (g ++ t) ≡ underscored_from true t
unfolding underscored_from
underscored-run [] t h = ap (underscored_from true) (append.nil t)
underscored-run (c ∷ g) t h =
    let (gap, rest) = both-true (is_separator (code c)) (all_codes is_separator g) h in
    ap (underscored_from true) (append.cons c g t)
    ∙ rw (gap, underscored_from) (underscored-run g t rest)

-- The word after a run is read as at the start.
after_run :
    (d : Char) (w t : String)
    → all_codes (λ c. not (is_separator c)) (d ∷ w) ≡ true
    → underscored_from true ((d ∷ w) ++ t) ≡ (d ∷ w) ++ underscored_from false t
unfolding underscored_from
after_run d w t h =
    let plain =
      (both-true (not (is_separator (code d))) (all_codes (λ c. not (is_separator c)) w) h).0 in
    ap (underscored_from true) (append.cons d w t)
    ∙ rw (not-true (is_separator (code d)) plain, underscored_from)
        (ap (λ u. d ∷ u)
            (underscored-word w t
              (both-true (not (is_separator (code d))) (all_codes (λ c. not (is_separator c)) w)
                h).1)
          ∙ sym (append.cons d w (underscored_from false t)))

-- A run of separators before a word becomes one underscore.
pub underscored-gap :
    (g w t : String)
    → is_empty g ≡ false
    → all_codes is_separator g ≡ true
    → is_empty w ≡ false
    → all_codes (λ c. not (is_separator c)) w ≡ true
    → underscored_from false (g ++ (w ++ t)) ≡ "_" ∷ (w ++ underscored_from false t)
unfolding underscored_from
underscored-gap [] w t full gap some_word word = cc
underscored-gap (c ∷ g) [] t full gap some_word word = cc
underscored-gap (c ∷ g) (d ∷ w) t full gap some_word word =
    let (first, rest) = both-true (is_separator (code c)) (all_codes is_separator g) gap in
    ap (underscored_from false) (append.cons c g ((d ∷ w) ++ t))
    ∙ rw (first, underscored_from)
        (ap (λ u. "_" ∷ u) (underscored-run g ((d ∷ w) ++ t) rest ∙ after_run d w t word))
