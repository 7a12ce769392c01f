-- ===== src/Findings/Spelling.antt =====
-- How freely a model may spell a severity or a category: `normalizeSeverity` and `normalizeCategory` of
-- services/ai/finding-taxonomy.ts.
use ai_pr_reviewer.Prelude.{◌≡◌, refl, ap, ◌∙◌, true, false, not, some, List, [], ◌∷◌, All}
use Prim.Native.String.{String, ◌++◌}
use ai_pr_reviewer.Settings.Strings.{is_blank, is_empty, trim}
use ai_pr_reviewer.Findings.Separators.{is_separator, underscored_from}
use ai_pr_reviewer.Findings.Taxonomy.{
  lookup, severity_aliases, category_aliases, normalize_severity, normalize_category,
}
use ai_pr_reviewer.Findings.Blanks.{all_codes, trim-padded, underscored-word, underscored-gap}

-- A text with a character and without separators.
abbrev pub IsWord : String → Type 0
IsWord w = (is_empty w ≡ false) × (all_codes (λ c. not (is_separator c)) w ≡ true)

-- A run of separators and the word after it.
abbrev pub IsLink : String × String → Type 0
IsLink link = (is_empty link.0 ≡ false) × (all_codes is_separator link.0 ≡ true) × IsWord link.1

-- The words as they are spelled, each after its run of separators.
abbrev pub spelled : List (String × String) → String
spelled [] = ""
spelled ((gap, word) ∷ links) = gap ++ (word ++ spelled links)

-- The same words, each after one underscore.
abbrev pub named : List (String × String) → String
named [] = ""
named ((gap, word) ∷ links) = String.◌∷◌ "_" (word ++ named links)

underscored-spelled :
    (links : List (String × String))
    → All IsLink links
    → underscored_from false (spelled links) ≡ named links
unfolding underscored_from
underscored-spelled [] h = refl
underscored-spelled ((gap, word) ∷ links) ((full, run, (some_word, plain)), h) =
    underscored-gap gap word (spelled links) full run some_word plain
    ∙ ap (λ t. String.◌∷◌ "_" (word ++ t)) (underscored-spelled links h)

-- Blanks around a severity or a category do not matter, nor does the case of its letters as far as
-- `toUpperCase` unites it, and the words of a category may stand apart by any run of blanks and
-- dashes: it is looked up with single underscores between them.
pub spelling_is_lenient :
    (upper : String → String) (l t r word : String) (links : List (String × String))
    → all_codes is_blank l ≡ true
    → all_codes is_blank r ≡ true
    → trim t ≡ t
    → upper t ≡ word ++ spelled links
    → IsWord word
    → All IsLink links
    → (normalize_severity upper (some (l ++ (t ++ r))) ≡ lookup (upper t) severity_aliases)
      × (normalize_category upper (some (l ++ (t ++ r)))
          ≡ lookup (word ++ named links) category_aliases)
unfolding normalize_severity normalize_category
spelling_is_lenient upper l t r word links before after bare spelling is_word are_links =
    let trimmed : trim (l ++ (t ++ r)) ≡ t = trim-padded l t r before after ∙ bare in
    (
      ap (λ u. lookup (upper u) severity_aliases) trimmed,
      ap (λ u. lookup (underscored_from false (upper u)) category_aliases) trimmed
          ∙ ap (λ u. lookup (underscored_from false u) category_aliases) spelling
          ∙ ap (λ u. lookup u category_aliases)
              (underscored-word word (spelled links) is_word.1
                ∙ ap (λ u. word ++ u) (underscored-spelled links are_links)),
    )
