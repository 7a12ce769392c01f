-- ===== src/Findings/Dedup.antt =====
-- services/ai/finding-dedup.service.ts. The word filter `tokenize` and the lower case of a path are
-- arguments: what is shown of the merge holds whatever words they give.
use ai_pr_reviewer.Prelude.{
  ℕ, zero, suc, ◌+◌, ◌-◌, ◌*◌, min, Bool, true, false, not, ◌&&◌, ◌||◌, Option, none, some, List,
  [], ◌∷◌, ◌++◌, ltb, leb, ◌==◌, if◌then◌else◌, length, any, get_elem?, keep, distinct, find_index,
  update_at,
}
use ai_pr_reviewer.Store.{Text}
use ai_pr_reviewer.Store.{text_eq}
use ai_pr_reviewer.Findings.Taxonomy.{
  FindingSeverity, FindingCategory, FindingSource, llm, sast, secrets, dependencies, rules,
  AiSuggestion, severity_rank, category_eq, source_eq, distance,
}

abbrev pub nearby_line_window : ℕ
nearby_line_window = 3

-- `path.replace(/\\/g, '/').replace(/^\.\//, '')`
abbrev pub replace_backslashes : Text → Text
replace_backslashes [] = []
replace_backslashes (c ∷ t) = (if c == 92 then 47 else c) ∷ replace_backslashes t

abbrev pub drop_dot : Text → Text
drop_dot (c ∷ d ∷ t) = if (c == 46) && (d == 47) then t else c ∷ d ∷ t
drop_dot t = t

-- The order of `sort()` on texts.
abbrev pub text_le : Text → Text → Bool
text_le [] b = true
text_le (c ∷ a) [] = false
text_le (c ∷ a) (d ∷ b) = ltb c d || ((c == d) && text_le a b)

unfoldable pub insert_word : Text → List Text → List Text
insert_word w [] = w ∷ []
insert_word w (v ∷ vs) = let rest = insert_word w vs in if text_le w v then w ∷ v ∷ vs else v ∷ rest

unfoldable pub sort_words : List Text → List Text
sort_words [] = []
sort_words (w ∷ ws) = insert_word w (sort_words ws)

abbrev pub words_eq : List Text → List Text → Bool
words_eq [] [] = true
words_eq (a ∷ ws) (b ∷ vs) = text_eq a b && words_eq ws vs
words_eq _ _ = false

abbrev pub contains : List Text → Text → Bool
contains words w = any (text_eq w) words

-- `shared / union >= 0.6`, in whole numbers.
unfoldable pub is_similar : List Text → List Text → Bool
is_similar words_a words_b =
    let a = distinct text_eq [] words_a in
    let b = distinct text_eq [] words_b in
    let shared = length (keep (contains b) a) in
    not (length a == 0)
    && (not (length b == 0) && leb (3 * (length a + length b - shared)) (5 * shared))

-- A severity of a finding is its own canonical name, so `normalizeSeverity` gives it back.
unfoldable pub strongest_severity : FindingSeverity → FindingSeverity → FindingSeverity
strongest_severity a b = if leb (severity_rank b) (severity_rank a) then a else b

abbrev pub source_rank : Option FindingSource → ℕ
source_rank none = 0
source_rank (some secrets) = 5
source_rank (some dependencies) = 4
source_rank (some sast) = 3
source_rank (some rules) = 2
source_rank (some llm) = 1

unfoldable pub stronger_source : Option FindingSource → Option FindingSource → Option FindingSource
stronger_source none b = b
stronger_source (some a) b = if leb (source_rank b) (source_rank (some a)) then some a else b

abbrev pub or_line : ℕ → ℕ → ℕ
or_line zero b = b
or_line (suc a) b = suc a

unfoldable pub merged_line : ℕ → ℕ → ℕ
merged_line a b = if ltb 0 a && ltb 0 b then min a b else or_line a b

abbrev pub longer : Text → Text → Text
longer a b = if leb (length b) (length a) then a else b

abbrev pub or_anchor : Option Text → Option Text → Option Text
or_anchor none b = b
or_anchor (some a) b = some a

-- `existing.sources ?? [existing.source ?? 'LLM']`
abbrev pub sources_of : AiSuggestion → List FindingSource
sources_of f = elim f.sources [
  | some sources ↦ sources
  | none ↦ elim f.source [ some s ↦ s ∷ [] | none ↦ llm ∷ [] ]
]

abbrev pub keys_of : AiSuggestion → List Text
keys_of f = elim f.rule_keys [ some keys ↦ keys | none ↦ [] ]

unfoldable pub merge : AiSuggestion → AiSuggestion → AiSuggestion
merge existing incoming = record {
  verified_anchor = or_anchor existing.verified_anchor incoming.verified_anchor;
  file_path = existing.file_path;
  line_number = merged_line existing.line_number incoming.line_number;
  agent_type = existing.agent_type;
  issue = longer existing.issue incoming.issue;
  suggestion = longer existing.suggestion incoming.suggestion;
  priority = strongest_severity existing.priority incoming.priority;
  source = stronger_source existing.source incoming.source;
  sources = some (distinct source_eq [] (sources_of existing ++ sources_of incoming));
  rule_keys = some (distinct text_eq [] (keys_of existing ++ keys_of incoming));
  corroborated = false;
}

abbrev pub anchors_agree : Option Text → Option Text → Bool
anchors_agree (some a) (some b) = text_eq a b
anchors_agree _ _ = true

abbrev pub is_anchored : Option Text → Bool
is_anchored none = false
is_anchored (some a) = not (length a == 0)

unfoldable pub same_anchor : AiSuggestion → AiSuggestion → Bool
same_anchor k f =
    not (is_anchored k.verified_anchor || is_anchored f.verified_anchor)
    || (text_eq k.file_path f.file_path
        && ((k.line_number == f.line_number)
            && (not (is_anchored k.verified_anchor)
                || (not (is_anchored f.verified_anchor)
                    || anchors_agree k.verified_anchor f.verified_anchor))))

-- `path|category|fingerprint`; the exact key has the line as well.
pub record LooseKey : Type 0 where
  pub path : Text
  pub category : FindingCategory
  pub words : List Text

abbrev pub key_eq : LooseKey → LooseKey → Bool
key_eq a b =
    text_eq a.path b.path && (category_eq a.category b.category && words_eq a.words b.words)

abbrev pub get_key : LooseKey → List (LooseKey × ℕ) → Option ℕ
get_key key [] = none
get_key key ((k, i) ∷ rows) = if key_eq k key then some i else get_key key rows

-- `kept` and `byLooseKey`; the newest entry of a key is the one that counts.
pub record Kept : Type 0 where
  pub kept : List AiSuggestion
  pub by_loose_key : List (LooseKey × ℕ)

abbrev pub or_else : Option ℕ → Option ℕ → Option ℕ
or_else none b = b
or_else (some a) b = some a

-- An index, if the item there passes.
abbrev pub checked : (AiSuggestion → Bool) → List AiSuggestion → Option ℕ → Option ℕ
checked p kept none = none
checked p kept (some i) = elim (get_elem? kept i) [
  | none ↦ none
  | some k ↦ if p k then some i else none
]

abbrev pub normalize_path : (Text → Text) → Text → Text
normalize_path lower path = lower (drop_dot (replace_backslashes path))

module _ (lower : Text → Text) (tokenize : Text → List Text) where
  abbrev pub loose_key : AiSuggestion → LooseKey
  loose_key f = record {
    path = normalize_path lower f.file_path;
    category = f.agent_type;
    words = sort_words (tokenize f.issue);
  }

  unfoldable pub is_exact : AiSuggestion → AiSuggestion → Bool
  is_exact f k =
      key_eq (loose_key k) (loose_key f) && ((k.line_number == f.line_number) && same_anchor k f)

  unfoldable pub is_nearby : AiSuggestion → AiSuggestion → Bool
  is_nearby f k =
      same_anchor k f
      && (text_eq (normalize_path lower k.file_path) (normalize_path lower f.file_path)
          && (category_eq k.agent_type f.agent_type
              && leb (distance k.line_number f.line_number) nearby_line_window))

  abbrev pub is_same_issue : AiSuggestion → AiSuggestion → Bool
  is_same_issue f k = is_similar (tokenize k.issue) (tokenize f.issue)

  -- Where the finding is merged into, if anywhere.
  unfoldable pub merge_target : Kept → AiSuggestion → Option ℕ
  merge_target s f = or_else (find_index (is_exact f) s.kept) (
      or_else (checked (λ k. same_anchor k f) s.kept (get_key (loose_key f) s.by_loose_key))
        (checked (is_same_issue f) s.kept (find_index (is_nearby f) s.kept)))

  unfoldable pub add_finding : Kept → AiSuggestion → Kept
  add_finding s f = elim (merge_target s f) [
    | some i ↦ record s { kept = update_at i (λ k. merge k f) s.kept }
    | none ↦ record {
      kept = s.kept ++ f ∷ [];
      by_loose_key = (loose_key f, length s.kept) ∷ s.by_loose_key;
    }
  ]

  unfoldable pub add_findings : Kept → List AiSuggestion → Kept
  add_findings s [] = s
  add_findings s (f ∷ fs) = add_findings (add_finding s f) fs

  unfoldable pub deduplicate : List AiSuggestion → List AiSuggestion
  deduplicate findings =
      if ltb (length findings) 2
      then findings
      else (add_findings (record { kept = []; by_loose_key = [] }) findings).kept
