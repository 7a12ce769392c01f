-- ===== src/Findings/Survivors.antt =====
-- Merging hides no finding: what each survivor of the merge keeps of the findings it stands for.
use ai_pr_reviewer.Prelude.{
  ℕ, zero, suc, ◌≤◌, ◌<◌, ◌≡◌, refl, ◌∙◌, ◌⊎◌, inl, true, Option, none, some, [], ◌∷◌, arith,
}
use ai_pr_reviewer.Store.{Text}
use ai_pr_reviewer.Store.{text_eq}
use ai_pr_reviewer.Findings.Taxonomy.{
  FindingSeverity, FindingCategory, FindingSource, AiSuggestion, severity_rank, category_eq,
}
use ai_pr_reviewer.Findings.Dedup.{
  source_rank, strongest_severity, stronger_source, merged_line, merge, normalize_path,
}

pub text_eq→eq : (a b : Text) → text_eq a b ≡ true → a ≡ b
text_eq→eq [] [] h = refl
text_eq→eq [] (d ∷ b) h = cc
text_eq→eq (c ∷ a) [] h = cc
text_eq→eq (c ∷ a) (d ∷ b) h = ground (arith, text_eq→eq a b)

pub category_eq→eq : (a b : FindingCategory) → category_eq a b ≡ true → a ≡ b
category_eq→eq a b h = ground arith

module _ (lower : Text → Text) where
  -- `k` stands for `f`: the same file and category, at least as severe, from a source that ranks no
  -- lower, and at `f`'s line or an earlier one where `f` has a line.
  pub record Covers (k f : AiSuggestion) : Type 0 where
    pub path : normalize_path lower k.file_path ≡ normalize_path lower f.file_path
    pub category : k.agent_type ≡ f.agent_type
    pub severity : severity_rank f.priority ≤ severity_rank k.priority
    pub provenance : source_rank f.source ≤ source_rank k.source
    pub line : (f.line_number ≡ 0) ⊎ (0 < k.line_number) × (k.line_number ≤ f.line_number)

  pub Covers-refl : (f : AiSuggestion) → Covers f f
  Covers-refl f = record {
    path = refl;
    category = refl;
    severity = omega arith;
    provenance = omega arith;
    line = ground arith;
  }

  pub Covers-trans : {a b c : AiSuggestion} → Covers a b → Covers b c → Covers a c
  Covers-trans x y = record {
    path = x.path ∙ y.path;
    category = x.category ∙ y.category;
    severity = omega (arith, x.severity, y.severity);
    provenance = omega (arith, x.provenance, y.provenance);
    line = ground (arith, x.line, y.line);
  }

  merge-severity :
      (a b : FindingSeverity)
      → (severity_rank a ≤ severity_rank (strongest_severity a b))
        × (severity_rank b ≤ severity_rank (strongest_severity a b))
  unfolding strongest_severity
  merge-severity a b = ground arith

  merge-source :
      (a b : Option FindingSource)
      → (source_rank a ≤ source_rank (stronger_source a b))
        × (source_rank b ≤ source_rank (stronger_source a b))
  unfolding stronger_source
  merge-source none b = ground arith
  merge-source (some a) b = ground arith

  merge-line_left : (a b : ℕ) → (a ≡ 0) ⊎ (0 < merged_line a b) × (merged_line a b ≤ a)
  unfolding merged_line
  merge-line_left zero b = inl refl
  merge-line_left (suc a) b = ground arith

  merge-line_right : (a b : ℕ) → (b ≡ 0) ⊎ (0 < merged_line a b) × (merged_line a b ≤ b)
  unfolding merged_line
  merge-line_right zero b = ground arith
  merge-line_right (suc a) b = ground arith

  pub merge-Covers_existing : (k f : AiSuggestion) → Covers (merge k f) k
  unfolding merge
  merge-Covers_existing k f = record {
    path = refl;
    category = refl;
    severity = (merge-severity k.priority f.priority).0;
    provenance = (merge-source k.source f.source).0;
    line = merge-line_left k.line_number f.line_number;
  }

  pub merge-Covers_incoming :
      (k f : AiSuggestion)
      → normalize_path lower k.file_path ≡ normalize_path lower f.file_path
      → k.agent_type ≡ f.agent_type
      → Covers (merge k f) f
  unfolding merge
  merge-Covers_incoming k f p c = record {
    path = p;
    category = c;
    severity = (merge-severity k.priority f.priority).1;
    provenance = (merge-source k.source f.source).1;
    line = merge-line_right k.line_number f.line_number;
  }
