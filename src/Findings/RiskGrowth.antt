-- ===== src/Findings/RiskGrowth.antt =====
-- One more finding never makes a review look safer.
use ai_pr_reviewer.Prelude.{
  ℕ, ◌+◌, ◌≤◌, ◌≡◌, refl, Bool, true, ◌||◌, List, [], ◌∷◌, ◌++◌, arith, any, keep, total,
}
use ai_pr_reviewer.Findings.Taxonomy.{secrets, AiSuggestion}
use ai_pr_reviewer.Findings.Risk.{
  RiskVerdict, block, review, safe, is_source, is_probe, is_high, severity_weight, risk_score,
  is_critical_security, has_critical_security, has_secret, has_high, verdict_of, assess_risk,
}

abbrev pub verdict_rank : RiskVerdict → ℕ
verdict_rank safe = 0
verdict_rank review = 1
verdict_rank block = 2

module _ {ℓ} {A : Type ℓ} where
  keep-append : (p : A → Bool) (xs ys : List A) → keep p (xs ++ ys) ≡ keep p xs ++ keep p ys
  keep-append p [] ys = refl
  keep-append p (x ∷ xs) ys = ground (arith, keep-append p xs ys)

  any-append : (p : A → Bool) (xs ys : List A) → any p (xs ++ ys) ≡ (any p xs || any p ys)
  any-append p [] ys = refl
  any-append p (x ∷ xs) ys = ground (arith, any-append p xs ys)

  -- A search that passes before an insertion passes after it.
  any-insert :
      (p : A → Bool) (x : A) (xs ys : List A)
      → any p (xs ++ ys) ≡ true
      → any p (xs ++ x ∷ ys) ≡ true
  any-insert p x [] ys h = ground arith
  any-insert p x (y ∷ xs) ys h = ground (arith, any-insert p x xs ys)

  any-keep-insert :
      (q p : A → Bool) (x : A) (xs ys : List A)
      → any p (keep q (xs ++ ys)) ≡ true
      → any p (keep q (xs ++ x ∷ ys)) ≡ true
  any-keep-insert q p x [] ys h = ground arith
  any-keep-insert q p x (y ∷ xs) ys h = ground (arith, any-keep-insert q p x xs ys)

  total-insert :
      (w : A → ℕ) (x : A) (xs ys : List A) → total w (xs ++ x ∷ ys) ≡ w x + total w (xs ++ ys)
  total-insert w x [] ys = refl
  total-insert w x (y ∷ xs) ys = omega (arith, total-insert w x xs ys)

verdict-grows :
    (c c' s s' h h' : Bool) (n n' : ℕ)
    → (c ≡ true → c' ≡ true)
    → (s ≡ true → s' ≡ true)
    → (h ≡ true → h' ≡ true)
    → n ≤ n'
    → verdict_rank (verdict_of c s n h) ≤ verdict_rank (verdict_of c' s' n' h')
verdict-grows c c' s s' h h' n n' hc hs hh le = ground arith

secret-grows :
    (policy : Bool) (before after : List AiSuggestion) (f : AiSuggestion)
    → has_secret policy (before ++ after) ≡ true
    → has_secret policy (before ++ f ∷ after) ≡ true
unfolding has_secret
secret-grows policy before after f h =
    ground (arith, any-keep-insert is_probe (λ g. is_source secrets g.source) f before after)

-- Wherever a finding is added to a review, its score and its verdict do not fall.
pub added_finding_never_lowers_risk :
    (policy : Bool) (before after : List AiSuggestion) (f : AiSuggestion)
    → let old = (assess_risk policy (before ++ after)).0 in
      let new = (assess_risk policy (before ++ f ∷ after)).0 in
      (old.score ≤ new.score) × (verdict_rank old.verdict ≤ verdict_rank new.verdict)
unfolding assess_risk risk_score has_critical_security has_secret has_high
added_finding_never_lowers_risk policy before after f =
    let grown = total-insert (λ (g : AiSuggestion). severity_weight g.priority) f before after in
    let more : risk_score (before ++ after) ≤ risk_score (before ++ f ∷ after) =
      unfold risk_score in omega arith in
    (
      more,
      verdict-grows _ _ _ _ _ _ _ _
          (any-keep-insert is_probe (is_critical_security policy) f before after)
          (secret-grows policy before after f)
          (any-insert (λ (g : AiSuggestion). is_high g.priority) f before after) more,
    )
