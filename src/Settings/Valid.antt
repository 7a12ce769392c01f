-- ===== src/Settings/Valid.antt =====
-- A rule that the validation accepts can be run.
use ai_pr_reviewer.Prelude.{
  ℕ, ◌≤◌, ◌≡◌, refl, subst, inl, inr, Bool, true, false, not, ◌||◌, Option, none, some, arith, ltb,
  Bool-cases, Option-cases,
}
use Prim.Native.String.{String}
use ai_pr_reviewer.Store.{Text}
use ai_pr_reviewer.Findings.Taxonomy.{FindingSeverity, FindingCategory, medium, maintainability}
use ai_pr_reviewer.Settings.Value.{
  Value, undefined, null, boolean, number, array, object, string, Fields, field_of, record_of,
}
use ai_pr_reviewer.Settings.Strings.{trim, utf16_length, is_empty}
use ai_pr_reviewer.Settings.Rules.{
  RuleEnforcement, by_model, max_name, max_description, max_guideline, max_pattern, RuleInput,
  RuleError, Result, ok, error, otherwise, require, enforcements, finding_severities,
  finding_categories, one_of, enabled_of, bounded_text, read_optional_text, name_of, uses_model,
  uses_pattern, is_present, is_compilable, finish_rule, check_mode, validate_fields, validate_rule,
  unknown_severity, unknown_category, unknown_enforcement, name_is_required, name_is_too_long,
  guideline_is_required, pattern_is_required, pattern_is_invalid,
}

-- A text that is given is not empty and within the limit.
abbrev pub IsBoundedText : Option String → ℕ → Type 0
IsBoundedText none limit = Unit
IsBoundedText (some t) limit = (is_empty t ≡ false) × (utf16_length t ≤ limit)

pub record IsRunnable (compile : String → Option (Text → Bool)) (rule : RuleInput) : Type 0 where
  pub named : is_empty rule.name ≡ false
  pub name_bounded : utf16_length rule.name ≤ max_name
  pub description_bounded : IsBoundedText rule.description max_description
  pub guideline_bounded : IsBoundedText rule.guideline max_guideline
  pub pattern_bounded : IsBoundedText rule.pattern max_pattern
  pub worded : uses_model rule.enforcement ≡ true → is_present rule.guideline ≡ true
  pub matched : uses_pattern rule.enforcement ≡ true → is_present rule.pattern ≡ true
  pub compiles : is_compilable compile rule.pattern ≡ true

require-ok :
    (b : Bool) (e : RuleError) (r : Result RuleInput) {rule : RuleInput}
    → require b e r ≡ ok rule
    → (b ≡ true) × (r ≡ ok rule)
require-ok true e r h = (refl, h)
require-ok false e r h = cc

otherwise-ok {ℓ} :
    {A : Type ℓ} (r : Result A) (f : A → Result RuleInput) {rule : RuleInput}
    → otherwise r f ≡ ok rule
    → (a : A) × (r ≡ ok a) × (f a ≡ ok rule)
otherwise-ok (error e) f h = cc
otherwise-ok (ok a) f h = (a, refl, h)

bounded-IsBoundedText :
    (limit : ℕ) (field t : String) {o : Option String}
    → bounded_text limit field t ≡ ok o
    → IsBoundedText o limit
bounded-IsBoundedText limit field t {o} h = elim (Bool-cases (is_empty t)) [
  | inl empty ↦
      let none_read : ok none ≡ ok o = rw empty at h in
      let e : none ≡ o = cc in subst (λ x. IsBoundedText x limit) e tt
  | inr given ↦ elim (Bool-cases (ltb limit (utf16_length t))) [
    | inl long ↦ absurd (cc (rw (given, long) at h))
    | inr short ↦
        let read : ok (some t) ≡ ok o = rw (given, short) at h in
        let e : some t ≡ o = cc in subst (λ x. IsBoundedText x limit) e (given, ground arith)
  ]
]

read-IsBoundedText :
    (v : Value) (limit : ℕ) (field : String) {o : Option String}
    → read_optional_text v limit field ≡ ok o
    → IsBoundedText o limit
read-IsBoundedText undefined limit field {o} h =
    let e : none ≡ o = cc in subst (λ x. IsBoundedText x limit) e tt
read-IsBoundedText null limit field {o} h =
    let e : none ≡ o = cc in subst (λ x. IsBoundedText x limit) e tt
read-IsBoundedText (boolean b) limit field h = cc
read-IsBoundedText (number n) limit field h = cc
read-IsBoundedText (array vs) limit field h = cc
read-IsBoundedText (object fs) limit field h = cc
read-IsBoundedText (string t) limit field h = bounded-IsBoundedText limit field (trim t) h

module _ (compile : String → Option (Text → Bool)) where
  finish-IsRunnable :
      (body : Fields) (name : String) (d g p : Option String) (mode : RuleEnforcement)
      (rule : RuleInput)
      → finish_rule compile body name d g p mode ≡ ok rule
      → ((s : FindingSeverity) (c : FindingCategory) (e : Bool)
          → IsRunnable compile (record {
            name = name;
            description = d;
            guideline = g;
            pattern = p;
            severity = s;
            category = c;
            enforcement = mode;
            enabled = e;
          }))
      → IsRunnable compile rule
  finish-IsRunnable body name d g p mode rule h runnable =
      let (s, a, h1) =
        otherwise-ok (one_of unknown_severity medium finding_severities (field_of "severity" body))
          _ h in
      let (c, b, h2) =
        otherwise-ok
          (one_of unknown_category maintainability finding_categories (field_of "category" body)) _
          h1 in
      let (e, f, h3) = otherwise-ok (enabled_of (field_of "enabled" body)) _ h2 in
      let made : record {
        name = name;
        description = d;
        guideline = g;
        pattern = p;
        severity = s;
        category = c;
        enforcement = mode;
        enabled = e;
      }
          ≡ rule =
        cc in
      subst (IsRunnable compile) made (runnable s c e)

  mode-IsRunnable :
      (body : Fields) (name : String) (d g p : Option String) (mode : RuleEnforcement)
      (rule : RuleInput)
      → check_mode compile body name d g p mode ≡ ok rule
      → is_empty name ≡ false
      → utf16_length name ≤ max_name
      → IsBoundedText d max_description
      → IsBoundedText g max_guideline
      → IsBoundedText p max_pattern
      → IsRunnable compile rule
  unfolding check_mode
  mode-IsRunnable body name d g p mode rule h named short bd bg bp =
      let (a, h1) =
        require-ok (not (uses_model mode) || is_present g) (guideline_is_required mode) _ h in
      let (b, h2) =
        require-ok (not (uses_pattern mode) || is_present p) (pattern_is_required mode) _ h1 in
      let (c, h3) = require-ok (is_compilable compile p) pattern_is_invalid _ h2 in
      finish-IsRunnable body name d g p mode rule h3 (λ s k e. record {
        named = named;
        name_bounded = short;
        description_bounded = bd;
        guideline_bounded = bg;
        pattern_bounded = bp;
        worded = λ w. ground arith;
        matched = λ w. ground arith;
        compiles = c;
      })

  fields-IsRunnable :
      (body : Fields) (name : String) (rule : RuleInput)
      → validate_fields compile body name ≡ ok rule
      → IsRunnable compile rule
  unfolding validate_fields
  fields-IsRunnable body name rule h =
      let (a, h1) = require-ok (not (is_empty name)) name_is_required _ h in
      let (b, h2) = require-ok (not (ltb max_name (utf16_length name))) name_is_too_long _ h1 in
      let (d, e, h3) =
        otherwise-ok
          (read_optional_text (field_of "description" body) max_description "description") _ h2 in
      let (g, f, h4) =
        otherwise-ok (read_optional_text (field_of "guideline" body) max_guideline "guideline") _
          h3 in
      let (p, q, h5) =
        otherwise-ok (read_optional_text (field_of "pattern" body) max_pattern "pattern") _ h4 in
      let (mode, m, h6) =
        otherwise-ok
          (one_of unknown_enforcement by_model enforcements (field_of "enforcement" body)) _ h5 in
      mode-IsRunnable body name d g p mode rule h6 (ground arith) (ground arith)
        (read-IsBoundedText (field_of "description" body) max_description "description" e)
        (read-IsBoundedText (field_of "guideline" body) max_guideline "guideline" f)
        (read-IsBoundedText (field_of "pattern" body) max_pattern "pattern" q)

  -- A rule that is accepted has a name, texts within their limits and what its enforcement needs: a
  -- guideline for the model, a pattern to match. Its pattern, if any, compiles.
  pub accepted_rule-IsRunnable :
      (raw : Value) (rule : RuleInput)
      → validate_rule compile raw ≡ ok rule
      → IsRunnable compile rule
  unfolding validate_rule
  accepted_rule-IsRunnable raw rule h = elim (Option-cases (record_of raw)) [
    | inl bad ↦ absurd (cc (rw (bad, validate_rule) at h))
    | inr (body, good) ↦
        fields-IsRunnable body (name_of (field_of "name" body)) rule (rw (good, validate_rule) at h)
  ]
