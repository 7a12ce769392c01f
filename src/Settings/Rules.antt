-- ===== src/Settings/Rules.antt =====
-- services/rules.service.ts: the validation of a rule and what rules add to the prompt. RE2 is an
-- argument: the test that a pattern compiles to, `none` where it throws.
use ai_pr_reviewer.Prelude.{
  ℕ, Bool, true, false, not, ◌&&◌, ◌||◌, Option, none, some, List, [], ◌∷◌, ◌++◌, ltb,
  if◌then◌else◌,
}
use Prim.Native.String.{String, ◌++◌ as ◌+++◌}
use ai_pr_reviewer.Store.{Text}
use ai_pr_reviewer.Findings.Taxonomy.{
  FindingSeverity, medium, FindingCategory, maintainability, critical, high, low, info, security,
  bug, correctness, performance, architecture, style, testing, lookup,
}
use ai_pr_reviewer.Settings.Value.{
  Value, undefined, null, boolean, string, Fields, field_of, record_of,
}
use ai_pr_reviewer.Settings.Strings.{trim, utf16_length, is_empty}

pub data RuleEnforcement : Type 0 where
  by_model deterministic both : RuleEnforcement

abbrev pub max_name : ℕ
max_name = 120

abbrev pub max_description : ℕ
max_description = 500

abbrev pub max_guideline : ℕ
max_guideline = 2000

abbrev pub max_pattern : ℕ
max_pattern = 500

pub record RuleInput : Type 0 where
  pub name : String
  pub description : Option String
  pub guideline : Option String
  pub pattern : Option String
  pub severity : FindingSeverity
  pub category : FindingCategory
  pub enforcement : RuleEnforcement
  pub enabled : Bool

-- The texts of `error`.
pub data RuleError : Type 0 where
  body_must_be_an_object name_is_required name_is_too_long : RuleError
  must_be_a_string is_too_long : String → RuleError
  unknown_enforcement unknown_severity unknown_category enabled_must_be_a_boolean : RuleError
  guideline_is_required pattern_is_required : RuleEnforcement → RuleError
  pattern_is_invalid : RuleError

pub data Result {ℓ} (A : Type ℓ) : Type ℓ where
  ok : A → Result A
  error : RuleError → Result A

-- An early return of an error.
abbrev pub otherwise {ℓ κ} : {A : Type ℓ} {B : Type κ} → Result A → (A → Result B) → Result B
otherwise (error e) f = error e
otherwise (ok a) f = f a

abbrev pub require {ℓ} : {A : Type ℓ} → Bool → RuleError → Result A → Result A
require true e r = r
require false e r = error e

abbrev pub enforcements : List (String × RuleEnforcement)
enforcements = ("LLM", by_model) ∷ ("DETERMINISTIC", deterministic) ∷ ("BOTH", both) ∷ []

abbrev pub finding_severities : List (String × FindingSeverity)
finding_severities =
    ("CRITICAL", critical)
    ∷ ("HIGH", high)
    ∷ ("MEDIUM", medium)
    ∷ ("LOW", low)
    ∷ ("INFO", info)
    ∷ []

abbrev pub finding_categories : List (String × FindingCategory)
finding_categories =
    ("SECURITY", security)
    ∷ ("BUG", bug)
    ∷ ("CORRECTNESS", correctness)
    ∷ ("PERFORMANCE", performance)
    ∷ ("ARCHITECTURE", architecture)
    ∷ ("MAINTAINABILITY", maintainability)
    ∷ ("STYLE", style)
    ∷ ("TESTING", testing)
    ∷ []

abbrev pub or_error {ℓ} : {A : Type ℓ} → RuleError → Option A → Result A
or_error e none = error e
or_error e (some a) = ok a

-- A name of the table; a missing value is the default.
abbrev pub one_of {ℓ} : {A : Type ℓ} → RuleError → A → List (String × A) → Value → Result A
one_of e default table undefined = ok default
one_of e default table (string t) = or_error e (lookup t table)
one_of e default table v = error e

abbrev pub enabled_of : Value → Result Bool
enabled_of undefined = ok true
enabled_of (boolean b) = ok b
enabled_of v = error enabled_must_be_a_boolean

abbrev pub bounded_text : ℕ → String → String → Result (Option String)
bounded_text limit field trimmed =
    if is_empty trimmed
    then ok none
    else if ltb limit (utf16_length trimmed)
    then error (is_too_long field)
    else ok (some trimmed)

-- The empty text counts as none, and so does one that is blank.
abbrev pub read_optional_text : Value → ℕ → String → Result (Option String)
read_optional_text undefined limit field = ok none
read_optional_text null limit field = ok none
read_optional_text (string t) limit field = bounded_text limit field (trim t)
read_optional_text v limit field = error (must_be_a_string field)

abbrev pub name_of : Value → String
name_of (string t) = trim t
name_of v = ""

abbrev pub uses_model : RuleEnforcement → Bool
uses_model deterministic = false
uses_model _ = true

abbrev pub uses_pattern : RuleEnforcement → Bool
uses_pattern by_model = false
uses_pattern _ = true

abbrev pub is_present : Option String → Bool
is_present none = false
is_present (some t) = true

module _ (compile : String → Option (Text → Bool)) where
  abbrev pub compile_pattern : String → Option (Text → Bool)
  compile_pattern pattern = if ltb max_pattern (utf16_length pattern) then none else compile pattern

  -- A pattern is compiled wherever there is one.
  abbrev pub is_compilable : Option String → Bool
  is_compilable none = true
  is_compilable (some pattern) = elim (compile_pattern pattern) [ none ↦ false | some test ↦ true ]

  abbrev pub finish_rule :
      Fields
      → String
      → Option String
      → Option String
      → Option String
      → RuleEnforcement
      → Result RuleInput
  finish_rule body name description guideline pattern mode =
      otherwise (one_of unknown_severity medium finding_severities (field_of "severity" body)) (λ s.
        otherwise
          (one_of unknown_category maintainability finding_categories (field_of "category" body))
          (λ c. otherwise (enabled_of (field_of "enabled" body)) (λ e. ok (record {
            name = name;
            description = description;
            guideline = guideline;
            pattern = pattern;
            severity = s;
            category = c;
            enforcement = mode;
            enabled = e;
          }))))

  -- The requirements of the enforcement mode, in order.
  unfoldable pub check_mode :
      Fields
      → String
      → Option String
      → Option String
      → Option String
      → RuleEnforcement
      → Result RuleInput
  check_mode body name description guideline pattern mode =
      require (not (uses_model mode) || is_present guideline) (guideline_is_required mode) (
        require (not (uses_pattern mode) || is_present pattern) (pattern_is_required mode) (
          require (is_compilable pattern) pattern_is_invalid
            (finish_rule body name description guideline pattern mode)))

  unfoldable pub validate_fields : Fields → String → Result RuleInput
  validate_fields body name = require (not (is_empty name)) name_is_required (
      require (not (ltb max_name (utf16_length name))) name_is_too_long (
        otherwise (read_optional_text (field_of "description" body) max_description "description")
          (λ d.
            otherwise (read_optional_text (field_of "guideline" body) max_guideline "guideline")
              (λ g.
                otherwise (read_optional_text (field_of "pattern" body) max_pattern "pattern") (λ p.
                  otherwise
                    (one_of unknown_enforcement by_model enforcements (field_of "enforcement" body))
                    (λ mode. check_mode body name d g p mode))))))

  unfoldable pub validate_rule : Value → Result RuleInput
  validate_rule raw = elim (record_of raw) [
    | none ↦ error body_must_be_an_object
    | some body ↦ validate_fields body (name_of (field_of "name" body))
  ]

abbrev pub prompt_line : RuleInput → List String
prompt_line rule = elim rule.guideline [
  | none ↦ []
  | some g ↦
      if uses_model rule.enforcement && not (is_empty g)
      then ("[" +++ (rule.name +++ ("] " +++ g))) ∷ []
      else []
]

abbrev pub rule_lines : List RuleInput → List String
rule_lines [] = []
rule_lines (rule ∷ rules) = prompt_line rule ++ rule_lines rules

unfoldable pub merge_guidelines : List String → List RuleInput → List String
merge_guidelines file_guidelines rules = file_guidelines ++ rule_lines rules
