-- ===== src/Findings/Taxonomy.antt =====
-- The vocabulary of services/ai/finding-taxonomy.ts: severities, categories, sources, a finding, and
-- the aliases that models use.
use ai_pr_reviewer.Prelude.{
  ℕ, Bool, Option, none, some, List, [], ◌∷◌, ◌==◌, ◌-◌, leb, if◌then◌else◌,
}
use Prim.Native.String.{String}
use text.Mathlib.Text.{◌==◌ as str_eq}
use ai_pr_reviewer.Store.{Text}
use ai_pr_reviewer.Settings.Strings.{trim}
use ai_pr_reviewer.Findings.Separators.{underscored}

pub data FindingSeverity : Type 0 where
  critical high medium low info : FindingSeverity

pub data FindingCategory : Type 0 where
  security bug correctness performance architecture maintainability style testing : FindingCategory

pub data FindingSource : Type 0 where
  llm sast secrets dependencies rules : FindingSource

-- `corroborated` is false where the source has no value.
pub record AiSuggestion : Type 0 where
  pub verified_anchor : Option Text
  pub file_path : Text
  pub line_number : ℕ
  pub agent_type : FindingCategory
  pub issue : Text
  pub suggestion : Text
  pub priority : FindingSeverity
  pub source : Option FindingSource
  pub sources : Option (List FindingSource)
  pub rule_keys : Option (List Text)
  pub corroborated : Bool

abbrev pub severity_rank : FindingSeverity → ℕ
severity_rank critical = 4
severity_rank high = 3
severity_rank medium = 2
severity_rank low = 1
severity_rank info = 0

abbrev pub category_code : FindingCategory → ℕ
category_code security = 0
category_code bug = 1
category_code correctness = 2
category_code performance = 3
category_code architecture = 4
category_code maintainability = 5
category_code style = 6
category_code testing = 7

abbrev pub category_eq : FindingCategory → FindingCategory → Bool
category_eq a b = category_code a == category_code b

abbrev pub source_code : FindingSource → ℕ
source_code llm = 0
source_code sast = 1
source_code secrets = 2
source_code dependencies = 3
source_code rules = 4

abbrev pub source_eq : FindingSource → FindingSource → Bool
source_eq a b = source_code a == source_code b

-- `Math.abs(a - b)`
abbrev pub distance : ℕ → ℕ → ℕ
distance a b = if leb a b then b - a else a - b

abbrev pub severity_aliases : List (String × FindingSeverity)
severity_aliases =
    ("CRITICAL", critical)
    ∷ ("BLOCKER", critical)
    ∷ ("FATAL", critical)
    ∷ ("SEVERE", critical)
    ∷ ("HIGH", high)
    ∷ ("MAJOR", high)
    ∷ ("ERROR", high)
    ∷ ("MEDIUM", medium)
    ∷ ("MODERATE", medium)
    ∷ ("NORMAL", medium)
    ∷ ("WARNING", medium)
    ∷ ("LOW", low)
    ∷ ("MINOR", low)
    ∷ ("INFO", info)
    ∷ ("INFORMATIONAL", info)
    ∷ ("NOTICE", info)
    ∷ ("TRIVIAL", info)
    ∷ ("NIT", info)
    ∷ []

abbrev pub category_aliases : List (String × FindingCategory)
category_aliases =
    ("SECURITY", security)
    ∷ ("VULNERABILITY", security)
    ∷ ("VULN", security)
    ∷ ("BUG", bug)
    ∷ ("BUG_RISK", bug)
    ∷ ("DEFECT", bug)
    ∷ ("REGRESSION", bug)
    ∷ ("CORRECTNESS", correctness)
    ∷ ("LOGIC", correctness)
    ∷ ("VALIDATION", correctness)
    ∷ ("TYPE_SAFETY", correctness)
    ∷ ("PERFORMANCE", performance)
    ∷ ("OPTIMIZATION", performance)
    ∷ ("MEMORY", performance)
    ∷ ("ARCHITECTURE", architecture)
    ∷ ("DESIGN", architecture)
    ∷ ("MAINTAINABILITY", maintainability)
    ∷ ("MAINTAINABILITY_RISK", maintainability)
    ∷ ("CLEANUP", maintainability)
    ∷ ("READABILITY", maintainability)
    ∷ ("NAMING", maintainability)
    ∷ ("DUPLICATION", maintainability)
    ∷ ("STYLE", style)
    ∷ ("FORMATTING", style)
    ∷ ("TESTING", testing)
    ∷ ("TEST", testing)
    ∷ ("TESTS", testing)
    ∷ ("TEST_COVERAGE", testing)
    ∷ []

abbrev pub lookup {ℓ} : {A : Type ℓ} → String → List (String × A) → Option A
lookup k [] = none
lookup k ((j, a) ∷ rows) = if str_eq j k then some a else lookup k rows

-- `toUpperCase` is an argument; `none` is a value that is no text.
unfoldable pub normalize_severity : (String → String) → Option String → Option FindingSeverity
normalize_severity upper none = none
normalize_severity upper (some t) = lookup (upper (trim t)) severity_aliases

unfoldable pub normalize_category : (String → String) → Option String → Option FindingCategory
normalize_category upper none = none
normalize_category upper (some t) = lookup (underscored (upper (trim t))) category_aliases
