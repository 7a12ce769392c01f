-- ===== src/Settings/Value.antt =====
-- Values of JavaScript as parsers give them, and the reads of them that
-- services/config.service.ts and services/rules.service.ts share.
use ai_pr_reviewer.Prelude.{
  ℕ, ◌/◌, ◌^◌, max, Bool, true, false, List, [], ◌∷◌, Option, none, some, if◌then◌else◌,
}
use Prim.Native.String.{String}
use text.Mathlib.Text.{◌==◌ as str_eq}

-- A double: none, infinite, or with a sign, a numerator and the exponent of its denominator.
pub data Number : Type 0 where
  not_a_number : Number
  infinite : Bool → Number
  finite : Bool → ℕ → ℕ → Number

mutual
  pub data Value : Type 0 where
    undefined null : Value
    boolean : Bool → Value
    number : Number → Value
    string : String → Value
    array : Values → Value
    object : Fields → Value

  pub data Values : Type 0 where
    end_values : Values
    next_value : Value → Values → Values

  pub data Fields : Type 0 where
    end_fields : Fields
    field : String → Value → Fields → Fields

-- `object[key]`
abbrev pub field_of : String → Fields → Value
field_of key end_fields = undefined
field_of key (field k v fields) = if str_eq k key then v else field_of key fields

-- `typeof value === 'object'` and not null: an array has none of the fields that are read.
abbrev pub fields_of : Value → Option Fields
fields_of (object fields) = some fields
fields_of (array values) = some end_fields
fields_of v = none

-- The same with arrays refused.
abbrev pub record_of : Value → Option Fields
record_of (object fields) = some fields
record_of v = none

abbrev pub boolean_or : Bool → Value → Bool
boolean_or default (boolean b) = b
boolean_or default v = default

abbrev pub text_or : String → Value → String
text_or default (string t) = t
text_or default v = default

abbrev pub number_or : Number → Value → Number
number_or default (number n) = n
number_or default v = default

-- `filter((item) => typeof item === 'string')`
abbrev pub texts_in : Values → List String
texts_in end_values = []
texts_in (next_value (string t) values) = t ∷ texts_in values
texts_in (next_value v values) = texts_in values

abbrev pub texts_or : List String → Value → List String
texts_or default (array values) = texts_in values
texts_or default v = default

-- `Math.max(1, Math.floor(value))` of a finite number.
abbrev pub floor_from_one : Number → Option ℕ
floor_from_one not_a_number = none
floor_from_one (infinite negative) = none
floor_from_one (finite true numerator exponent) = some 1
floor_from_one (finite false numerator exponent) = some (max 1 (numerator / 2 ^ exponent))
