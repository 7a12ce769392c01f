-- ===== src/Review/Spread.antt =====
-- The result fields of a review after a write: what `{ ...previous, ...metadata }` holds for each key.
use ai_pr_reviewer.Prelude.{◌≡◌, refl, ap, ◌∙◌, Option, none, some, [], ◌∷◌, arith, if◌then◌else◌}
use Prim.Native.String.{String}
use text.Mathlib.Text.{◌==◌ as str_eq}
use text.Mathlib.TextEquality.{eq_iff}
use ai_pr_reviewer.Store.{Text, Results, absent, other, object}
use ai_pr_reviewer.Review.Job.{Fields, put_field, spread, get_field, merge_results}

-- The first value, and otherwise the second.
abbrev or_else : Option Text → Option Text → Option Text
or_else (some v) old = some v
or_else none old = old

-- The value that a list of entries gives to a key: that of its last entry for it.
abbrev pub last_value : String → Fields → Option Text
last_value k [] = none
last_value k ((j, v) ∷ m) = or_else (last_value k m) (if str_eq j k then some v else none)

-- A field of an object; what is no object has none.
abbrev pub field_in : String → Results → Option Text
field_in k (object fields) = get_field k fields
field_in k absent = none
field_in k (other v) = none

-- The new results are an object in which each key has the value that the write gives it, and its old
-- value where the write gives none; a write without fields leaves the results.
abbrev pub IsLaidOver : Option Fields → Results → Results → Type 0
IsLaidOver none old new = new ≡ old
IsLaidOver (some m) old new =
    (fields : Fields) × (new ≡ object fields)
    × ((k : String) → get_field k fields ≡ or_else (last_value k m) (field_in k old))

get_field-put_field :
    (k j : String) (v : Text) (m : Fields)
    → get_field k (put_field j v m) ≡ (if str_eq j k then some v else get_field k m)
unfolding get_field put_field
get_field-put_field k j v [] = refl
get_field-put_field k j v ((i, w) ∷ m) =
    ground (arith, eq_iff j k, eq_iff i k, eq_iff i j, get_field-put_field k j v m)

or_else-if :
    (k j : String) (v : Text) (late old : Option Text)
    → or_else late (if str_eq j k then some v else old)
      ≡ or_else (or_else late (if str_eq j k then some v else none)) old
or_else-if k j v (some w) old = refl
or_else-if k j v none old = ground arith

get_field-spread :
    (k : String) (m previous : Fields)
    → get_field k (spread previous m) ≡ or_else (last_value k m) (get_field k previous)
unfolding spread
get_field-spread k [] previous = refl
get_field-spread k ((j, v) ∷ m) previous =
    get_field-spread k m (put_field j v previous)
    ∙ ap (or_else (last_value k m)) (get_field-put_field k j v previous)
    ∙ or_else-if k j v (last_value k m) (get_field k previous)

pub merge_results-IsLaidOver :
    (m : Option Fields) (old : Results) → IsLaidOver m old (merge_results m old)
unfolding get_field
merge_results-IsLaidOver none old = refl
merge_results-IsLaidOver (some m) absent = (spread [] m, refl, λ k. get_field-spread k m [])
merge_results-IsLaidOver (some m) (other v) = (spread [] m, refl, λ k. get_field-spread k m [])
merge_results-IsLaidOver (some m) (object fields) =
    (spread fields m, refl, λ k. get_field-spread k m fields)
