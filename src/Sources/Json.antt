-- ===== src/Sources/Json.antt =====
-- What `response.json()` gives, and Python's subscripts on it. A JSON number, and the number that
-- `float` reads from a text, are of a type that the model takes as a parameter.
use superflash_ia.Prelude.{
  String, Bool, true, false, not, Option, none, some, ◌==◌, string_eq, if◌then◌else◌,
}
use superflash_ia.Text.{is_empty}

-- The operations of `float` that the adapter uses.
pub record Floats : Type 1 where
  pub Number : Type 0
  pub is_finite : Number → Bool
  pub is_zero : Number → Bool
  pub is_below_one : Number → Bool
  pub is_negative : Number → Bool
  -- `max(0.0, x)` and `min(100.0, x)`
  pub at_least_zero : Number → Number
  pub at_most_hundred : Number → Number
  -- `round(x, 2)`
  pub round_two : Number → Number
  -- `int(x)`
  pub truncated : Number → Number
  pub of_bool : Bool → Number
  -- `float(text)`, or its `ValueError`
  pub of_text : String → Option Number

mutual
  pub data Json (F : Floats) : Type 0 where
    null : Json F
    boolean : Bool → Json F
    number : F.Number → Json F
    text : String → Json F
    array : Items F → Json F
    object : Fields F → Json F

  pub data Items (F : Floats) : Type 0 where
    nil : Items F
    cons : Json F → Items F → Items F

  pub data Fields (F : Floats) : Type 0 where
    end : Fields F
    field : String → Json F → Fields F → Fields F

module _ {F : Floats} where
  -- `x[key]` on a dictionary
  abbrev pub find_field : String → Fields F → Option (Json F)
  find_field key end = none
  find_field key (field k v rest) = if k == key then some v else find_field key rest

  -- `x[key]`, none for its `KeyError` or `TypeError`
  abbrev pub at_key : String → Json F → Option (Json F)
  at_key key (object fields) = find_field key fields
  at_key key _ = none

  -- `x[0]`, none for its `KeyError`, `IndexError` or `TypeError`
  abbrev pub at_zero : Json F → Option (Json F)
  at_zero (array (cons v rest)) = some v
  at_zero (text (String.◌∷◌ c s)) = some (text (String.◌∷◌ c String.[]))
  at_zero _ = none

  -- `x[1]`
  abbrev pub at_one : Json F → Option (Json F)
  at_one (array (cons u (cons v rest))) = some v
  at_one (text (String.◌∷◌ c (String.◌∷◌ d s))) = some (text (String.◌∷◌ d String.[]))
  at_one _ = none

  -- `not x`
  abbrev pub is_falsy : Json F → Bool
  is_falsy null = true
  is_falsy (boolean b) = not b
  is_falsy (number n) = F.is_zero n
  is_falsy (text s) = is_empty s
  is_falsy (array nil) = true
  is_falsy (array (cons v rest)) = false
  is_falsy (object end) = true
  is_falsy (object (field k v rest)) = false

  -- `float(x)`, none for its `ValueError` or `TypeError`
  abbrev pub float_of : Json F → Option F.Number
  float_of (number n) = some n
  float_of (boolean b) = some (F.of_bool b)
  float_of (text s) = F.of_text s
  float_of _ = none
