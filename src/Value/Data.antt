-- ===== src/Value/Data.antt =====
-- The JSON values that messages carry, and the conversions that the program applies to them: truth
-- value, str(), int(), bool(), dict(), list(). A float is its integral part (none for nan and the
-- infinities) and its repr. In `repr` every character above 0x7f counts as printable.
use ker_mp.Prelude.{
  Bool, List, Option, String, [], false, if◌then◌else◌, none, not, some, text_eq, true, ◌||◌, ◌∷◌,
}
use ker_mp.Prelude.Dict.{Dict, get}
use ker_mp.Prelude.Int.{eq_ℤ, pos, ℤ}

mutual
  pub data Value : Type 0 where
    null : Value
    bool : Bool → Value
    int : ℤ → Value
    float : Option ℤ → String → Value
    string : String → Value
    arr : Items → Value
    obj : Fields → Value

  pub data Fields : Type 0 where
    end : Fields
    field : String → Value → Fields → Fields

  pub data Items : Type 0 where
    nil : Items
    cons : Value → Items → Items

-- A payload: a dict from names to values.
abbrev pub Payload : Type 0
Payload = Dict Value

abbrev pub to_fields : Payload → Fields
to_fields [] = end
to_fields ((k, v) ∷ d) = field k v (to_fields d)

abbrev pub of_fields : Fields → Payload
of_fields end = []
of_fields (field k v d) = (k, v) ∷ of_fields d

abbrev pub of_items : Items → List Value
of_items nil = []
of_items (cons v xs) = v ∷ of_items xs

abbrev pub to_items : List Value → Items
to_items [] = nil
to_items (v ∷ xs) = cons v (to_items xs)

-- bool(v), and the truth value that `if`, `or` and `not` read
unfoldable pub truthy : Value → Bool
truthy null = false
truthy (bool b) = b
truthy (int z) = not (eq_ℤ z (pos 0))
truthy (float z r) = not (text_eq r "0.0" || text_eq r "-0.0")
truthy (string s) = not (text_eq s "")
truthy (arr nil) = false
truthy (arr (cons v xs)) = true
truthy (obj end) = false
truthy (obj (field k v d)) = true

-- payload.get(k), with None for a missing key
unfoldable pub get_value : String → Payload → Value
get_value k d = elim (get k d) [ none ↦ null | some v ↦ v ]

-- a or b
unfoldable pub or_else : Value → Value → Value
or_else a b = if truthy a then a else b
