-- ===== src/Value.antt =====
-- Decoded JSON and YAML values, Go's `interface{}` over map[string]interface{}, []interface{} and
-- scalars. A number stands by the canonical text of its value, so that equal numbers are one value.
use crossplane_update_tester.Base.{Text, Bool, true, false, List, [], ◌∷◌, list_eq, nat_eq}

mutual
  pub data Value : Type 0 where
    null : Value
    bool : Bool → Value
    num : Text → Value
    str : Text → Value
    arr : Items → Value
    obj : Fields → Value

  pub data Items : Type 0 where
    nil : Items
    cons : Value → Items → Items

  pub data Fields : Type 0 where
    end : Fields
    field : Text → Value → Fields → Fields

abbrev pub items : Items → List Value
items nil = []
items (cons v vs) = v ∷ items vs

abbrev pub fields : Fields → List (Text × Value)
fields end = []
fields (field k v fs) = (k, v) ∷ fields fs

abbrev pub bool_beq : Bool → Bool → Bool
bool_beq true b = b
bool_beq false true = false
bool_beq false false = true
