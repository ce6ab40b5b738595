-- ===== src/Json.antt =====
-- What the code takes from Go for decoded values: encoding/json, fmt's %v and reflect.DeepEqual.
-- The texts are parameters, a `Codec`; the equality and the writes on maps are defined here.
use crossplane_update_tester.Base.{
  Text, Bool, true, false, ◌&&◌, List, [], ◌∷◌, length, nat_beq, Option, none, some, lookup, filter,
  not, elem, ◌==◌, list_eq, nat_eq, ◌≡◌, refl, ap,
}
use crossplane_update_tester.Value.{
  Value, null, bool, num, str, arr, obj, Items, nil, cons, Fields, end, field, items, fields,
  bool_beq,
}

-- json.Marshal, json.Unmarshal into an `interface{}` and into a map[string]json.RawMessage,
-- json.Compact, and the %v of a value. `none` is an error.
pub record Codec : Type 0 where
  pub marshal : Value → Option Text
  pub unmarshal : Text → Option Value
  pub raw_object : Text → Option (List (Text × Text))
  pub compact : Text → Option Text
  pub print : Value → Text

abbrev pub to_fields : List (Text × Value) → Fields
to_fields [] = end
to_fields ((k, v) ∷ m) = field k v (to_fields m)

abbrev pub to_items : List Value → Items
to_items [] = nil
to_items (v ∷ vs) = cons v (to_items vs)

pub fields-to_fields : (m : List (Text × Value)) → fields (to_fields m) ≡ m
fields-to_fields [] = refl
fields-to_fields ((k, v) ∷ m) = ap (λ r. (k, v) ∷ r) (fields-to_fields m)

-- v.(map[string]interface{})
abbrev pub as_object : Value → Option (List (Text × Value))
as_object (obj fs) = some (fields fs)
as_object _ = none

-- A member of a map as a map, and as a string: v, _ := m[k].(T).
abbrev pub object_of : Option Value → Option (List (Text × Value))
object_of none = none
object_of (some v) = as_object v

abbrev pub string_of : Option Value → Text
string_of (some (str s)) = s
string_of _ = []

-- map[string]interface{} of the given entries
abbrev pub object : List (Text × Value) → Value
object m = obj (to_fields m)

unfoldable mutual
  -- reflect.DeepEqual: two maps are equal when they have as many keys and agree at each.
  pub deep_equal : Value → Value → Bool
  deep_equal null null = true
  deep_equal (bool a) (bool b) = bool_beq a b
  deep_equal (num a) (num b) = a == b
  deep_equal (str a) (str b) = a == b
  deep_equal (arr vs) (arr ws) = items_equal vs (items ws)
  deep_equal (obj fs) (obj gs) =
      nat_beq (length (fields fs)) (length (fields gs)) && fields_within fs (fields gs)
  deep_equal _ _ = false

  items_equal : Items → List Value → Bool
  items_equal nil [] = true
  items_equal (cons v vs) (w ∷ ws) = deep_equal v w && items_equal vs ws
  items_equal _ _ = false

  fields_within : Fields → List (Text × Value) → Bool
  fields_within end gs = true
  fields_within (field k v fs) gs = elim (lookup k gs) [
    | none ↦ false
    | some w ↦ deep_equal v w && fields_within fs gs
  ]

-- delete(m, k) for each of the keys
abbrev pub without : List Text → List (Text × Value) → List (Text × Value)
without keys m = filter (λ e. not (elem e.0 keys)) m
