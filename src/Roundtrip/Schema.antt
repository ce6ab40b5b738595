-- ===== src/Roundtrip/Schema.antt =====
-- internal/roundtrip/roundtrip.go, immutable.go and containerclear.go: the fields that a CRD's schema
-- declares, and the report that compares them with a live object.
pub mod Report
use crossplane_update_tester.Base.{
  ℕ, Text, text, Bool, true, false, not, ◌&&◌, ◌||◌, List, [], ◌∷◌, ◌++◌, is_empty, map, any,
  filter, Option, none, some, if◌then◌else◌, nat_beq, ◌==◌, list_eq, nat_eq, elem, lookup,
  has_prefix, sort, sort_by, split, Result, ok, err, then_do,
}
use crossplane_update_tester.Value.{Value, null, bool, str, arr, obj, Fields, end, field, fields}
use crossplane_update_tester.Json.{as_object, object_of, string_of}
use crossplane_update_tester.Manifest.Entries.{as_list}
use crossplane_update_tester.Roundtrip.Cell.{Classification, Row, Shape}
use crossplane_update_tester.Roundtrip.Clearing.{ContainerLeaf, is_some}

abbrev pub Node : Type 0
Node = List (Text × Value)

abbrev pub list_of : Option Value → List Value
list_of none = []
list_of (some v) = elim (as_list v) [ none ↦ [] | some vs ↦ vs ]

abbrev pub is_true : Option Value → Bool
is_true (some (bool b)) = b
is_true _ = false

-- \s of Go's regular expressions
abbrev pub is_white : ℕ → Bool
is_white c = nat_beq c 9 || (nat_beq c 10 || (nat_beq c 12 || (nat_beq c 13 || nat_beq c b' ')))

unfoldable pub skip_white : Text → Text
skip_white [] = []
skip_white (c ∷ s) = if is_white c then skip_white s else c ∷ s

unfoldable pub drop_prefix : Text → Text → Option Text
drop_prefix s [] = some s
drop_prefix [] (p ∷ ps) = none
drop_prefix (c ∷ s) (p ∷ ps) = if nat_beq c p then drop_prefix s ps else none

abbrev pub then_equals : Option Text → Bool
then_equals none = false
then_equals (some s) = elim (drop_prefix (skip_white s) (text "==")) [
  | none ↦ false
  | some r ↦ has_prefix (skip_white r) (text "oldSelf")
]

-- self\s*==\s*oldSelf, somewhere in the rule
unfoldable pub is_immutable_rule : Text → Bool
unfolding skip_white drop_prefix has_prefix
is_immutable_rule [] = false
is_immutable_rule (c ∷ s) = then_equals (drop_prefix (c ∷ s) (text "self")) || is_immutable_rule s

abbrev pub has_immutable_rule : Option Node → Bool
has_immutable_rule none = false
has_immutable_rule (some m) = is_immutable_rule (string_of (lookup (text "rule") m))

unfoldable pub node_has_immutable_marker : Node → Bool
unfolding lookup is_immutable_rule
node_has_immutable_marker m =
    any (λ v. has_immutable_rule (as_object v))
      (list_of (lookup (text "x-kubernetes-validations") m))

abbrev pub child_path : Text → Text → Text
child_path prefix name = if is_empty prefix then name else prefix ++ (b'.' ∷ name)

abbrev pub joined : {X : Type 0} → List (Text × List X) → List X
joined [] = []
joined ((k, xs) ∷ rest) = xs ++ joined rest

-- The results of the properties, in the order of their names.
abbrev pub in_name_order : {X : Type 0} → List (Text × List X) → List X
in_name_order children = joined (sort_by (λ e. e.0) children)

-- An object with properties has those below it, and another node is a leaf.
abbrev pub children_or : {X : Type 0} → Node → List X → Option (List (Text × List X)) → List X
children_or m own none = own
children_or m own (some []) = own
children_or m own (some (c ∷ cs)) =
    if string_of (lookup (text "type") m) == text "object" then in_name_order (c ∷ cs) else own

-- The recursion that leafPaths, collectImmutablePaths and collectContainerLeaves share: `marks` is what
-- a node hands down, and `leaf` what a node without properties adds.
module _ {X : Type 0} (marks : Node → Bool) (leaf : Text → Bool → Value → List X) where
  unfoldable mutual
    pub visit : Value → Text → Bool → List X
    visit (obj fs) prefix inherited =
        children_or (fields fs) (leaf prefix (inherited || marks (fields fs)) (obj fs))
          (visit_properties fs prefix (inherited || marks (fields fs)))
    visit v prefix inherited = leaf prefix inherited v

    -- The value of the key `properties`, if it is an object.
    visit_properties : Fields → Text → Bool → Option (List (Text × List X))
    visit_properties end prefix inherited = none
    visit_properties (field k v fs) prefix inherited =
        if k == text "properties"
        then visit_object v prefix inherited
        else visit_properties fs prefix inherited

    visit_object : Value → Text → Bool → Option (List (Text × List X))
    visit_object (obj gs) prefix inherited = some (visit_each gs prefix inherited)
    visit_object v prefix inherited = none

    visit_each : Fields → Text → Bool → List (Text × List X)
    visit_each end prefix inherited = []
    visit_each (field k v fs) prefix inherited =
        (k, visit v (child_path prefix k) inherited) ∷ visit_each fs prefix inherited

abbrev pub no_marks : Node → Bool
no_marks m = false

abbrev pub own_path : Text → Bool → Value → List Text
own_path prefix inherited v = if is_empty prefix then [] else prefix ∷ []

abbrev pub marked_path : Text → Bool → Value → List Text
marked_path prefix inherited v =
    if is_empty prefix then [] else if inherited then prefix ∷ [] else []

abbrev pub shape_of_node : Node → Option Shape
shape_of_node m =
    if string_of (lookup (text "type") m) == text "array"
    then some Shape.list
    else if string_of (lookup (text "type") m) == text "object"
        && (is_some (lookup (text "additionalProperties") m)
            || is_true (lookup (text "x-kubernetes-preserve-unknown-fields") m))
    then some Shape.map_shape
    else none

abbrev pub leaf_of_shape : Text → Option Shape → List ContainerLeaf
leaf_of_shape prefix none = []
leaf_of_shape prefix (some shape) = record { path = prefix; shape = shape } ∷ []

abbrev pub shape_of_schema : Option Node → Option Shape
shape_of_schema none = none
shape_of_schema (some m) = shape_of_node m

abbrev pub container_at : Text → Bool → Value → List ContainerLeaf
container_at prefix inherited v =
    if is_empty prefix then [] else leaf_of_shape prefix (shape_of_schema (as_object v))

-- leafPaths, immutablePaths and collectContainerLeaves, from the root
abbrev pub leaf_paths : Value → List Text
leaf_paths schema = visit no_marks own_path schema [] false

abbrev pub immutable_paths : Value → List Text
immutable_paths schema = visit node_has_immutable_marker marked_path schema [] false

abbrev pub container_leaves : Value → List ContainerLeaf
container_leaves schema = visit no_marks container_at schema [] false

pub data SchemaError : Type 0 where
  no_spec no_versions version_not_an_object no_schema no_open_api_schema : SchemaError
  no_properties field_not_found : Text → SchemaError

abbrev pub schema_of : Node → Result SchemaError Value
schema_of version = elim (object_of (lookup (text "schema") version)) [
  | none ↦ err SchemaError.no_schema
  | some schema ↦ elim (lookup (text "openAPIV3Schema") schema) [
    | some (obj fs) ↦ ok (obj fs)
    | other ↦ err SchemaError.no_open_api_schema
  ]
]

abbrev pub served_version : Value → Option Node
served_version v = elim (as_object v) [
  | none ↦ none
  | some m ↦ if is_true (lookup (text "served") m) then some m else none
]

abbrev pub first_some : Option Node → Option Node → Option Node
first_some (some a) d = some a
first_some none d = d

-- The first version that is served.
abbrev pub first_served : List Value → Option Node
first_served [] = none
first_served (v ∷ vs) = first_some (served_version v) (first_served vs)

abbrev pub schema_of_first : List Value → Result SchemaError Value
schema_of_first [] = err SchemaError.no_versions
schema_of_first (v ∷ vs) = elim (first_served (v ∷ vs)) [
  | some m ↦ schema_of m
  | none ↦ elim (as_object v) [
    | none ↦ err SchemaError.version_not_an_object
    | some m ↦ schema_of m
  ]
]

-- servedSchema
unfoldable pub served_schema : Node → Result SchemaError Value
unfolding lookup
served_schema crd = elim (object_of (lookup (text "spec") crd)) [
  | none ↦ err SchemaError.no_spec
  | some spec ↦ schema_of_first (list_of (lookup (text "versions") spec))
]

abbrev pub property_at : Text → Option Node → Result SchemaError Value
property_at name none = err (SchemaError.no_properties name)
property_at name (some props) = elim (lookup name props) [
  | some (obj fs) ↦ ok (obj fs)
  | other ↦ err (SchemaError.field_not_found name)
]

abbrev pub properties_of : Value → Option Node
properties_of schema = elim (as_object schema) [
  | none ↦ none
  | some m ↦ object_of (lookup (text "properties") m)
]

-- fieldSchema
unfoldable pub field_schema : List Text → Value → Result SchemaError Value
unfolding lookup
field_schema [] schema = ok schema
field_schema (p ∷ ps) schema =
    then_do (property_at p (properties_of schema)) (λ next. field_schema ps next)

-- DeclaredContainerLeaves
unfoldable pub declared_container_leaves : Node → Result SchemaError (List ContainerLeaf)
unfolding served_schema field_schema visit sort_by
declared_container_leaves crd = then_do (served_schema crd) (λ schema.
    then_do (field_schema (text "spec" ∷ text "forProvider" ∷ []) schema)
      (λ fp. ok (sort_by (λ l. l.path) (container_leaves fp))))
