-- ===== src/Sidecar/Document.antt =====
-- docFromNode and Parse of sidecar/sidecar.go, over the nodes of the YAML library.
pub mod Laws
use crossplane_update_tester.Base.{
  ℕ, Text, text, Bool, true, false, not, ◌&&◌, List, [], ◌∷◌, is_empty, Option, none, some,
  if◌then◌else◌, ◌==◌, list_eq, nat_eq, contains, contains_byte, trim_right, insert, Result, ok,
  err, then_do, unless,
}
use crossplane_update_tester.Sidecar.{Doc, File, ConflictError, slash, split_last_slash, conflicts}

-- yaml.Node; the content of a mapping is its keys and values in turn.
mutual
  pub data Node : Type 0 where
    document : Nodes → Node
    sequence : Text → Nodes → Node
    mapping : Text → Nodes → Node
    scalar : Text → Text → Node
    alias : Text → Node

  pub data Nodes : Type 0 where
    nil : Nodes
    cons : Node → Nodes → Nodes

-- A node's Value field is empty but for a scalar and the name of an alias.
abbrev pub value_of : Node → Text
value_of (scalar tag v) = v
value_of (alias v) = v
value_of _ = []

abbrev pub tag_of : Node → Text
tag_of (sequence tag c) = tag
tag_of (mapping tag c) = tag
tag_of (scalar tag v) = tag
tag_of _ = []

pub data ParseError : Type 0 where
  bad_yaml malformed missing_for bad_for_value : ParseError
  not_a_mapping bad_for not_a_scalar unknown_directive rendering : Text → ParseError
  templated : Text → Text → ParseError
  conflict : ConflictError → ParseError

-- The calls of gopkg.in/yaml.v3: what Marshal writes for a node, and what the calls of a Decoder's
-- Decode give in turn, up to the end of the input.
pub record YamlNodes : Type 0 where
  pub marshal : Node → Option Text
  pub decode : Text → List (Result ParseError Node)

abbrev pub key_for : Text
key_for = text "for"

abbrev pub key_name : Text
key_name = text "name"

abbrev pub key_namespace : Text
key_namespace = text "namespace"

abbrev pub checked_value : Text → Text → Result ParseError Text
checked_value directive v = if contains v (text "${") then err (templated directive v) else ok v

unfoldable pub narrowing_value : Text → Node → Result ParseError Text
unfolding contains
narrowing_value directive (scalar tag v) = checked_value directive v
narrowing_value directive _ = err (not_a_scalar directive)

-- The for: value of a scalar that is not empty.
abbrev pub for_of : Node → Option Text
for_of (scalar tag v) = if is_empty v then none else some v
for_of _ = none

-- The document so far, and whether a for: has been seen.
pub record Draft : Type 0 where
  pub doc : Doc
  pub for_seen : Bool

unfoldable pub store_for : Node → Draft → Result ParseError Draft
unfolding split_last_slash
store_for v s = elim (for_of v) [
  | none ↦ err bad_for_value
  | some raw ↦ elim (split_last_slash raw) [
    | none ↦ err (bad_for raw)
    | some (api_version, kind) ↦ ok (record s {
      doc = record s.doc { for_value = raw; api_version = api_version; kind = kind };
      for_seen = true;
    })
  ]
]

abbrev pub empty_draft : Draft
empty_draft = record {
  doc = record {
    for_value = [];
    api_version = [];
    kind = [];
    name = [];
    namespace = [];
    annotations = [];
  };
  for_seen = false;
}

abbrev pub finish_doc : Draft → Result ParseError (Option Doc)
finish_doc s = if s.for_seen then ok (some s.doc) else err missing_for

abbrev pub keep_doc : Option Doc → List Doc → List Doc
keep_doc none ds = ds
keep_doc (some d) ds = d ∷ ds

abbrev pub as_conflict : Option ConflictError → Option ParseError
as_conflict none = none
as_conflict (some e) = some (conflict e)

abbrev pub marshalled : Option Text → Option Text
marshalled none = none
marshalled (some out) = some (trim_right (λ c. c == 10) out)

-- fmt.Errorf("rendering %s: %w", key, err)
abbrev pub or_rendering : Text → Option Text → Result ParseError Text
or_rendering key none = err (rendering key)
or_rendering key (some v) = ok v

module _ (yaml : YamlNodes) where
  unfoldable pub render_value : Node → Option Text
  unfolding trim_right
  render_value (scalar tag v) = some v
  render_value n = marshalled (yaml.marshal n)

  -- One key of the mapping.
  unfoldable pub read_key : Text → Node → Draft → Result ParseError Draft
  unfolding narrowing_value store_for contains_byte render_value insert
  read_key key v s =
      if key == key_for
      then store_for v s
      else if key == key_name
      then then_do (narrowing_value key_name v)
          (λ x. ok (record s { doc = record s.doc { name = x } }))
      else if key == key_namespace
      then then_do (narrowing_value key_namespace v)
          (λ x. ok (record s { doc = record s.doc { namespace = x } }))
      else if not (contains_byte slash key)
      then err (unknown_directive key)
      else then_do (or_rendering key (render_value v)) (λ x.
        ok (record s { doc = record s.doc { annotations = insert key x s.doc.annotations } }))

  unfoldable pub read_keys : Nodes → Draft → Result ParseError Draft
  unfolding read_key
  read_keys nil s = ok s
  read_keys (cons k nil) s = ok s
  read_keys (cons k (cons v rest)) s = then_do (read_key (value_of k) v s) (λ t. read_keys rest t)

  abbrev pub doc_of_root : Node → Result ParseError (Option Doc)
  doc_of_root (mapping tag content) = then_do (read_keys content empty_draft) finish_doc
  doc_of_root (scalar tag v) = if tag == text "!!null" then ok none else err (not_a_mapping tag)
  doc_of_root n = err (not_a_mapping (tag_of n))

  unfoldable pub doc_from_node : Node → Result ParseError (Option Doc)
  unfolding read_keys
  doc_from_node (document (cons root nil)) = doc_of_root root
  doc_from_node _ = err malformed

  unfoldable pub docs_from_nodes : List (Result ParseError Node) → Result ParseError (List Doc)
  unfolding doc_from_node
  docs_from_nodes [] = ok []
  docs_from_nodes (err e ∷ rest) = err e
  docs_from_nodes (ok n ∷ rest) =
      then_do (doc_from_node n) λ d. then_do (docs_from_nodes rest) λ ds. ok (keep_doc d ds)

  unfoldable pub parse : Text → Result ParseError File
  unfolding docs_from_nodes conflicts
  parse data_ = then_do (docs_from_nodes (yaml.decode data_)) λ docs.
      unless (as_conflict (conflicts (some (record { docs = docs })))) (ok (record { docs = docs }))
