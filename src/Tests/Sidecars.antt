-- ===== src/Tests/Sidecars.antt =====
-- A sidecar beside a manifest with two objects.
use Prim.Native.String.{String}
use crossplane_update_tester.Base.{
  ℕ, text, List, [], ◌∷◌, none, some, ok, ◌≡◌, ◌≢◌, ◌↔◌, refl, All, lookup, insert, contains_byte,
  last_index, list_eq, nat_eq,
}
use crossplane_update_tester.Sidecar.{
  ObjectId, Doc, File, filter_candidates, resolve_one, resolve_docs, resolve, merge_into, conflicts,
  split_last_slash,
}
use crossplane_update_tester.Sidecar.Resolution.{Selects, IsShortest, resolve_one_iff}
use crossplane_update_tester.Sidecar.Assignment.{Assigned, IsAssigned, resolve-IsAssigned}
use crossplane_update_tester.Sidecar.Conflicts.{AreDistinct, conflicts_iff}
use crossplane_update_tester.Sidecar.Document.{
  Node, document, mapping, scalar, nil, cons, YamlNodes, doc_from_node, read_keys, read_key,
  store_for, render_value,
}
use crossplane_update_tester.Sidecar.Document.Laws.{IsCut, IsPlainText, doc_from_node_sound}

abbrev instance_id : ObjectId
instance_id = record {
  api_version = text "rds.crossplane.io/v1";
  kind = text "Instance";
  namespace = [];
  name = text "db";
}

abbrev secret_id : ObjectId
secret_id = record {
  api_version = text "v1";
  kind = text "Secret";
  namespace = text "ns";
  name = text "db";
}

abbrev pub targets : List ObjectId
targets = secret_id ∷ instance_id ∷ []

abbrev wanted : Doc
wanted = record {
  for_value = text "rds.crossplane.io/v1/Instance";
  api_version = text "rds.crossplane.io/v1";
  kind = text "Instance";
  name = [];
  namespace = [];
  annotations = (text "a/b", text "1200") ∷ [];
}

abbrev pub file : File
file = record { docs = wanted ∷ [] }

abbrev pub assigned : Assigned
assigned = (1, (text "a/b", text "1200") ∷ []) ∷ []

resolve_one_iff_example :
    (resolve_one wanted targets ≡ ok 1)
    ↔ (Selects wanted targets [] [] 1 × IsShortest wanted targets)
resolve_one_iff_example = resolve_one_iff wanted targets 1

resolve-IsAssigned_example :
    IsAssigned targets assigned file.docs
    × ((i : ℕ) → All (λ d. resolve_one d targets ≢ ok i) file.docs → lookup i assigned ≡ none)
unfolding resolve resolve_docs resolve_one filter_candidates merge_into lookup insert
resolve-IsAssigned_example = resolve-IsAssigned file targets assigned refl

conflicts_iff_example : (conflicts (some file) ≡ none) ↔ AreDistinct file.docs
unfolding contains_byte
conflicts_iff_example = conflicts_iff file ((refl, refl), tt)

abbrev nodes : YamlNodes
nodes = record { marshal = λ n. none; decode = λ t. [] }

abbrev string : String → Node
string s = scalar (text "!!str") (text s)

abbrev node : Node
node = document (
    cons
      (mapping (text "!!map") (
        cons (string "for") (
          cons (string "rds.crossplane.io/v1/Instance")
            (cons (string "a/b") (cons (string "1200") nil)))))
      nil)

doc_from_node_sound_example : IsCut wanted × IsPlainText wanted
unfolding doc_from_node read_keys read_key store_for split_last_slash last_index contains_byte
    render_value insert
doc_from_node_sound_example = doc_from_node_sound nodes node wanted refl
