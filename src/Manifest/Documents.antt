-- ===== src/Manifest/Documents.antt =====
-- parseDocs of internal/manifest/manifest.go: the documents of a manifest file, the sidecar merged
-- onto them, the one that is selected, and the Manifest that it becomes.
pub mod Merging
use crossplane_update_tester.Base.{
  ℕ, suc, Text, text, Bool, true, false, not, ◌&&◌, ◌||◌, List, [], ◌∷◌, is_empty, map, Option,
  none, some, if◌then◌else◌, ◌==◌, list_eq, nat_eq, lookup, Result, ok, err, then_do,
}
use crossplane_update_tester.Value.{Value}
use crossplane_update_tester.Manifest.{Error, Manifest}
use crossplane_update_tester.Manifest.Directives.{Yaml, parse_ready_conditions}
use crossplane_update_tester.Manifest.Annotation.{Annotation, parse_annotation}
use crossplane_update_tester.Sidecar.{
  ObjectId, File, ConflictError, merge_into, or_empty, resolve, path_for,
}

-- manifestDoc
pub record ManifestDoc : Type 0 where
  pub api_version : Text
  pub kind : Text
  pub name : Text
  pub namespace : Text
  pub annotations : List (Text × Text)
  pub for_provider : List (Text × Value)

pub data DocError : Type 0 where
  missing_api_version_or_kind missing_name bad_yaml : DocError
  unresolved : ConflictError → DocError
  inline_with_sidecar : Text → Text → Text → DocError
  bad_annotation : Error → DocError

abbrev pub annotation_key : Text
annotation_key = text "crossplane.io/update-test"

abbrev pub expect_external_name_prefix_key : Text
expect_external_name_prefix_key = text "crossplane.io/expect-external-name-prefix"

abbrev pub ready_conditions_key : Text
ready_conditions_key = text "uptest.upbound.io/conditions"

abbrev pub owned_sidecar_keys : List Text
owned_sidecar_keys = annotation_key ∷ expect_external_name_prefix_key ∷ ready_conditions_key ∷ []

abbrev pub is_some : Option Text → Bool
is_some none = false
is_some (some v) = true

-- _, ok := annotations[key]
abbrev pub has_key : Text → List (Text × Text) → Bool
has_key k m = is_some (lookup k m)

-- The documents that the YAML decoder gives in turn, up to its first error.
unfoldable pub decode_manifest_docs : List (Option ManifestDoc) → Result DocError (List ManifestDoc)
decode_manifest_docs [] = ok []
decode_manifest_docs (none ∷ rest) = err bad_yaml
decode_manifest_docs (some d ∷ rest) =
    then_do (decode_manifest_docs rest)
      λ ds. ok (if is_empty d.api_version || is_empty d.kind then ds else d ∷ ds)

abbrev pub target_of : ManifestDoc → ObjectId
target_of d = record {
  api_version = d.api_version;
  kind = d.kind;
  namespace = d.namespace;
  name = d.name;
}

-- The first of the keys that the annotations hold.
unfoldable pub inline_key : List Text → List (Text × Text) → Option Text
unfolding lookup
inline_key [] m = none
inline_key (k ∷ ks) m = if has_key k m then some k else inline_key ks m

abbrev pub refuse_inline :
    Text → Option Text → Result DocError (List ManifestDoc) → Result DocError (List ManifestDoc)
refuse_inline path none r = r
refuse_inline path (some k) r = err (inline_with_sidecar path k (path_for path))

-- The loop over the documents, from index `i` on.
unfoldable pub merge_docs :
    Text → List (ℕ × List (Text × Text)) → ℕ → List ManifestDoc → Result DocError (List ManifestDoc)
unfolding inline_key merge_into lookup
merge_docs path resolved i [] = ok []
merge_docs path resolved i (d ∷ ds) =
    refuse_inline path (inline_key owned_sidecar_keys d.annotations) (
      then_do (merge_docs path resolved (suc i) ds) λ merged. ok (
        record d { annotations = merge_into (or_empty (lookup i resolved)) d.annotations }
        ∷ merged))

abbrev pub or_unresolved :
    Result ConflictError (List (ℕ × List (Text × Text)))
    → Result DocError (List (ℕ × List (Text × Text)))
or_unresolved (ok out) = ok out
or_unresolved (err e) = err (unresolved e)

unfoldable pub merge_sidecar_docs :
    List ManifestDoc → Option File → Text → Result DocError (List ManifestDoc)
unfolding merge_docs resolve
merge_sidecar_docs docs none path = ok docs
merge_sidecar_docs docs (some f) path =
    then_do (or_unresolved (resolve (some f) (map target_of docs)))
      λ resolved. merge_docs path resolved 0 docs

-- The first document with the annotation, else `first`.
unfoldable pub select_doc : ManifestDoc → List ManifestDoc → ManifestDoc
unfolding lookup
select_doc first [] = first
select_doc first (d ∷ ds) = if has_key annotation_key d.annotations then d else select_doc first ds

-- doc.Metadata.Annotations[key], empty where the key is missing
abbrev pub value_at : Option Text → Text
value_at none = []
value_at (some v) = v

abbrev pub base_manifest : ManifestDoc → Manifest
base_manifest d = record {
  api_version = d.api_version;
  kind = d.kind;
  name = d.name;
  namespace = d.namespace;
  tests = [];
  converge_skip = [];
  expect_external_name_prefix = value_at (lookup expect_external_name_prefix_key d.annotations);
  assert_unchanged = [];
  ignore_fields = [];
  for_provider = d.for_provider;
  path = [];
  ready_conditions = parse_ready_conditions (value_at (lookup ready_conditions_key d.annotations));
}

abbrev pub with_annotation : Manifest → Result Error Annotation → Result DocError Manifest
with_annotation m (err e) = err (bad_annotation e)
with_annotation m (ok a) = ok (record m {
  tests = a.tests;
  converge_skip = a.converge_skip;
  assert_unchanged = a.assert_unchanged;
  ignore_fields = a.ignore_fields;
})

module _ (yaml : Yaml) where
  abbrev pub annotated : Manifest → Option Text → Result DocError Manifest
  annotated m none = ok m
  annotated m (some raw) = with_annotation m (parse_annotation yaml raw)

  unfoldable pub manifest_from_doc : ManifestDoc → Result DocError Manifest
  unfolding lookup parse_ready_conditions parse_annotation
  manifest_from_doc d =
      if is_empty d.name
      then err missing_name
      else annotated (base_manifest d) (lookup annotation_key d.annotations)

  abbrev pub select_from : List ManifestDoc → Result DocError Manifest
  select_from [] = err missing_api_version_or_kind
  select_from (d ∷ ds) = manifest_from_doc (select_doc d (d ∷ ds))

  -- docs[0] is there: an empty list is refused before the merge, which keeps the length.
  unfoldable pub parse_docs :
      List (Option ManifestDoc) → Option File → Text → Result DocError Manifest
  unfolding decode_manifest_docs merge_sidecar_docs select_doc manifest_from_doc
  parse_docs decoded sc path = then_do (decode_manifest_docs decoded) λ docs.
      if is_empty docs
      then err missing_api_version_or_kind
      else then_do (merge_sidecar_docs docs sc path) select_from
