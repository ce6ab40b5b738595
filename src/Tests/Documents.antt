-- ===== src/Tests/Documents.antt =====
-- The two documents of a manifest beside a sidecar.
use crossplane_update_tester.Base.{
  Text, text, List, [], ◌∷◌, Option, none, some, ok, ◌≡◌, refl, map, lookup, insert, list_eq,
  nat_eq, split, trim_space, trim_left, trim_right,
}
use crossplane_update_tester.Manifest.{Manifest}
use crossplane_update_tester.Manifest.Directives.{Yaml, parse_ready_conditions, trimmed_names}
use crossplane_update_tester.Manifest.Documents.{
  ManifestDoc, target_of, inline_key, decode_manifest_docs, merge_docs, merge_sidecar_docs,
  select_doc, manifest_from_doc, parse_docs,
}
use crossplane_update_tester.Manifest.Documents.Merging.{
  AreMerged, merge_sidecar_docs-AreMerged, IsSelected, parse_docs-selects,
}
use crossplane_update_tester.Sidecar.{
  resolve, resolve_docs, resolve_one, filter_candidates, merge_into,
}
use crossplane_update_tester.Sidecar.Assignment.{Assigned}
use crossplane_update_tester.Tests.Sidecars.{file}

abbrev secret : ManifestDoc
secret = record {
  api_version = text "v1";
  kind = text "Secret";
  name = text "db";
  namespace = text "ns";
  annotations = [];
  for_provider = [];
}

abbrev instance_doc : ManifestDoc
instance_doc = record secret {
  api_version = text "rds.crossplane.io/v1";
  kind = text "Instance";
  namespace = [];
}

abbrev merged_doc : ManifestDoc
merged_doc = record instance_doc { annotations = (text "a/b", text "1200") ∷ [] }

abbrev path : Text
path = text "examples/db.yaml"

merge_sidecar_docs-AreMerged_example :
    (out : Assigned) × (resolve (some file) (map target_of (secret ∷ instance_doc ∷ [])) ≡ ok out)
    × AreMerged out 0 (secret ∷ instance_doc ∷ []) (secret ∷ merged_doc ∷ [])
unfolding merge_sidecar_docs merge_docs inline_key resolve resolve_docs resolve_one
    filter_candidates merge_into lookup insert
merge_sidecar_docs-AreMerged_example =
    merge_sidecar_docs-AreMerged (secret ∷ instance_doc ∷ []) file path (secret ∷ merged_doc ∷ [])
      refl

abbrev no_yaml : Yaml
no_yaml = record { unmarshal_map = λ t. none; unmarshal_tests = λ t. none }

abbrev decoded : List (Option ManifestDoc)
decoded = some secret ∷ some instance_doc ∷ []

abbrev expected : Manifest
expected = record {
  api_version = text "v1";
  kind = text "Secret";
  name = text "db";
  namespace = text "ns";
  tests = [];
  converge_skip = [];
  expect_external_name_prefix = [];
  assert_unchanged = [];
  ignore_fields = [];
  for_provider = [];
  path = [];
  ready_conditions = [];
}

parse_docs-selects_example :
    (docs : List ManifestDoc) × (merged : List ManifestDoc) × (d : ManifestDoc)
    × (decode_manifest_docs decoded ≡ ok docs)
    × (merge_sidecar_docs docs (some file) path ≡ ok merged)
    × IsSelected d merged
    × (manifest_from_doc no_yaml d ≡ ok expected)
unfolding parse_docs decode_manifest_docs merge_sidecar_docs merge_docs inline_key resolve
    resolve_docs resolve_one filter_candidates merge_into lookup insert select_doc manifest_from_doc
    parse_ready_conditions trimmed_names split trim_space trim_left trim_right
parse_docs-selects_example = parse_docs-selects no_yaml decoded (some file) path expected refl
