-- ===== src/Sidecar.antt =====
-- sidecar/sidecar.go: the documents of a sidecar, their selectors, and the objects they resolve to.
pub mod Document
pub mod Unique
pub mod Resolution
pub mod Conflicts
pub mod Scope
pub mod Assignment
use crossplane_update_tester.Base.{
  ℕ, suc, Text, text, Bool, true, false, not, ◌&&◌, ◌||◌, List, [], ◌∷◌, ◌++◌, is_empty, map,
  Option, none, some, if◌then◌else◌, ◌==◌, list_eq, nat_eq, elem, filter, length, get_elem?,
  range_from, has_suffix, last_index, take, drop, ◌-◌, Result, ok, err, then_do, lookup, insert,
  sort, join,
}

pub record ObjectId : Type 0 where
  pub api_version : Text
  pub kind : Text
  pub namespace : Text
  pub name : Text

pub record Doc : Type 0 where
  pub for_value : Text
  pub api_version : Text
  pub kind : Text
  pub name : Text
  pub namespace : Text
  pub annotations : List (Text × Text)

pub record File : Type 0 where
  pub docs : List Doc

-- The errors of Conflicts and Resolve, with what their messages name.
pub data ConflictError : Type 0 where
  duplicate_selector : Text → Text → Text → ConflictError
  no_object : Text → Text → ConflictError
  redundant_narrowing : Text → ConflictError
  ambiguous still_ambiguous : Text → Text → ConflictError
  no_narrowed_object : Text → Text → Text → ConflictError
  redundant_namespace redundant_name : Text → Text → Text → ConflictError
  same_object : Doc → Doc → Text → ConflictError

abbrev pub slash : ℕ
slash = 47

unfoldable pub path_for : Text → Text
path_for manifest_path = manifest_path ++ text ".uptest"

-- Both splits cut at the last "/".
unfoldable pub split_last_slash : Text → Option (Text × Text)
unfolding last_index
split_last_slash raw = elim (last_index slash raw) [
  | none ↦ none
  | some i ↦ some (take i raw, drop (suc i) raw)
]

abbrev pub selector_key : Doc → Text
selector_key d = d.for_value ++ (0 ∷ (d.name ++ (0 ∷ d.namespace)))

unfoldable pub find_duplicate : List Text → List Doc → Option ConflictError
find_duplicate seen [] = none
find_duplicate seen (d ∷ ds) =
    if elem (selector_key d) seen
    then some (duplicate_selector d.for_value d.name d.namespace)
    else find_duplicate (selector_key d ∷ seen) ds

unfoldable pub conflicts : Option File → Option ConflictError
conflicts none = none
conflicts (some f) = find_duplicate [] f.docs

abbrev pub all_indices : ℕ → List ℕ
all_indices n = range_from 0 n

-- One round of filterCandidates: whether target `i` stays.
abbrev pub stays : Text → Text → Text → Text → ObjectId → Bool
stays name namespace api_version kind t =
    t.api_version == api_version
    && t.kind == kind
    && (is_empty name || t.name == name)
    && (is_empty namespace || t.namespace == namespace)

abbrev pub stays_at : List ObjectId → Text → Text → Text → Text → ℕ → Bool
stays_at targets name namespace api_version kind i = elim (get_elem? targets i) [
  | none ↦ false
  | some t ↦ stays name namespace api_version kind t
]

unfoldable pub filter_candidates : List ObjectId → List ℕ → Text → Text → Text → Text → List ℕ
filter_candidates targets candidates name namespace api_version kind =
    filter (stays_at targets name namespace api_version kind) candidates

abbrev pub describe_target : ObjectId → Text
describe_target t = if is_empty t.namespace then t.name else t.namespace ++ slash ∷ t.name

abbrev pub describe_at : List ObjectId → ℕ → Text
describe_at targets i = elim (get_elem? targets i) [ none ↦ [] | some t ↦ describe_target t ]

unfoldable pub describe_candidates : List ObjectId → List ℕ → Text
unfolding sort join
describe_candidates targets idx = join (text ", ") (sort (map (describe_at targets) idx))

abbrev pub cluster_group_suffix : Text
cluster_group_suffix = text ".crossplane.io"

abbrev pub namespaced_group_suffix : Text
namespaced_group_suffix = text ".m.crossplane.io"

-- strings.TrimSuffix, where the suffix is there
abbrev pub without_last : ℕ → Text → Text
without_last n s = take (length s - n) s

unfoldable pub alternate_scope_group : Text → Option Text
unfolding has_suffix
alternate_scope_group group =
    if has_suffix group namespaced_group_suffix
    then some (without_last (length namespaced_group_suffix) group ++ cluster_group_suffix)
    else if has_suffix group cluster_group_suffix
    then some (without_last (length cluster_group_suffix) group ++ namespaced_group_suffix)
    else none

abbrev pub has_variant : Text → Text → List ObjectId → Bool
has_variant kind api_version [] = false
has_variant kind api_version (t ∷ ts) =
    (t.kind == kind && t.api_version == api_version) || has_variant kind api_version ts

-- The apiVersion that the hint names, or the empty text where there is no hint.
unfoldable pub scope_hint : Doc → List ObjectId → Text
unfolding split_last_slash alternate_scope_group
scope_hint d targets = elim (split_last_slash d.api_version) [
  | none ↦ []
  | some (group, version) ↦ elim (alternate_scope_group group) [
    | none ↦ []
    | some alt ↦
        if has_variant d.kind (alt ++ slash ∷ version) targets then alt ++ slash ∷ version else []
  ]
]

module _ (d : Doc) (targets : List ObjectId) where
  -- The last checks of resolveOne, where one candidate is left.
  abbrev pub check_minimal : List ℕ → ℕ → Result ConflictError ℕ
  check_minimal by_gvk i =
      if is_empty d.name || is_empty d.namespace
      then ok i
      else if nat_eq.beq (length (filter_candidates targets by_gvk d.name [] d.api_version d.kind))
          1
      then err (redundant_namespace d.for_value d.name d.namespace)
      else if nat_eq.beq
          (length (filter_candidates targets by_gvk [] d.namespace d.api_version d.kind)) 1
      then err (redundant_name d.for_value d.name d.namespace)
      else ok i

  abbrev pub narrow : List ℕ → List ℕ → Result ConflictError ℕ
  narrow by_gvk [] = err (no_narrowed_object d.for_value d.name d.namespace)
  narrow by_gvk (i ∷ []) = check_minimal by_gvk i
  narrow by_gvk matched = err (still_ambiguous d.for_value (describe_candidates targets matched))

  abbrev pub choose : List ℕ → Result ConflictError ℕ
  choose [] = err (no_object d.for_value (scope_hint d targets))
  choose (i ∷ []) =
      if is_empty d.name && is_empty d.namespace
      then ok i
      else err (redundant_narrowing d.for_value)
  choose by_gvk =
      if is_empty d.name && is_empty d.namespace
      then err (ambiguous d.for_value (describe_candidates targets by_gvk))
      else narrow by_gvk (filter_candidates targets by_gvk d.name d.namespace d.api_version d.kind)

  unfoldable pub resolve_one : Result ConflictError ℕ
  resolve_one =
      choose (filter_candidates targets (all_indices (length targets)) [] [] d.api_version d.kind)

-- for k, v := range annotations { into[k] = v }
unfoldable pub merge_into : List (Text × Text) → List (Text × Text) → List (Text × Text)
unfolding insert
merge_into [] into = into
merge_into ((k, v) ∷ rest) into = insert k v (merge_into rest into)

abbrev pub or_empty : Option (List (Text × Text)) → List (Text × Text)
or_empty none = []
or_empty (some m) = m

-- if prior, claimed := claimedBy[idx]; claimed { return nil, ... }
abbrev pub unclaimed :
    {A : Type 0}
    → Option Doc
    → (Doc → ConflictError)
    → Result ConflictError A
    → Result ConflictError A
unclaimed none f r = r
unclaimed (some prior) f r = err (f prior)

module _ (targets : List ObjectId) where
  unfoldable pub resolve_docs :
      List (ℕ × Doc)
      → List (ℕ × List (Text × Text))
      → List Doc
      → Result ConflictError (List (ℕ × List (Text × Text)))
  unfolding lookup insert
  resolve_docs claimed out [] = ok out
  resolve_docs claimed out (d ∷ ds) = then_do (resolve_one d targets) λ i.
      unclaimed (lookup i claimed)
        (λ prior. same_object prior d (describe_candidates targets (i ∷ [])))
        (resolve_docs (insert i d claimed)
          (insert i (merge_into d.annotations (or_empty (lookup i out))) out) ds)

-- A nil file gives the nil map, in which every index is missing.
unfoldable pub resolve :
    Option File → List ObjectId → Result ConflictError (List (ℕ × List (Text × Text)))
unfolding resolve_docs
resolve none targets = ok []
resolve (some f) targets = resolve_docs targets [] [] f.docs
