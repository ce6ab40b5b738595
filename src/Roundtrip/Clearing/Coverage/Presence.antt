-- ===== src/Roundtrip/Clearing/Coverage/Presence.antt =====
-- What setAtPath writes, presentAtPath finds.
use crossplane_update_tester.Base.{
  Text, true, List, [], ◌∷◌, list_eq, nat_eq, lookup-insert_self, split, split-ne-nil, ◌≡◌, refl,
  is_empty, false,
}
use crossplane_update_tester.Value.{Value}
use crossplane_update_tester.Json.{object, fields-to_fields}
use crossplane_update_tester.Roundtrip.Clearing.Coverage.{
  object_at, or_new, present_under, set_under, present_at_path, set_at_path,
}

pub present_under-set_under :
    (segs : List Text) (v : Value) (m : List (Text × Value))
    → is_empty segs ≡ false
    → present_under segs (set_under segs v m) ≡ true
unfolding present_under set_under
present_under-set_under [] v m h = cc
present_under-set_under (seg ∷ []) v m h = rw (lookup-insert_self seg v m) refl
present_under-set_under (seg ∷ next ∷ segs) v m h =
    let inner = set_under (next ∷ segs) v (or_new (object_at seg m)) in
    rw (present_under, lookup-insert_self seg (object inner) m, fields-to_fields inner)
      (present_under-set_under (next ∷ segs) v (or_new (object_at seg m)) refl)

-- A value that setAtPath writes is present at its path, whatever the tree held before.
pub present_at_path-set_at_path :
    (tree : List (Text × Value)) (dotted : Text) (v : Value)
    → present_at_path (set_at_path tree dotted v) dotted ≡ true
present_at_path-set_at_path tree dotted v =
    present_under-set_under (split b'.' dotted) v tree (split-ne-nil b'.' dotted)
