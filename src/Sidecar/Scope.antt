-- ===== src/Sidecar/Scope.antt =====
-- The two API groups of one resource family.
use mathlib.Core.List.{reverse, reverse-append}
use crossplane_update_tester.Base.{
  Text, true, false, [], ◌∷◌, ◌++◌, some, length, length-append, has_prefix, has_suffix, take,
  list_eq, nat_eq, ==_refl, ◌≡◌, refl, ap, ◌∙◌, arith,
}
use crossplane_update_tester.Sidecar.{
  cluster_group_suffix, namespaced_group_suffix, without_last, alternate_scope_group,
}

take-append : (s t : Text) → take (length s) (s ++ t) ≡ s
take-append [] t = refl
take-append (c ∷ s) t = ap (λ x. c ∷ x) (take-append s t)

without_last-append : (s t : Text) → without_last (length t) (s ++ t) ≡ s
without_last-append s t =
    ap (λ n. take n (s ++ t)) (omega (arith, length-append s t)) ∙ take-append s t

has_prefix-append : (s t : Text) → has_prefix (s ++ t) s ≡ true
unfolding has_prefix
has_prefix-append [] [] = refl
has_prefix-append [] (c ∷ t) = refl
has_prefix-append (c ∷ s) t = ground (arith, ==_refl c, has_prefix-append s t)

has_suffix-append : (s t : Text) → has_suffix (s ++ t) t ≡ true
unfolding has_suffix
has_suffix-append s t = rw (reverse-append s t) (has_prefix-append (reverse t) (reverse s))

-- The group of a cluster-scoped kind and that of its namespaced sibling are each the other's
-- alternate: for every stem, where stem ++ ".crossplane.io" does not itself end in
-- ".m.crossplane.io".
pub alternate_scope_group-pair :
    (stem : Text)
    → has_suffix (stem ++ cluster_group_suffix) namespaced_group_suffix ≡ false
    → (alternate_scope_group (stem ++ cluster_group_suffix)
        ≡ some (stem ++ namespaced_group_suffix))
      × (alternate_scope_group (stem ++ namespaced_group_suffix)
          ≡ some (stem ++ cluster_group_suffix))
unfolding alternate_scope_group
alternate_scope_group-pair stem plain = (
  rw (plain, has_suffix-append stem cluster_group_suffix)
      (ap (λ s. some (s ++ namespaced_group_suffix))
        (without_last-append stem cluster_group_suffix)),
  rw (has_suffix-append stem namespaced_group_suffix) (
      ap (λ s. some (s ++ cluster_group_suffix))
        (without_last-append stem namespaced_group_suffix)),
)
