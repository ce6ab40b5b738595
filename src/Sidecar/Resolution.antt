-- ===== src/Sidecar/Resolution.antt =====
-- What a selector that resolves is known to select, and what Resolve then assigns.
use mathlib.Core.Path.{subst}
use crossplane_update_tester.Base.{
  ℕ, Text, Bool, true, false, ◌&&◌, ◌||◌, List, [], ◌∷◌, is_empty, is_empty_iff, list_eq, nat_eq,
  filter, length, get_elem?, In-range_from, Result, ok, ok_eq, In, In-filter, ◌≡◌, ◌≢◌, ◌↔◌, ◌⊎◌,
  inl, inr, refl, ap, sym, ◌∙◌, arith, Bool-cases, Option-cases,
}
use crossplane_update_tester.Sidecar.{
  ObjectId, Doc, ConflictError, all_indices, stays_at, filter_candidates, check_minimal, narrow,
  choose, resolve_one,
}
use crossplane_update_tester.Sidecar.Unique.{IsOnly, IsOnly-iff}

-- Exactly one target, the one at `i`, has the kind of `d`, and the name and the namespace where
-- these are not empty.
abbrev pub Selects : Doc → List ObjectId → Text → Text → ℕ → Type 0
Selects d targets name namespace i =
    IsOnly (stays_at targets name namespace d.api_version d.kind) (length targets) i

filter-filter :
    (p q : ℕ → Bool) (xs : List ℕ)
    → ((x : ℕ) → q x ≡ true → p x ≡ true)
    → filter q (filter p xs) ≡ filter q xs
filter-filter p q [] h = refl
filter-filter p q (x ∷ xs) h = ground (arith, h x, filter-filter p q xs h)

stays_at-weaker :
    (targets : List ObjectId) (name namespace api_version kind : Text) (i : ℕ)
    → stays_at targets name namespace api_version kind i ≡ true
    → stays_at targets [] [] api_version kind i ≡ true
stays_at-weaker targets name namespace api_version kind i =
    elim (Option-cases (get_elem? targets i)) [
      | inl e ↦ rw (stays_at, e) (λ h. cc)
      | inr (t, e) ↦ rw (stays_at, e) (λ h. ground arith)
    ]

-- Filtering the candidates of the kind again is filtering all the targets.
again :
    (d : Doc) (targets : List ObjectId) (name namespace : Text)
    → filter_candidates targets
        (filter_candidates targets (all_indices (length targets)) [] [] d.api_version d.kind)
        name
        namespace
        d.api_version
        d.kind
      ≡ filter_candidates targets (all_indices (length targets)) name namespace d.api_version d.kind
unfolding filter_candidates
again d targets name namespace =
    filter-filter _ _ _ (stays_at-weaker targets name namespace d.api_version d.kind)

abbrev candidates : Doc → List ObjectId → Text → Text → List ℕ
candidates d targets name namespace =
    filter_candidates targets (all_indices (length targets)) name namespace d.api_version d.kind

length_one_iff : (xs : List ℕ) → (nat_eq.beq (length xs) 1 ≡ true) ↔ ((i : ℕ) × (xs ≡ i ∷ []))
length_one_iff [] = (λ h. ground arith, λ (i, h). cc)
length_one_iff (x ∷ []) = (λ h. (x, refl), λ h. refl)
length_one_iff (x ∷ y ∷ xs) = (λ h. ground arith, λ (i, h). cc)

Selects-iff :
    (d : Doc) (targets : List ObjectId) (name namespace : Text) (i : ℕ)
    → (candidates d targets name namespace ≡ i ∷ []) ↔ Selects d targets name namespace i
unfolding filter_candidates
Selects-iff d targets name namespace i = IsOnly-iff _ (length targets) i

-- No shorter selector of `d` selects one target.
pub record IsShortest (d : Doc) (targets : List ObjectId) : Type 0 where
  pub kind_alone : (j : ℕ) → Selects d targets [] [] j → (d.name ≡ []) × (d.namespace ≡ [])
  pub name_alone : (j : ℕ) → Selects d targets d.name [] j → (d.name ≡ []) ⊎ (d.namespace ≡ [])
  pub namespace_alone :
      (j : ℕ) → Selects d targets [] d.namespace j → (d.name ≡ []) ⊎ (d.namespace ≡ [])

Selects-kind :
    (d : Doc) (targets : List ObjectId) (i : ℕ)
    → Selects d targets d.name d.namespace i
    → candidates d targets [] [] ≢ []
unfolding filter_candidates
Selects-kind d targets i s h = absurd (
    subst (In i) h (
      (In-filter (stays_at targets [] [] d.api_version d.kind) i _).1 (
        In-range_from 0 (length targets) i (omega arith) (omega (arith, s.0)),
        stays_at-weaker targets d.name d.namespace d.api_version d.kind i s.1,
      )))

module _ (d : Doc) (targets : List ObjectId) (i : ℕ) where
  abbrev Chosen : Type 0
  Chosen = Selects d targets d.name d.namespace i × IsShortest d targets

  abbrev one_left : Text → Text → Bool
  one_left name namespace = nat_eq.beq (length (candidates d targets name namespace)) 1

  check_minimal_iff :
      (kinds : List ℕ) (j : ℕ)
      → ((name namespace : Text)
          → filter_candidates targets kinds name namespace d.api_version d.kind
            ≡ candidates d targets name namespace)
      → ((k : ℕ) → ¬ Selects d targets [] [] k)
      → candidates d targets d.name d.namespace ≡ j ∷ []
      → (check_minimal d targets kinds j ≡ ok i) ↔ Chosen
  check_minimal_iff kinds j filtered several one =
      elim (Bool-cases (is_empty d.name || is_empty d.namespace)) [
        | inl e ↦ rw e (good (λ k s. either e) (λ k s. either e))
        | inr e ↦
            rw (e, filtered d.name [], filtered [] d.namespace)
              (elim (Bool-cases (one_left d.name [])) [
                | inl n ↦ rw n (
                  λ h. cc,
                  λ (s, m).
                      let (k, c) = (length_one_iff _).0 n in
                      absurd (neither e (m.name_alone k ((Selects-iff d targets d.name [] k).0 c))),
                )
                | inr n ↦ rw n (elim (Bool-cases (one_left [] d.namespace)) [
                  | inl m ↦ rw m (
                    λ h. cc,
                    λ (s, w).
                        let (k, c) = (length_one_iff _).0 m in
                        absurd (
                          neither e
                            (w.namespace_alone k ((Selects-iff d targets [] d.namespace k).0 c))),
                  )
                  | inr m ↦ rw m (
                      good (λ k s. absurd (more d.name [] k n s))
                        (λ k s. absurd (more [] d.namespace k m s)))
                ])
              ])
      ]
    where
      either : (is_empty d.name || is_empty d.namespace) ≡ true → (d.name ≡ []) ⊎ (d.namespace ≡ [])
      either e = ground (arith, is_empty_iff d.name, is_empty_iff d.namespace)

      neither :
          (is_empty d.name || is_empty d.namespace) ≡ false → ¬ ((d.name ≡ []) ⊎ (d.namespace ≡ []))
      neither e h = ground (arith, is_empty_iff d.name, is_empty_iff d.namespace)

      more :
          (name namespace : Text) (k : ℕ)
          → one_left name namespace ≡ false
          → ¬ Selects d targets name namespace k
      more name namespace k n s =
          let t =
            (length_one_iff (candidates d targets name namespace)).1
              (k, (Selects-iff d targets name namespace k).1 s) in
          cc

      good :
          ((k : ℕ) → Selects d targets d.name [] k → (d.name ≡ []) ⊎ (d.namespace ≡ []))
          → ((k : ℕ) → Selects d targets [] d.namespace k → (d.name ≡ []) ⊎ (d.namespace ≡ []))
          → (◌≡◌ {A = Result ConflictError ℕ} (ok j) (ok i)) ↔ Chosen
      good na nsa = (
        λ h. (
          (Selects-iff d targets d.name d.namespace i).0 (one ∙ ap (λ k. k ∷ []) (ok_eq h)),
          record {
            kind_alone = λ k s. absurd (several k s);
            name_alone = na;
            namespace_alone = nsa;
          },
        ),
        λ (s, m). let c = (Selects-iff d targets d.name d.namespace i).1 s in cc,
      )

  -- The list that is matched on, as the candidates that it is.
  narrow_iff :
      (kinds matched : List ℕ)
      → ((name namespace : Text)
          → filter_candidates targets kinds name namespace d.api_version d.kind
            ≡ candidates d targets name namespace)
      → ((k : ℕ) → ¬ Selects d targets [] [] k)
      → candidates d targets d.name d.namespace ≡ matched
      → (narrow d targets kinds matched ≡ ok i) ↔ Chosen
  narrow_iff kinds [] filtered several same =
      (λ h. cc, λ (s, m). let c = (Selects-iff d targets d.name d.namespace i).1 s in cc)
  narrow_iff kinds (j ∷ []) filtered several same = check_minimal_iff kinds j filtered several same
  narrow_iff kinds (j ∷ k ∷ r) filtered several same =
      (λ h. cc, λ (s, m). let c = (Selects-iff d targets d.name d.namespace i).1 s in cc)

  choose_iff :
      (kinds : List ℕ)
      → candidates d targets [] [] ≡ kinds
      → (choose d targets kinds ≡ ok i) ↔ Chosen
  choose_iff [] same = (λ h. cc, λ (s, m). absurd (Selects-kind d targets i s same))
  choose_iff (j ∷ []) same = elim (Bool-cases (is_empty d.name && is_empty d.namespace)) [
    | inl e ↦
        let n : d.name ≡ [] = ground (arith, is_empty_iff d.name) in
        let ns : d.namespace ≡ [] = ground (arith, is_empty_iff d.namespace) in
        rw e (
          λ h. (
            subst (λ a. Selects d targets a d.namespace i) (sym n)
                (subst (λ b. Selects d targets [] b i) (sym ns)
                  ((Selects-iff d targets [] [] i).0 (same ∙ ap (λ k. k ∷ []) (ok_eq h)))),
            record {
              kind_alone = λ k s. (n, ns);
              name_alone = λ k s. inl n;
              namespace_alone = λ k s. inl n;
            },
          ),
          λ (s, m).
              let s' = subst (λ a. Selects d targets a d.namespace i) n s in
              let c =
                (Selects-iff d targets [] [] i).1 (subst (λ b. Selects d targets [] b i) ns s') in
              cc,
        )
    | inr e ↦ rw e (
      λ h. cc,
      λ (s, m).
          let (n, ns) = m.kind_alone j ((Selects-iff d targets [] [] j).0 same) in
          ground (arith, is_empty_iff d.name, is_empty_iff d.namespace),
    )
  ]
  choose_iff (j ∷ k ∷ r) same = elim (Bool-cases (is_empty d.name && is_empty d.namespace)) [
    | inl e ↦
        let n : d.name ≡ [] = ground (arith, is_empty_iff d.name) in
        let ns : d.namespace ≡ [] = ground (arith, is_empty_iff d.namespace) in
        rw e (
          λ h. cc,
          λ (s, m).
              let s' = subst (λ a. Selects d targets a d.namespace i) n s in
              absurd (several i (subst (λ b. Selects d targets [] b i) ns s')),
        )
    | inr e ↦ rw e (narrow_iff (j ∷ k ∷ r) _ filtered several (sym (filtered d.name d.namespace)))
  ]
    where
      several : (l : ℕ) → ¬ Selects d targets [] [] l
      several l s = let c = (Selects-iff d targets [] [] l).1 s in cc

      filtered :
          (name namespace : Text)
          → filter_candidates targets (j ∷ k ∷ r) name namespace d.api_version d.kind
            ≡ candidates d targets name namespace
      filtered name namespace =
          ap (λ c. filter_candidates targets c name namespace d.api_version d.kind) (sym same)
          ∙ again d targets name namespace

-- resolveOne gives `i` exactly when the target at `i` is the only one that has the kind of the
-- document and the name and namespace that it gives, and no shorter selector of the document is
-- enough: the kind alone is not where a name or a namespace is given, and where both are given
-- neither of them is enough alone. In every other case it gives an error.
pub resolve_one_iff :
    (d : Doc) (targets : List ObjectId) (i : ℕ)
    → (resolve_one d targets ≡ ok i)
      ↔ (Selects d targets d.name d.namespace i × IsShortest d targets)
unfolding resolve_one
resolve_one_iff d targets i = choose_iff d targets i _ refl
