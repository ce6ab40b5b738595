-- ===== src/Validator/Coverage.antt =====
-- ValidateManifest against what it means for a field to be covered.
use mathlib.Core.Path.{subst}
use crossplane_update_tester.Base.{
  Text, Bool, true, false, not, ◌&&◌, List, [], ◌∷◌, is_empty, map, filter, any, any_iff, any-false,
  if◌then◌else◌, ◌==◌, ==_iff, list_eq, nat_eq, elem, elem_iff, lookup-insert, insert, sort, In,
  In-sort, In-filter, In-map, In-map_of, In-append_cases, In-append_left, In-append_right, ◌≡◌, ◌↔◌,
  ◌⊎◌, inl, inr, refl, sym, ap, ◌∙◌, Bool-cases, arith,
}
use crossplane_update_tester.Value.{Value}
use crossplane_update_tester.Manifest.{UpdateTest, Manifest, present}
use crossplane_update_tester.Runner.Field.{top_field}
use crossplane_update_tester.Validator.{
  FieldInfo, Status, Tested, cleared_names, credit_all, has_status, is_known, is_missing,
  is_reference_plumbing_field, is_top, known_names, names_of_fields, nested_tops, sibling_names,
  status_of_test, tested_from, tested_of, top_entries, unknown_fields, validate_manifest,
}

-- The name has a status in the map.
abbrev HasStatus : Text → Tested → Type 0
HasStatus k m = has_status k m ≡ true

HasStatus-insert :
    (k j : Text) (s : Status) (m : Tested) → HasStatus k (insert j s m) ↔ ((k ≡ j) ⊎ HasStatus k m)
HasStatus-insert k j s m = elim (Bool-cases (j == k)) [
  | inl same ↦
      rw (has_status, lookup-insert j k s m, same) (λ h. inl (sym ((==_iff j k).0 same)), λ h. refl)
  | inr other ↦
      rw (has_status, lookup-insert j k s m, other)
        (λ h. inr h, λ h. elim h [ inl e ↦ cc (other, (==_iff j k).1 (sym e)) | inr i ↦ i ])
]

HasStatus-credit_one :
    (k j : Text) (s : Status) (m : Tested)
    → HasStatus k (if has_status j m then m else insert j s m) ↔ ((k ≡ j) ⊎ HasStatus k m)
HasStatus-credit_one k j s m = elim (Bool-cases (has_status j m)) [
  | inl there ↦
      rw there
        (λ h. inr h, λ h. elim h [ inl e ↦ subst (λ x. HasStatus x m) (sym e) there | inr i ↦ i ])
  | inr absent ↦ rw absent (HasStatus-insert k j s m)
]

HasStatus-credit_all :
    (k : Text) (s : Status) (ks : List Text) (m : Tested)
    → HasStatus k (credit_all s ks m) ↔ (In k ks ⊎ HasStatus k m)
unfolding credit_all
HasStatus-credit_all k s [] m = (λ h. inr h, λ h. elim h [ inl i ↦ absurd i | inr i ↦ i ])
HasStatus-credit_all k s (j ∷ ks) m =
    let next = if has_status j m then m else insert j s m in
    let (there, back) = HasStatus-credit_all k s ks next in
    let (first, again) = HasStatus-credit_one k j s m in
    (
      λ h. elim (there h) [
        | inl i ↦ inl (inr i)
        | inr i ↦ elim (first i) [ inl e ↦ inl (inl e) | inr n ↦ inr n ]
      ],
      λ h. back (elim h [
        | inl i ↦ elim i [ inl e ↦ inr (again (inl e)) | inr n ↦ inl n ]
        | inr i ↦ inr (again (inr i))
      ]),
    )

abbrev fields_of : List UpdateTest → List Text
fields_of ts = map (λ (t : UpdateTest). t.field) ts

HasStatus-tested_from :
    (k : Text) (ts : List UpdateTest) (m : Tested)
    → HasStatus k (tested_from m ts) ↔ (In k (fields_of ts) ⊎ HasStatus k m)
unfolding tested_from
HasStatus-tested_from k [] m = (λ h. inr h, λ h. elim h [ inl i ↦ absurd i | inr i ↦ i ])
HasStatus-tested_from k (t ∷ ts) m =
    let next = insert t.field (status_of_test t) m in
    let (there, back) = HasStatus-tested_from k ts next in
    let (first, again) = HasStatus-insert k t.field (status_of_test t) m in
    (
      λ h. elim (there h) [
        | inl i ↦ inl (inr i)
        | inr i ↦ elim (first i) [ inl e ↦ inl (inl e) | inr n ↦ inr n ]
      ],
      λ h. back (elim h [
        | inl i ↦ elim i [ inl e ↦ inr (again (inl e)) | inr n ↦ inl n ]
        | inr i ↦ inr (again (inr i))
      ]),
    )

-- A test that runs names the field in clear:.
abbrev pub IsClearedIn : Text → UpdateTest → Type 0
IsClearedIn k t = (present t.skip ≡ false) × In k t.clear

-- The manifest covers the field: an entry tests or skips it or a field below it, or guards it, or a
-- test that runs clears it.
abbrev pub IsCovered : Manifest → Text → Type 0
IsCovered m k =
    ((t : UpdateTest) × In t m.tests × (top_field t.field ≡ k))
    ⊎ ((a : Text) × In a m.assert_unchanged × (top_field a ≡ k))
    ⊎ ((t : UpdateTest) × In t m.tests × IsClearedIn k t)

In-cleared_names :
    (k : Text) (ts : List UpdateTest)
    → In k (cleared_names ts) ↔ ((t : UpdateTest) × In t ts × IsClearedIn k t)
unfolding cleared_names
In-cleared_names k [] = (λ h. absurd h, λ h. absurd h.1)
In-cleared_names k (t ∷ ts) =
    let (there, back) = In-cleared_names k ts in
    elim (Bool-cases (present t.skip)) [
      | inl s ↦ rw s (
        λ h. let (u, i, c) = there h in (u, inr i, c),
        λ h. elim h.1 [
          | inl e ↦ cc (ap (λ (u : UpdateTest). present u.skip) e, s, h.2.0)
          | inr i ↦ back (h.0, i, h.2)
        ],
      )
      | inr n ↦ rw n (
        λ h. elim (In-append_cases k t.clear (cleared_names ts) h) [
          | inl i ↦ (t, inl refl, (n, i))
          | inr i ↦ let (u, j, c) = there i in (u, inr j, c)
        ],
        λ h. elim h.1 [
          | inl e ↦
              In-append_left k t.clear (cleared_names ts)
                (subst (λ (u : UpdateTest). In k u.clear) e h.2.1)
          | inr i ↦ In-append_right k t.clear (cleared_names ts) (back (h.0, i, h.2))
        ],
      )
    ]

In-known_names :
    (names ks : List Text) (k : Text)
    → In k (known_names names ks) ↔ (In k ks × (elem k names ≡ true))
In-known_names names ks k = In-filter (λ j. elem j names) k ks

-- The entries whose own field, or whose top-level segment, is a known name.
tests_of :
    (names : List Text) (ts : List UpdateTest) (k : Text)
    → elem k names ≡ true
    → (In k (nested_tops names ts) ⊎ In k (fields_of (top_entries names ts)))
      ↔ ((t : UpdateTest) × In t ts × (top_field t.field ≡ k))
tests_of names ts k known =
    let top = λ (t : UpdateTest). is_known names t && is_top t in
    let nested = λ (t : UpdateTest). is_known names t && not (is_top t) in
    (
      λ h. elim h [
        | inl i ↦
            let (t, j, e) = In-map (λ (t : UpdateTest). top_field t.field) k (filter nested ts) i in
            (t, ((In-filter nested t ts).0 j).0, sym e)
        | inr i ↦
            let (t, j, e) = In-map (λ (t : UpdateTest). t.field) k (filter top ts) i in
            let (l, p) = (In-filter top t ts).0 j in
            (t, l, (==_iff (top_field t.field) t.field).0 (ground (arith, p)) ∙ sym e)
      ],
      λ h.
          let t : UpdateTest = h.0 in
          let is_a_name : is_known names t ≡ true =
            subst (λ x. elem x names ≡ true) (sym h.2) known in
          elim (Bool-cases (is_top t)) [
            | inl y ↦ inr (
                subst (λ x. In x (fields_of (top_entries names ts)))
                  (sym ((==_iff (top_field t.field) t.field).0 y) ∙ h.2)
                  (In-map_of (λ (u : UpdateTest). u.field) t (filter top ts)
                    ((In-filter top t ts).1 (h.1, ground (arith, is_a_name, y)))))
            | inr n ↦ inl (
                subst (λ x. In x (nested_tops names ts)) h.2
                  (In-map_of (λ (u : UpdateTest). top_field u.field) t (filter nested ts)
                    ((In-filter nested t ts).1 (h.1, ground (arith, is_a_name, n)))))
          ],
    )

-- The map of the tested names has a status for exactly the known names that are covered.
HasStatus-tested_of :
    (names : List Text) (m : Manifest) (k : Text)
    → elem k names ≡ true
    → HasStatus k (tested_of names m) ↔ IsCovered m k
unfolding tested_of
HasStatus-tested_of names m k known =
    let first = tested_from [] (top_entries names m.tests) in
    let second = credit_all Status.covered_nested (nested_tops names m.tests) first in
    let guarded = known_names names (map top_field m.assert_unchanged) in
    let cleared = known_names names (cleared_names m.tests) in
    let third = credit_all Status.guarded_assert_unchanged guarded second in
    let entries = tests_of names m.tests k known in
    (
      λ h. elim ((HasStatus-credit_all k Status.cleared_by_sibling cleared third).0 h) [
        | inl i ↦ inr (inr ((In-cleared_names k m.tests).0 ((In-known_names names _ k).0 i).0))
        | inr i ↦
            elim ((HasStatus-credit_all k Status.guarded_assert_unchanged guarded second).0 i) [
              | inl j ↦
                  let (a, l, e) =
                    In-map top_field k m.assert_unchanged ((In-known_names names _ k).0 j).0 in
                  inr (inl (a, l, sym e))
              | inr j ↦
                  elim ((HasStatus-credit_all k Status.covered_nested (nested_tops names m.tests)
                      first).0
                    j) [
                      | inl l ↦ inl (entries.0 (inl l))
                      | inr l ↦
                          elim ((HasStatus-tested_from k (top_entries names m.tests) []).0 l) [
                            | inl n ↦ inl (entries.0 (inr n))
                            | inr n ↦ absurd (no_status k n)
                          ]
                    ]
            ]
      ],
      λ h. (HasStatus-credit_all k Status.cleared_by_sibling cleared third).1 (elim h [
        | inl t ↦ inr (
            (HasStatus-credit_all k Status.guarded_assert_unchanged guarded second).1 (
              inr (
                (HasStatus-credit_all k Status.covered_nested (nested_tops names m.tests) first).1
                  (elim (entries.1 t) [
                    | inl i ↦ inl i
                    | inr i ↦
                        inr ((HasStatus-tested_from k (top_entries names m.tests) []).1 (inl i))
                  ]))))
        | inr r ↦ elim r [
          | inl a ↦ inr (
              (HasStatus-credit_all k Status.guarded_assert_unchanged guarded second).1 (
                inl (
                  (In-known_names names _ k).1 (
                    subst (λ x. In x (map top_field m.assert_unchanged)) a.2
                        (In-map_of top_field a.0 m.assert_unchanged a.1),
                    known,
                  ))))
          | inr c ↦ inl ((In-known_names names _ k).1 ((In-cleared_names k m.tests).1 c, known))
        ]
      ]),
    )
  where
    no_status : (j : Text) → HasStatus j [] → ⊥
    no_status j n = cc

-- A filter that rejects keeps nothing when every element is accepted.
rejects_none :
    (p : Text → Bool) (ks : List Text)
    → (is_empty (filter (λ k. not (p k)) ks) ≡ true) ↔ ((k : Text) → In k ks → p k ≡ true)
rejects_none p [] = (λ h k i. absurd i, λ h. refl)
rejects_none p (k ∷ ks) =
    let (there, back) = rejects_none p ks in
    elim (Bool-cases (p k)) [
      | inl y ↦ rw y (
        λ h j i. elim i [ inl e ↦ ap p e ∙ y | inr l ↦ there h j l ],
        λ h. back (λ j i. h j (inr i)),
      )
      | inr n ↦ rw n (λ h. cc, λ h. cc (n, h k (inl refl)))
    ]

rejects_no_test :
    (names : List Text) (ts : List UpdateTest)
    → (is_empty (unknown_fields names ts) ≡ true)
      ↔ ((t : UpdateTest) → In t ts → In (top_field t.field) names)
rejects_no_test names [] = (λ h t i. absurd i, λ h. refl)
rejects_no_test names (t ∷ ts) =
    let (there, back) = rejects_no_test names ts in
    let (known, again) = elem_iff (top_field t.field) names in
    elim (Bool-cases (is_known names t)) [
      | inl y ↦ rw y (
        λ h u i. elim i [
          | inl e ↦ subst (λ (x : UpdateTest). In (top_field x.field) names) (sym e) (known y)
          | inr l ↦ there h u l
        ],
        λ h. back (λ u i. h u (inr i)),
      )
      | inr n ↦ rw n (λ h. cc, λ h. cc (n, again (h t (inl refl))))
    ]

-- A test that runs gives the name a value in withValues:.
abbrev pub IsSetIn : Text → UpdateTest → Type 0
IsSetIn k t = (present t.skip ≡ false) × In k (map (λ (e : Text × Value). e.0) t.with_values)

In-sibling_names :
    (k : Text) (ts : List UpdateTest)
    → In k (sibling_names ts) ↔ ((t : UpdateTest) × In t ts × IsSetIn k t)
unfolding sibling_names
In-sibling_names k [] = (λ h. absurd h, λ h. absurd h.1)
In-sibling_names k (t ∷ ts) =
    let (there, back) = In-sibling_names k ts in
    let own = map (λ (e : Text × Value). e.0) t.with_values in
    elim (Bool-cases (present t.skip)) [
      | inl s ↦ rw s (
        λ h. let (u, i, c) = there h in (u, inr i, c),
        λ h. elim h.1 [
          | inl e ↦ cc (ap (λ (u : UpdateTest). present u.skip) e, s, h.2.0)
          | inr i ↦ back (h.0, i, h.2)
        ],
      )
      | inr n ↦ rw n (
        λ h. elim (In-append_cases k (sort own) (sibling_names ts) h) [
          | inl i ↦ (t, inl refl, (n, (In-sort k own).0 i))
          | inr i ↦ let (u, j, c) = there i in (u, inr j, c)
        ],
        λ h. elim h.1 [
          | inl e ↦ In-append_left k (sort own) (sibling_names ts) (
              (In-sort k own).1 (
                subst (λ (u : UpdateTest). In k (map (λ (e : Text × Value). e.0) u.with_values)) e
                  h.2.1))
          | inr i ↦ In-append_right k (sort own) (sibling_names ts) (back (h.0, i, h.2))
        ],
      )
    ]

-- The field needs no entry, or has one.
abbrev pub IsSettled : Manifest → List FieldInfo → FieldInfo → Type 0
IsSettled m fs f =
    (f.immutable ≡ true)
    ⊎ (is_reference_plumbing_field f.json_name (names_of_fields fs) ≡ true)
    ⊎ IsCovered m f.json_name

IsSettled-iff :
    (m : Manifest) (fs : List FieldInfo) (f : FieldInfo)
    → In f fs
    → (is_missing (names_of_fields fs) (tested_of (names_of_fields fs) m) f ≡ false)
      ↔ IsSettled m fs f
IsSettled-iff m fs f i =
    let names = names_of_fields fs in
    let known =
      (elem_iff f.json_name names).1 (In-map_of (λ (g : FieldInfo). g.json_name) f fs i) in
    let (there, back) = HasStatus-tested_of names m f.json_name known in
    let plumbing = is_reference_plumbing_field f.json_name names in
    let status = has_status f.json_name (tested_of names m) in
    elim (Bool-cases f.immutable) [
      | inl a ↦ (λ h. inl a, λ h. ground (arith, a))
      | inr a ↦ elim (Bool-cases plumbing) [
        | inl b ↦ (λ h. inr (inl b), λ h. ground (arith, b))
        | inr b ↦ (
          λ h. inr (inr (there (ground (arith, h, a, b)))),
          λ h. elim h [
            | inl e ↦ cc (a, e)
            | inr k ↦ elim k [ inl e ↦ cc (b, e) | inr c ↦ ground (arith, back c) ]
          ],
        )
      ]
    ]

-- ValidateManifest finds all good exactly when every entry's field lies under a declared field, every
-- name that a test that runs clears or sets beside its own is declared, and every declared field is
-- immutable, or reference plumbing, or covered: an entry tests or skips it or a field below it, the
-- manifest guards it, or a test that runs clears it.
pub validate_manifest_iff :
    (m : Manifest) (fs : List FieldInfo)
    → ((validate_manifest m fs).all_good ≡ true) ↔ (
        ((t : UpdateTest) → In t m.tests → In (top_field t.field) (names_of_fields fs))
        × ((k : Text) (t : UpdateTest)
            → In t m.tests
            → IsClearedIn k t ⊎ IsSetIn k t
            → In k (names_of_fields fs))
        × ((f : FieldInfo) → In f fs → IsSettled m fs f))
unfolding validate_manifest
validate_manifest_iff m fs =
    let names = names_of_fields fs in
    let missing = is_missing names (tested_of names m) in
    let (f_there, f_back) = rejects_no_test names m.tests in
    let (c_there, c_back) = rejects_none (λ k. elem k names) (cleared_names m.tests) in
    let (s_there, s_back) = rejects_none (λ k. elem k names) (sibling_names m.tests) in
    (
      λ h. (
        f_there (ground (arith, h)),
        λ k t i c. (elem_iff k names).0 (elim c [
          | inl x ↦ c_there (ground (arith, h)) k ((In-cleared_names k m.tests).1 (t, i, x))
          | inr x ↦ s_there (ground (arith, h)) k ((In-sibling_names k m.tests).1 (t, i, x))
        ]),
        λ f i. (IsSettled-iff m fs f i).0 (any-false missing fs f i (ground (arith, h))),
      ),
      λ h.
          let a = f_back h.0 in
          let b = c_back (λ k i.
            let (t, j, x) = (In-cleared_names k m.tests).0 i in
            (elem_iff k names).1 (h.1 k t j (inl x))) in
          let c = s_back (λ k i.
            let (t, j, x) = (In-sibling_names k m.tests).0 i in
            (elem_iff k names).1 (h.1 k t j (inr x))) in
          let d : any missing fs ≡ false = elim (Bool-cases (any missing fs)) [
            | inr n ↦ n
            | inl y ↦
                let (f, i, e) = (any_iff missing fs).0 y in
                cc (e, (IsSettled-iff m fs f i).1 (h.2 f i))
          ] in
          ground (arith, a, b, c, d),
    )
