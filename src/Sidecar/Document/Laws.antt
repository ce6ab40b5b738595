-- ===== src/Sidecar/Document/Laws.antt =====
-- What a document of a sidecar that is accepted looks like.
use mathlib.Core.Path.{subst}
use crossplane_update_tester.Base.{
  suc, Text, text, true, false, ◌∷◌, ◌++◌, some, ◌==◌, list_eq, nat_eq, contains, contains_byte,
  take, drop, last_index, last_index-some, All, All-insert, ok, then_do-ok, ok_eq, some_eq, ◌≡◌,
  inl, inr, refl, Bool-cases, Option-cases,
}
use crossplane_update_tester.Sidecar.{Doc, slash, split_last_slash}
use crossplane_update_tester.Sidecar.Document.{
  Node, Nodes, document, mapping, scalar, sequence, alias, nil, cons, value_of, YamlNodes, key_for,
  key_name, key_namespace, checked_value, narrowing_value, for_of, Draft, store_for, render_value,
  or_rendering, read_key, read_keys, empty_draft, finish_doc, doc_of_root, doc_from_node,
}

-- The for: value is the apiVersion, a slash and a kind without a slash.
pub record IsCut (d : Doc) : Type 0 where
  pub parts : d.for_value ≡ d.api_version ++ slash ∷ d.kind
  pub last_slash : contains_byte slash d.kind ≡ false

-- Name and namespace carry no placeholder, and every annotation has a key with a slash.
pub record IsPlainText (d : Doc) : Type 0 where
  pub name : contains d.name (text "${") ≡ false
  pub namespace : contains d.namespace (text "${") ≡ false
  pub annotations : All (λ (e : Text × Text). contains_byte slash e.0 ≡ true) d.annotations

record IsSound (s : Draft) : Type 0 where
  cut : s.for_seen ≡ true → IsCut s.doc
  plain : IsPlainText s.doc

split_last_slash-some :
    (raw group version : Text)
    → split_last_slash raw ≡ some (group, version)
    → (raw ≡ group ++ slash ∷ version) × (contains_byte slash version ≡ false)
unfolding split_last_slash
split_last_slash-some raw group version = elim (Option-cases (last_index slash raw)) [
  | inl e ↦ rw (split_last_slash, e) (λ h. cc)
  | inr (i, e) ↦
      rw (split_last_slash, e)
        (λ h.
          let p : take i raw ≡ group = cc in
          let q : drop (suc i) raw ≡ version = cc in rw (← p, ← q) (last_index-some slash raw i e))
]

checked_value-ok :
    (directive v : Text) {x : Text}
    → checked_value directive v ≡ ok x
    → contains x (text "${") ≡ false
checked_value-ok directive v {x} = elim (Bool-cases (contains v (text "${"))) [
  | inl t ↦ rw t (λ h. cc)
  | inr f ↦ rw f (λ h. rw (← ok_eq h) f)
]

narrowing_value-ok :
    (directive : Text) (n : Node) {x : Text}
    → narrowing_value directive n ≡ ok x
    → contains x (text "${") ≡ false
unfolding narrowing_value
narrowing_value-ok directive (scalar tag v) h = checked_value-ok directive v h
narrowing_value-ok directive n h = cc

store_for-IsSound :
    (v : Node) (s : Draft) {t : Draft} → store_for v s ≡ ok t → IsSound s → IsSound t
unfolding store_for
store_for-IsSound v s = elim (Option-cases (for_of v)) [
  | inl e ↦ rw (store_for, e) (λ h. cc)
  | inr (raw, e) ↦
      rw (store_for, e)
        (elim (Option-cases (split_last_slash raw)) [
          | inl f ↦ rw f (λ h. cc)
          | inr ((group, version), f) ↦ rw f (λ h i.
              let (p, q) = split_last_slash-some raw group version f in
              subst IsSound (ok_eq h) (record {
                cut = λ seen. record { parts = p; last_slash = q };
                plain = record {
                  name = i.plain.name;
                  namespace = i.plain.namespace;
                  annotations = i.plain.annotations;
                };
              }))
        ])
]

module _ (yaml : YamlNodes) where
  read_key-IsSound :
      (key : Text) (v : Node) (s : Draft) {t : Draft}
      → read_key yaml key v s ≡ ok t
      → IsSound s
      → IsSound t
  unfolding read_key
  read_key-IsSound key v s = elim (Bool-cases (key == key_for)) [
    | inl f ↦ rw f (store_for-IsSound v s)
    | inr f ↦ rw f (elim (Bool-cases (key == key_name)) [
      | inl n ↦ rw n (λ h i.
          let (x, ok_x, h₁) = then_do-ok (narrowing_value key_name v) _ h in
          subst IsSound (ok_eq h₁) (record {
            cut =
                λ seen. record { parts = (i.cut seen).parts; last_slash = (i.cut seen).last_slash };
            plain = record {
              name = narrowing_value-ok key_name v ok_x;
              namespace = i.plain.namespace;
              annotations = i.plain.annotations;
            };
          }))
      | inr n ↦ rw n (elim (Bool-cases (key == key_namespace)) [
        | inl m ↦ rw m (λ h i.
            let (x, ok_x, h₁) = then_do-ok (narrowing_value key_namespace v) _ h in
            subst IsSound (ok_eq h₁) (record {
              cut = λ seen. record {
                parts = (i.cut seen).parts;
                last_slash = (i.cut seen).last_slash;
              };
              plain = record {
                name = i.plain.name;
                namespace = narrowing_value-ok key_namespace v ok_x;
                annotations = i.plain.annotations;
              };
            }))
        | inr m ↦ rw m (elim (Bool-cases (contains_byte slash key)) [
          | inr b ↦ rw b (λ h. cc)
          | inl b ↦ rw b (λ h i.
              let (x, ok_x, h₁) = then_do-ok (or_rendering key (render_value yaml v)) _ h in
              subst IsSound (ok_eq h₁) (record {
                cut = λ seen. record {
                  parts = (i.cut seen).parts;
                  last_slash = (i.cut seen).last_slash;
                };
                plain = record {
                  name = i.plain.name;
                  namespace = i.plain.namespace;
                  annotations = All-insert _ key x s.doc.annotations b i.plain.annotations;
                };
              }))
        ])
      ])
    ])
  ]

  read_keys-IsSound :
      (n : Nodes) (s : Draft) {t : Draft} → read_keys yaml n s ≡ ok t → IsSound s → IsSound t
  unfolding read_keys
  read_keys-IsSound nil s h i = subst IsSound (ok_eq h) i
  read_keys-IsSound (cons k nil) s h i = subst IsSound (ok_eq h) i
  read_keys-IsSound (cons k (cons v rest)) s h i =
      let (t, one, h₁) = then_do-ok (read_key yaml (value_of k) v s) _ h in
      read_keys-IsSound rest t h₁ (read_key-IsSound (value_of k) v s one i)

  empty-IsSound : IsSound empty_draft
  unfolding contains
  empty-IsSound = record {
    cut = λ seen. cc;
    plain = record { name = refl; namespace = refl; annotations = tt };
  }

  finish_doc_sound :
      (s : Draft) (d : Doc) → IsSound s → finish_doc s ≡ ok (some d) → IsCut d × IsPlainText d
  finish_doc_sound s d i = elim (Bool-cases s.for_seen) [
    | inl t ↦ rw t (λ h.
        let e : s.doc ≡ d = some_eq (ok_eq h) in
        (subst IsCut e (i.cut t), subst IsPlainText e i.plain))
    | inr f ↦ rw f (λ h. cc)
  ]

  doc_of_root_sound :
      (root : Node) (d : Doc) → doc_of_root yaml root ≡ ok (some d) → IsCut d × IsPlainText d
  doc_of_root_sound (mapping tag content) d = λ h.
      let (s, read, h₁) = then_do-ok (read_keys yaml content empty_draft) _ h in
      finish_doc_sound s d (read_keys-IsSound content empty_draft read empty-IsSound) h₁
  doc_of_root_sound (scalar tag v) d = elim (Bool-cases (tag == text "!!null")) [
    | inl t ↦ rw t (λ h. cc)
    | inr f ↦ rw f (λ h. cc)
  ]
  doc_of_root_sound (document c) d = λ h. cc
  doc_of_root_sound (sequence tag c) d = λ h. cc
  doc_of_root_sound (alias v) d = λ h. cc

  -- A document that docFromNode accepts and that is not blank has a for: value, which is its
  -- apiVersion, a slash and its kind, where the kind holds no slash; its name and its namespace hold
  -- no "${"; and every key among its annotations holds a slash.
  pub doc_from_node_sound :
      (n : Node) (d : Doc) → doc_from_node yaml n ≡ ok (some d) → IsCut d × IsPlainText d
  unfolding doc_from_node
  doc_from_node_sound (document (cons root nil)) d h = doc_of_root_sound root d h
  doc_from_node_sound (document (cons root (cons n ns))) d h = cc
  doc_from_node_sound (document nil) d h = cc
  doc_from_node_sound (mapping tag c) d h = cc
  doc_from_node_sound (scalar tag v) d h = cc
  doc_from_node_sound (sequence tag c) d h = cc
  doc_from_node_sound (alias v) d h = cc
