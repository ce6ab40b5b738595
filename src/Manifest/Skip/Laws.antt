-- ===== src/Manifest/Skip/Laws.antt =====
-- The validation of skip: and disposition: accepts exactly what the rules allow.
use crossplane_update_tester.Base.{
  Text, text, true, false, [], is_empty_iff, none, ◌==◌, ==_iff, list_eq, nat_eq, elem, elem_iff,
  contains_byte, In, ◌≡◌, ◌≢◌, ◌↔◌, ◌⊎◌, inl, inr, refl, ap, arith, Bool-cases,
}
use crossplane_update_tester.Manifest.{
  SkipInfo, UpdateTest, present, skip_union_arm, skip_covered_elsewhere, skip_vendor_defect,
  skip_fixture_missing, skip_reasons, declared_exclusion, backend_discards, dispositions,
}
use crossplane_update_tester.Manifest.Skip.{
  validate_disposition_value, validate_entry_disposition, validate_reason_fields,
  validate_structured, validate_skip_info,
}

-- A disposition is undeclared or in the closed set, and an exclusion names who declared it and when
-- it is to be confirmed again.
pub record IsValidDisposition (d declared_by reconfirm : Text) : Type 0 where
  pub known : (d ≡ []) ⊎ In d dispositions
  pub exclusion : d ≡ declared_exclusion → (declared_by ≢ []) × (reconfirm ≢ [])

validate_disposition_value_iff :
    (d declared_by reconfirm : Text)
    → (validate_disposition_value d declared_by reconfirm ≡ none)
      ↔ IsValidDisposition d declared_by reconfirm
unfolding validate_disposition_value
validate_disposition_value_iff d declared_by reconfirm = ground (
  arith,
  is_empty_iff d,
  elem_iff d dispositions,
  ==_iff d declared_exclusion,
  is_empty_iff declared_by,
  is_empty_iff reconfirm,
)

-- What each structured reason must carry beside it.
pub record HasReasonFields (s : SkipInfo) : Type 0 where
  pub union_arm : s.reason ≡ skip_union_arm → s.sibling ≢ []
  pub covered_elsewhere : s.reason ≡ skip_covered_elsewhere → contains_byte b'#' s.by ≡ true
  pub vendor_defect : s.reason ≡ skip_vendor_defect → s.evidence ≢ []
  pub fixture_missing : s.reason ≡ skip_fixture_missing → s.evidence ≢ []

validate_reason_fields_iff : (s : SkipInfo) → (validate_reason_fields s ≡ none) ↔ HasReasonFields s
unfolding validate_reason_fields contains_byte
validate_reason_fields_iff s = ground (
  arith,
  ==_iff s.reason skip_union_arm,
  ==_iff s.reason skip_covered_elsewhere,
  ==_iff s.reason skip_vendor_defect,
  ==_iff s.reason skip_fixture_missing,
  is_empty_iff s.sibling,
  is_empty_iff s.by,
  is_empty_iff s.evidence,
)

-- A valid skip: either carries prose from before the closed set of reasons, and then no reason, or a
-- reason of the set with what that reason needs. Its disposition is valid in both cases.
pub record IsValidSkip (s : SkipInfo) : Type 0 where
  pub exclusive : s.legacy ≡ true → s.reason ≡ []
  pub known : s.legacy ≡ false → In s.reason skip_reasons
  pub complete : s.legacy ≡ false → HasReasonFields s
  pub disposition : IsValidDisposition s.disposition s.declared_by s.reconfirm

immutable_unknown : elem (text "immutable") skip_reasons ≡ false
immutable_unknown = refl

validate_structured_iff :
    (s : SkipInfo) → (validate_structured s ≡ none) ↔ (In s.reason skip_reasons × HasReasonFields s)
unfolding validate_structured
validate_structured_iff s = elim (Bool-cases (s.reason == text "immutable")) [
  | inl frozen ↦ rw frozen (λ h. cc, λ h. absurd (not_known frozen h.0))
  | inr other ↦
      rw other (ground (arith, elem_iff s.reason skip_reasons, validate_reason_fields_iff s))
]
  where
    not_known : (s.reason == text "immutable") ≡ true → In s.reason skip_reasons → ⊥
    not_known e m = cc (
      (elem_iff s.reason skip_reasons).1 m,
      ap (λ r. elem r skip_reasons) ((==_iff s.reason (text "immutable")).0 e),
      immutable_unknown,
    )

-- validateSkipInfo accepts a skip: exactly when free prose has no reason beside it; a skip that is not
-- free prose has one of the five reasons, with the companion keys that the reason needs; and its
-- disposition is none or a known one, a declared exclusion naming who declared it and how it is
-- reconfirmed.
pub validate_skip_info_iff : (s : SkipInfo) → (validate_skip_info s ≡ none) ↔ IsValidSkip s
unfolding validate_skip_info
validate_skip_info_iff s = ground (
  arith,
  is_empty_iff s.reason,
  validate_structured_iff s,
  validate_disposition_value_iff s.disposition s.declared_by s.reconfirm,
)

backend_discards_valid : validate_disposition_value backend_discards [] [] ≡ none
unfolding validate_disposition_value
backend_discards_valid = refl

-- A disposition at the top level of an entry is accepted exactly when there is none, or when it is
-- backend-discards and the entry has no skip:.
pub validate_entry_disposition_iff :
    (t : UpdateTest)
    → (validate_entry_disposition t ≡ none)
      ↔ ((t.disposition ≡ []) ⊎ ((t.disposition ≡ backend_discards) × (present t.skip ≡ false)))
unfolding validate_entry_disposition
validate_entry_disposition_iff t = elim (Bool-cases (t.disposition == backend_discards)) [
  | inl e ↦ discards ((==_iff t.disposition backend_discards).0 e)
  | inr e ↦ ground (arith, is_empty_iff t.disposition, ==_iff t.disposition backend_discards)
]
  where
    discards :
        t.disposition ≡ backend_discards
        → (validate_entry_disposition t ≡ none)
          ↔ ((t.disposition ≡ []) ⊎ ((t.disposition ≡ backend_discards) × (present t.skip ≡ false)))
    discards e = ground (
      arith,
      e,
      is_empty_iff t.disposition,
      ==_iff t.disposition backend_discards,
      backend_discards_valid,
      ap (λ d. validate_disposition_value d [] []) e,
    )
