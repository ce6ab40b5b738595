-- ===== src/Manifest/Skip.antt =====
-- The validation of skip: and disposition:. A check returns `none` for Go's nil error.
pub mod Laws
use crossplane_update_tester.Base.{
  Text, text, Bool, true, false, not, ◌&&◌, ◌||◌, [], is_empty, Option, none, some, if◌then◌else◌,
  ◌==◌, list_eq, nat_eq, elem, contains_byte, ◌≡◌, refl,
}
use crossplane_update_tester.Manifest.{
  Error, SkipInfo, UpdateTest, present, skip_union_arm, skip_covered_elsewhere, skip_vendor_defect,
  skip_fixture_missing, skip_reasons, declared_exclusion, backend_discards, dispositions,
}

-- if err := first; err != nil { return err }; return second
infixr 6 ◌and_then◌
abbrev pub ◌and_then◌ : Option Error → Option Error → Option Error
none and_then second = second
some e and_then second = some e

pub and_then-none : (a b : Option Error) → a and_then b ≡ none → (a ≡ none) × (b ≡ none)
and_then-none none b h = (refl, h)
and_then-none (some e) b h = cc

unfoldable pub validate_disposition_value : Text → Text → Text → Option Error
validate_disposition_value d declared_by reconfirm =
    if is_empty d
    then none
    else if not (elem d dispositions)
    then some (Error.invalid_disposition d)
    else if d == declared_exclusion && (is_empty declared_by || is_empty reconfirm)
    then some Error.incomplete_exclusion
    else none

abbrev pub wrap : (Error → Error) → Option Error → Option Error
wrap f none = none
wrap f (some e) = some (f e)

-- validateDisposition
abbrev pub validate_disposition : SkipInfo → Option Error
validate_disposition s =
    wrap Error.in_skip (validate_disposition_value s.disposition s.declared_by s.reconfirm)

unfoldable pub validate_entry_disposition : UpdateTest → Option Error
validate_entry_disposition t =
    if is_empty t.disposition
    then none
    else validate_disposition_value t.disposition [] []
      and_then (if present t.skip
          then some Error.disposition_on_both_levels
          else if not (t.disposition == backend_discards)
          then some (Error.not_a_top_level_disposition t.disposition)
          else none)

-- The switch of validateSkipInfo over a reason that is known.
unfoldable pub validate_reason_fields : SkipInfo → Option Error
validate_reason_fields s =
    if s.reason == skip_union_arm
    then (if is_empty s.sibling then some Error.missing_sibling else none)
    else if s.reason == skip_covered_elsewhere
    then (if is_empty s.by
        then some Error.missing_by
        else if not (contains_byte b'#' s.by)
        then some (Error.bad_by s.by)
        else none)
    else if s.reason == skip_vendor_defect || s.reason == skip_fixture_missing
    then (if is_empty s.evidence then some (Error.missing_evidence s.reason) else none)
    else none

unfoldable pub validate_structured : SkipInfo → Option Error
validate_structured s =
    if s.reason == text "immutable"
    then some Error.immutable_reason
    else if not (elem s.reason skip_reasons)
    then some (Error.invalid_reason s.reason)
    else validate_reason_fields s

unfoldable pub validate_skip_info : SkipInfo → Option Error
validate_skip_info s =
    if s.legacy && not (is_empty s.reason)
    then some Error.legacy_and_reason
    else (if s.legacy then none else validate_structured s) and_then validate_disposition s
