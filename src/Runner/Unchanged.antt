-- ===== src/Runner/Unchanged.antt =====
-- internal/runner/assert_unchanged.go: the fields that no test of the run may change.
pub mod Once
use crossplane_update_tester.Base.{
  Text, Bool, true, false, List, [], ◌∷◌, ◌++◌, Option, none, some, if◌then◌else◌, ◌==◌, list_eq,
  nat_eq, elem, lookup, insert, is_empty, Result, ok, err, then_do,
}
use crossplane_update_tester.Value.{Value, null, obj}
use crossplane_update_tester.Json.{Codec, object}
use crossplane_update_tester.Runner.Values.{Failure, navigate_json_path, or_null, stringify}

pub record UnchangedAssertion : Type 0 where
  pub field : Text
  pub baseline : Text
  pub observed : Text
  pub after_field : Text

-- The first error of a loop is kept.
abbrev pub first_error : Option Failure → Failure → Option Failure
first_error none e = some e
first_error (some e) d = some e

-- The value of a key of a map[string]string, the zero value where it is missing.
abbrev pub text_or_empty : Option Text → Text
text_or_empty none = []
text_or_empty (some s) = s

-- The result of one check: the new assertions, the violated fields and the error.
pub record Checked : Type 0 where
  pub found : List UnchangedAssertion
  pub violated : List Text
  pub failure : Option Failure

-- What checkAssertUnchanged does with the value that is read.
abbrev pub check_read :
    Text → List (Text × Text) → Text → Result Failure (Option Text) → Checked → Checked
check_read after baselines f (err e) c = record c {
  failure = first_error c.failure (Failure.reading f);
}
check_read after baselines f (ok v) c =
    if text_or_empty v == text_or_empty (lookup f baselines) then c else record c {
      violated = f ∷ c.violated;
      found =
          c.found
          ++ record {
            field = f;
            baseline = text_or_empty (lookup f baselines);
            observed = text_or_empty v;
            after_field = after;
          }
            ∷ [];
    }

module _ (codec : Codec) where
  -- json.Unmarshal into a map[string]interface{}
  abbrev pub snapshot_object : Option Value → Result Failure Value
  snapshot_object (some (obj fs)) = ok (obj fs)
  snapshot_object (some null) = ok (object [])
  snapshot_object _ = err (Failure.parsing_snapshot [])

  abbrev pub read_found : Text → Option Value → Result Failure (Option Text)
  read_found path none = ok none
  read_found path (some v) = then_do (stringify codec v path) (λ s. ok (some s))

  -- readSnapshotField: `none` is a field that is not there, which reads as the empty text.
  unfoldable pub read_snapshot_field : Text → Text → Result Failure (Option Text)
  unfolding navigate_json_path
  read_snapshot_field snapshot path =
      then_do (snapshot_object (codec.unmarshal snapshot))
        (λ o. then_do (navigate_json_path o [] path) (λ v. read_found path v))

  abbrev pub found_baseline : Text → Option Text → Result Failure Text
  found_baseline path none = err (Failure.no_such_field path)
  found_baseline path (some s) = ok s

  unfoldable pub read_assert_unchanged_baselines :
      Text → List Text → Result Failure (List (Text × Text))
  unfolding read_snapshot_field
  read_assert_unchanged_baselines snapshot [] = ok []
  read_assert_unchanged_baselines snapshot (f ∷ fs) = then_do (read_snapshot_field snapshot f) (λ v.
      then_do (found_baseline f v)
        (λ s. then_do (read_assert_unchanged_baselines snapshot fs) (λ rest. ok ((f, s) ∷ rest))))

  -- One field of checkAssertUnchanged.
  abbrev pub check_field : Text → Text → List (Text × Text) → Text → Checked → Checked
  check_field after snapshot baselines f c =
      if elem f c.violated
      then c
      else check_read after baselines f (read_snapshot_field snapshot f) c

  unfoldable pub check_fields : Text → Text → List (Text × Text) → List Text → Checked → Checked
  check_fields after snapshot baselines [] c = c
  check_fields after snapshot baselines (f ∷ fs) c =
      check_fields after snapshot baselines fs (check_field after snapshot baselines f c)

  abbrev pub check_assert_unchanged :
      Text → List Text → List (Text × Text) → List Text → Text → Checked
  check_assert_unchanged snapshot fs baselines violated after =
      check_fields after snapshot baselines fs
        (record { found = []; violated = violated; failure = none })
