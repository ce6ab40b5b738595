-- ===== src/Differ.antt =====
-- internal/differ/differ.go: the fields that differ between two snapshots of status.atProvider.
pub mod Changes
use crossplane_update_tester.Base.{
  Text, text, Bool, true, false, not, ◌&&◌, ◌||◌, List, [], ◌∷◌, ◌++◌, is_empty, map, filter,
  Option, none, some, if◌then◌else◌, ◌==◌, list_eq, nat_eq, elem, lookup, sort_by, text_le,
  trim_space, join, Result, ok, err, then_do,
}
use crossplane_update_tester.Json.{Codec}

pub record FieldChange : Type 0 where
  pub field : Text
  pub old_value : Text
  pub new_value : Text

-- The snapshot that does not parse, by its label.
pub data BadSnapshot : Type 0 where
  before after : BadSnapshot

-- The keys of a Go map: each once.
unfoldable pub distinct : List Text → List Text
distinct [] = []
distinct (k ∷ ks) = let rest = distinct ks in if elem k rest then rest else k ∷ rest

abbrev pub RawMap : Type 0
RawMap = List (Text × Text)

abbrev pub keys_of : RawMap → List Text
keys_of m = map (λ (e : Text × Text). e.0) m

-- The names that DiffSnapshotsExcluding leaves out.
unfoldable pub exclude_set : List Text → List Text
unfolding trim_space
exclude_set [] = []
exclude_set (f ∷ fs) =
    let name = trim_space f in if is_empty name then exclude_set fs else name ∷ exclude_set fs

abbrev pub is_change : List Text → FieldChange → Bool
is_change exclude c = not (elem c.field exclude) && not (c.old_value == c.new_value)

module _ (codec : Codec) where
  abbrev pub decoded : BadSnapshot → Option RawMap → Result BadSnapshot RawMap
  decoded label none = err label
  decoded label (some m) = ok m

  unfoldable pub parse_snapshot : Text → BadSnapshot → Result BadSnapshot RawMap
  unfolding trim_space
  parse_snapshot bytes label =
      let trimmed = trim_space bytes in
      if is_empty trimmed || trimmed == text "null"
      then ok []
      else decoded label (codec.raw_object trimmed)

  abbrev pub compacted : Text → Option Text → Text
  compacted raw none = raw
  compacted raw (some t) = t

  abbrev pub value_text : Option Text → Text
  value_text none = []
  value_text (some raw) = compacted raw (codec.compact raw)

  unfoldable pub raw_value : RawMap → Text → Text
  unfolding lookup
  raw_value m key = value_text (lookup key m)

  abbrev pub change_at : RawMap → RawMap → Text → FieldChange
  change_at old new k = record {
    field = k;
    old_value = raw_value old k;
    new_value = raw_value new k;
  }

  abbrev pub changes_between : List Text → RawMap → RawMap → List FieldChange
  changes_between exclude old new =
      filter (is_change exclude) (map (change_at old new) (distinct (keys_of old ++ keys_of new)))

  unfoldable pub diff_top_level : Text → Text → List Text → Result BadSnapshot (List FieldChange)
  unfolding parse_snapshot raw_value distinct sort_by
  diff_top_level old new exclude = then_do (parse_snapshot old BadSnapshot.before) (λ m.
      then_do (parse_snapshot new BadSnapshot.after)
        (λ n. ok (sort_by (λ c. c.field) (changes_between exclude m n))))

  abbrev pub diff_snapshots : Text → Text → Text → Result BadSnapshot (List FieldChange)
  diff_snapshots old new target = diff_top_level old new (target ∷ [])

  abbrev pub diff_snapshots_excluding :
      Text → Text → List Text → Result BadSnapshot (List FieldChange)
  diff_snapshots_excluding old new exclude = diff_top_level old new (exclude_set exclude)

-- The bytes of the arrow and of the check mark.
abbrev pub arrow : Text
arrow = 226 ∷ 134 ∷ 146 ∷ []

abbrev pub check_mark : Text
check_mark = 226 ∷ 156 ∷ 147 ∷ []

-- the field, its old value, the arrow and its new value
abbrev pub change_line : FieldChange → Text
change_line c =
    c.field ++ (text ": " ++ (c.old_value ++ (text " " ++ (arrow ++ (text " " ++ c.new_value)))))

unfoldable pub format_changes : List FieldChange → Text
unfolding join
format_changes [] = text "all non-target fields stable " ++ check_mark
format_changes (c ∷ cs) = join (text ", ") (map change_line (c ∷ cs))
