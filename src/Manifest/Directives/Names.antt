-- ===== src/Manifest/Directives/Names.antt =====
-- What a comma-separated list of names can hold.
use crossplane_update_tester.Base.{
  Text, false, List, [], ◌∷◌, is_empty, is_empty_iff, split, split-free, All, contains_byte,
  trim_space, trim_space-free, trim_space_idem, ◌≡◌, ◌≢◌, inl, inr, Bool-cases,
}
use crossplane_update_tester.Manifest.Directives.{trimmed_names, split_field_list}

-- A name as splitFieldList returns it: not empty, with no white space on its ends and no comma.
pub record IsName (f : Text) : Type 0 where
  pub filled : f ≢ []
  pub trimmed : trim_space f ≡ f
  pub one_name : contains_byte b',' f ≡ false

trimmed_names-IsName :
    (parts : List Text)
    → All (λ x. contains_byte b',' x ≡ false) parts
    → All IsName (trimmed_names parts)
unfolding trimmed_names
trimmed_names-IsName [] h = tt
trimmed_names-IsName (f ∷ fs) h = elim (Bool-cases (is_empty (trim_space f))) [
  | inl e ↦ rw e (trimmed_names-IsName fs h.1)
  | inr e ↦ rw e (
    record {
      filled = λ p. cc (e, (is_empty_iff (trim_space f)).1 p);
      trimmed = trim_space_idem f;
      one_name = trim_space-free b',' f h.0;
    },
    trimmed_names-IsName fs h.1,
  )
]

-- Whatever the text, every name that splitFieldList returns is not empty, has no white space around
-- it, and holds no comma.
pub split_field_list-IsName : (raw : Text) → All IsName (split_field_list raw)
unfolding split_field_list
split_field_list-IsName raw = trimmed_names-IsName (split b',' raw) (split-free b',' raw)
