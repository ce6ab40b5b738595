-- ===== src/Roundtrip/Rotation/Scopes.antt =====
-- stateKey tells manifests and cells apart, so that each (scope, key) pair has a cursor of its own.
use crossplane_update_tester.Base.{
  ℕ, ◌≡◌, ◌≢◌, refl, sym, ap, ◌∙◌, arith, List, [], ◌∷◌, ◌++◌, length, some_eq, some, ◌⊎◌, inl, inr,
  Text, false, list_eq, nat_eq, contains_byte, contains_byte-append, cut_unique, cut_unique_right,
  >>=-eq-some, lookup-insert_ne,
}
use crossplane_update_tester.Roundtrip.Cell.{
  CellKey, Classification, Shape, Direction, Depth, equal, scalar, set, unset, top,
  classification_text, shape_text, direction_text, depth_text,
}
use crossplane_update_tester.Roundtrip.Rotation.{
  Random, RotationState, Selection, cell_key_string, state_key, cursor_of, sticky_of, finish,
  rotate, shuffled_order, select, representatives_per_run,
}

classification-free :
    (b : ℕ) (c : Classification)
    → (b ≡ b'|') ⊎ (b ≡ 0)
    → contains_byte b (classification_text c) ≡ false
unfolding contains_byte
classification-free b equal h = ground arith
classification-free b _ h = ground arith

shape-free : (b : ℕ) (c : Shape) → (b ≡ b'|') ⊎ (b ≡ 0) → contains_byte b (shape_text c) ≡ false
unfolding contains_byte
shape-free b scalar h = ground arith
shape-free b _ h = ground arith

direction-free :
    (b : ℕ) (c : Direction) → (b ≡ b'|') ⊎ (b ≡ 0) → contains_byte b (direction_text c) ≡ false
unfolding contains_byte
direction-free b set h = ground arith
direction-free b _ h = ground arith

classification_text-injective :
    (a b : Classification) → classification_text a ≡ classification_text b → a ≡ b
classification_text-injective equal equal h = refl
classification_text-injective a b h = ground arith

shape_text-injective : (a b : Shape) → shape_text a ≡ shape_text b → a ≡ b
shape_text-injective scalar scalar h = refl
shape_text-injective a b h = ground arith

direction_text-injective : (a b : Direction) → direction_text a ≡ direction_text b → a ≡ b
direction_text-injective set set h = refl
direction_text-injective a b h = ground arith

depth_text-injective : (a b : Depth) → depth_text a ≡ depth_text b → a ≡ b
depth_text-injective top top h = refl
depth_text-injective a b h = ground arith

depth-free : (c : Depth) → contains_byte 0 (depth_text c) ≡ false
unfolding contains_byte
depth-free unset = refl
depth-free _ = refl

-- The text of a key, which every report is keyed by, tells the keys apart.
pub cell_key_string-injective : (a b : CellKey) → cell_key_string a ≡ cell_key_string b → a ≡ b
unfolding cell_key_string
cell_key_string-injective a b h =
    let (c, h₁) =
      cut_unique b'|' _ _ _ _ (classification-free b'|' a.classification (inl refl))
        (classification-free b'|' b.classification (inl refl)) h in
    let (s, h₂) =
      cut_unique b'|' _ _ _ _ (shape-free b'|' a.shape (inl refl))
        (shape-free b'|' b.shape (inl refl)) h₁ in
    let (d, p) =
      cut_unique b'|' _ _ _ _ (direction-free b'|' a.direction (inl refl))
        (direction-free b'|' b.direction (inl refl)) h₂ in
    let same_class = classification_text-injective a.classification b.classification c in
    let same_shape = shape_text-injective a.shape b.shape s in
    let same_direction = direction_text-injective a.direction b.direction d in
    let same_depth = depth_text-injective a.depth b.depth p in ground arith

cell_key_string-free : (k : CellKey) → contains_byte 0 (cell_key_string k) ≡ false
unfolding cell_key_string contains_byte
cell_key_string-free k = ground (
  arith,
  contains_byte-append 0 (classification_text k.classification) (
      b'|'
      ∷ (shape_text k.shape
          ++ (b'|' ∷ (direction_text k.direction ++ (b'|' ∷ depth_text k.depth))))),
  contains_byte-append 0 (shape_text k.shape)
      (b'|' ∷ (direction_text k.direction ++ (b'|' ∷ depth_text k.depth))),
  contains_byte-append 0 (direction_text k.direction) (b'|' ∷ depth_text k.depth),
  classification-free 0 k.classification (inr refl),
  shape-free 0 k.shape (inr refl),
  direction-free 0 k.direction (inr refl),
  depth-free k.depth,
)

-- Two pairs of a scope and a key have one state key only if they are the same pair, whatever bytes
-- the scopes hold.
pub state_key-injective :
    (scope scope' : Text) (key key' : CellKey)
    → state_key scope key ≡ state_key scope' key'
    → (scope ≡ scope') × (key ≡ key')
unfolding state_key
state_key-injective scope scope' key key' h =
    let (p, q) =
      cut_unique_right 0 scope scope' _ _ (cell_key_string-free key) (cell_key_string-free key')
        h in
    (p, cell_key_string-injective key key' q)

finish-elsewhere :
    (s : RotationState) (k j : Text) (n budget : ℕ) (picked : List Text)
    → k ≢ j
    → (cursor_of (finish s k n budget picked).state j ≡ cursor_of s j)
      × (sticky_of (finish s k n budget picked).state j ≡ sticky_of s j)
unfolding finish cursor_of sticky_of
finish-elsewhere s k j n budget picked h = (rw (lookup-insert_ne k j _ s.cursors h), refl)

-- A selection for one manifest and cell leaves the cursor and the registry of every other pair.
pub select-independent :
    (random : Random) (s : RotationState) (scope scope' : Text) (key key' : CellKey)
    (members : List Text) (r : Selection)
    → select random s scope key members ≡ some r
    → (scope ≡ scope' → key ≢ key')
    → (cursor_of r.state (state_key scope' key') ≡ cursor_of s (state_key scope' key'))
      × (sticky_of r.state (state_key scope' key') ≡ sticky_of s (state_key scope' key'))
unfolding select
select-independent random s scope scope' key key' [] r h other =
    let same : s ≡ r.state = cc in
    (
      ap (λ t. cursor_of t (state_key scope' key')) (sym same),
      ap (λ t. sticky_of t (state_key scope' key')) (sym same),
    )
select-independent random s scope scope' key key' (m ∷ ms) r h other =
    let n : ℕ = length (m ∷ ms) in
    let (picked, _, e) =
      >>=-eq-some
        (rotate (m ∷ ms) (shuffled_order random s.seed key n) (cursor_of s (state_key scope key)) 0
          (representatives_per_run n) [])
        (λ x. some (finish s (state_key scope key) n (representatives_per_run n) x)) h in
    let (cursors, registry) =
      finish-elsewhere s (state_key scope key) (state_key scope' key') n (representatives_per_run n)
        picked
        (λ p.
          let (same_scope, same_key) = state_key-injective scope scope' key key' p in
          other same_scope same_key) in
    let result : finish s (state_key scope key) n (representatives_per_run n) picked ≡ r =
      some_eq e in
    (
      ap (λ (t : Selection). cursor_of t.state (state_key scope' key')) (sym result) ∙ cursors,
      ap (λ (t : Selection). sticky_of t.state (state_key scope' key')) (sym result) ∙ registry,
    )
