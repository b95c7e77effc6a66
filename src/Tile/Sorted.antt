-- ===== src/Tile/Sorted.antt =====
-- A tile's layers stay sorted by type, and are no more than a byte can count.
use amalgam_engine.Prelude.{
  ℕ, ◌+◌, ◌≤◌, ◌≡◌, ◌≢◌, refl, inl, inr, Bool, false, [], ◌∷◌, ltb, ◌==◌, if◌then◌else◌, length,
  arith, Bool-cases,
}
use amalgam_engine.Tile.{TileOffset, TileLayer, Tile, uint8_max, insert_layer, add_layer}

-- No layer is of a type below `n`.
abbrev pub AtLeast : ℕ → Tile → Type 0
AtLeast n [] = Unit {0}
AtLeast n (l ∷ ls) = (n ≤ l.type) × AtLeast n ls

abbrev pub Sorted : Tile → Type 0
Sorted [] = Unit {0}
Sorted (l ∷ ls) = AtLeast l.type ls × Sorted ls

pub AtLeast-mono : (m n : ℕ) (ls : Tile) → m ≤ n → AtLeast n ls → AtLeast m ls
AtLeast-mono m n [] h a = tt
AtLeast-mono m n (l ∷ ls) h a = (omega arith, AtLeast-mono m n ls h a.1)

-- How many layers satisfy a test.
abbrev pub count : (TileLayer → Bool) → Tile → ℕ
count p [] = 0
count p (l ∷ ls) = (if p l then 1 else 0) + count p ls

AtLeast-insert_layer :
    (m : ℕ) (n : TileLayer) (ls : Tile) → m ≤ n.type → AtLeast m ls → AtLeast m (insert_layer n ls)
unfolding insert_layer
AtLeast-insert_layer m n [] h a = (h, tt)
AtLeast-insert_layer m n (l ∷ ls) h a = elim (Bool-cases (ltb l.type n.type)) [
  | inl lower ↦ rw lower (a.0, AtLeast-insert_layer m n ls h a.1)
  | inr here ↦ rw here (h, a)
]

Sorted-insert_layer : (n : TileLayer) (ls : Tile) → Sorted ls → Sorted (insert_layer n ls)
unfolding insert_layer
Sorted-insert_layer n [] s = (tt, tt)
Sorted-insert_layer n (l ∷ ls) s = elim (Bool-cases (ltb l.type n.type)) [
  | inl lower ↦
      rw lower (AtLeast-insert_layer l.type n ls (ground arith) s.0, Sorted-insert_layer n ls s.1)
  | inr here ↦
      let le : n.type ≤ l.type = ground arith in
      rw here ((le, AtLeast-mono n.type l.type ls le s.0), s)
]

count-insert_layer :
    (p : TileLayer → Bool) (n : TileLayer) (ls : Tile)
    → count p (insert_layer n ls) ≡ (if p n then 1 else 0) + count p ls
unfolding insert_layer
count-insert_layer p n [] = refl
count-insert_layer p n (l ∷ ls) = elim (Bool-cases (ltb l.type n.type)) [
  | inl lower ↦ rw lower (omega (arith, count-insert_layer p n ls))
  | inr here ↦ rw here
]

pub length-insert_layer : (n : TileLayer) (ls : Tile) → length (insert_layer n ls) ≡ length ls + 1
unfolding insert_layer
length-insert_layer n [] = omega arith
length-insert_layer n (l ∷ ls) = ground (arith, length-insert_layer n ls)

-- The layers of a tile below the limit.
pub record IsValid (t : Tile) : Type 0 where
  pub sorted : Sorted t
  pub bounded : length t ≤ uint8_max

-- `addLayer` keeps the layers sorted and at most 255. On a tile with fewer the new layer is added,
-- and no other layer comes or goes; at 255 nothing changes.
pub add_layer_lem :
    (t : Tile) (offset : TileOffset) (type set value : ℕ) (p : TileLayer → Bool)
    → IsValid t
    → let n : TileLayer = record {
      tile_offset = offset;
      type = type;
      graphic_value = value;
      graphic_set_id = set;
    } in
      let r = add_layer t offset type set value in
      IsValid r
      × (count p r
          ≡ (if length t == uint8_max then count p t else (if p n then 1 else 0) + count p t))
unfolding add_layer
add_layer_lem t offset type set value p v = elim (Bool-cases (length t == uint8_max)) [
  | inl full ↦ rw full (v, refl)
  | inr room ↦ rw room (
    record {
      sorted = Sorted-insert_layer _ t v.sorted;
      bounded = omega (arith, length-insert_layer _ t, v.bounded, below room);
    },
    count-insert_layer p _ t,
  )
]
  where
    below : (length t == uint8_max) ≡ false → length t ≢ uint8_max
    below h = ground arith
