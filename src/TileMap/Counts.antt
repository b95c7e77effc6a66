-- ===== src/TileMap/Counts.antt =====
-- The layer count of a chunk is the number of its layers, whatever is added or removed, and a chunk
-- without layers is not kept.
use amalgam_engine.Prelude.{
  ℕ, zero, suc, ◌+◌, ◌*◌, ◌%◌, ◌^◌, ◌≤◌, ◌<◌, ◌≡◌, refl, sym, ◌∙◌, inl, inr, true, false, List, [],
  ◌∷◌, some, ◌==◌, length, get_or, set, replicate, arith, Bool-cases, Option-cases, length-set,
}
use amalgam_engine.Prelude.Map.{lookup}
use amalgam_engine.DiscreteExtent.{DiscretePosition}
use amalgam_engine.Tile.{TileLayer, Tile, uint8_max, add_layer, find_layer_of_type, find_loop}
use amalgam_engine.Tile.Sorted.{
  AtLeast, Sorted, IsValid as IsValidTile, add_layer_lem, length-insert_layer,
}
use amalgam_engine.TileMap.Positions.{position_eq}
use amalgam_engine.TileMap.{
  Chunk, TileMap, empty_chunk, chunk_tile, replace_terrain, add_to_chunk, terrain,
}

abbrev pub total : List Tile → ℕ
total [] = 0
total (t ∷ ts) = length t + total ts

abbrev pub AllValid : List Tile → Type 0
AllValid [] = Unit {0}
AllValid (t ∷ ts) = IsValidTile t × AllValid ts

-- 256 tiles, whose layers are counted. Chunk.h says that the count is of the tiles that are non-empty; the
-- code adds one for each layer, so a tile with two layers counts twice.
pub record IsCounted (c : Chunk) : Type 0 where
  pub sized : length c.tiles ≡ 256
  pub tiles : AllValid c.tiles
  pub counted : c.tile_layer_count ≡ total c.tiles

-- Each chunk of the map is counted and has a layer.
abbrev pub IsValid : TileMap → Type 0
IsValid m =
    (cp : DiscretePosition) (c : Chunk)
    → lookup cp m.chunks ≡ some c
    → IsCounted c × (0 < c.tile_layer_count)

pub total-set :
    (ts : List Tile) (i : ℕ) (t : Tile)
    → i < length ts
    → total (set ts i t) + length (get_or ts i []) ≡ total ts + length t
total-set [] i t h = absurd (omega arith)
total-set (u ∷ ts) zero t h = omega arith
total-set (u ∷ ts) (suc i) t h = omega (arith, total-set ts i t (omega arith))

AllValid-set :
    (ts : List Tile) (i : ℕ) (t : Tile) → AllValid ts → IsValidTile t → AllValid (set ts i t)
AllValid-set [] i t a v = tt
AllValid-set (u ∷ ts) zero t (w, a) v = (v, a)
AllValid-set (u ∷ ts) (suc i) t (w, a) v = (w, AllValid-set ts i t a v)

pub get_or-IsValid : (ts : List Tile) (i : ℕ) → AllValid ts → IsValidTile (get_or ts i [])
get_or-IsValid [] i a = record { sorted = tt; bounded = omega arith }
get_or-IsValid (u ∷ ts) zero (w, a) = w
get_or-IsValid (u ∷ ts) (suc i) (w, a) = get_or-IsValid ts i a

pub length-get_or : (ts : List Tile) (i : ℕ) → length (get_or ts i []) ≤ total ts
length-get_or [] i = omega arith
length-get_or (u ∷ ts) zero = omega arith
length-get_or (u ∷ ts) (suc i) = omega (arith, length-get_or ts i)

pub total_bound : (ts : List Tile) → AllValid ts → total ts ≤ 255 * length ts
total_bound [] a = omega arith
total_bound (t ∷ ts) (v, a) = omega (arith, v.bounded, total_bound ts a)

total-replicate : (n : ℕ) → (total (replicate n []) ≡ 0) × AllValid (replicate n [])
total-replicate zero = (refl, tt)
total-replicate (suc n) =
    let (z, a) = total-replicate n in
    (omega (arith, z), (record { sorted = tt; bounded = omega arith }, a))

pub empty_chunk-IsCounted : IsCounted empty_chunk
empty_chunk-IsCounted =
    let (z, a) = total-replicate 256 in record { sized = refl; tiles = a; counted = sym z }

-- A chunk in which one tile is replaced.
pub set-IsCounted :
    (c : Chunk) (i n : ℕ) (t : Tile)
    → IsCounted c
    → i < 256
    → IsValidTile t
    → n + length (chunk_tile c i) ≡ c.tile_layer_count + length t
    → IsCounted (record { tile_layer_count = n; tiles = set c.tiles i t })
set-IsCounted c i n t w h v e = record {
  sized = length-set c.tiles i t ∙ w.sized;
  tiles = AllValid-set c.tiles i t w.tiles v;
  counted = omega (arith, total-set c.tiles i t (omega (arith, w.sized)), w.counted);
}

replace_terrain-AtLeast :
    (n set value : ℕ) (t : Tile) → AtLeast n t → AtLeast n (replace_terrain set value t)
unfolding replace_terrain
replace_terrain-AtLeast n set value [] a = tt
replace_terrain-AtLeast n set value (l ∷ ls) (a, b) = elim (Bool-cases (l.type == terrain)) [
  | inl hit ↦ rw hit (a, b)
  | inr miss ↦ rw miss (a, replace_terrain-AtLeast n set value ls b)
]

replace_terrain-Sorted :
    (set value : ℕ) (t : Tile) → Sorted t → Sorted (replace_terrain set value t)
unfolding replace_terrain
replace_terrain-Sorted set value [] s = tt
replace_terrain-Sorted set value (l ∷ ls) (a, s) = elim (Bool-cases (l.type == terrain)) [
  | inl hit ↦ rw hit (a, s)
  | inr miss ↦
      rw miss (replace_terrain-AtLeast l.type set value ls a, replace_terrain-Sorted set value ls s)
]

length-replace_terrain :
    (set value : ℕ) (t : Tile) → length (replace_terrain set value t) ≡ length t
unfolding replace_terrain
length-replace_terrain set value [] = refl
length-replace_terrain set value (l ∷ ls) = ground (arith, length-replace_terrain set value ls)

find_layer_some :
    (t : Tile) (type : ℕ) (l : TileLayer) → find_layer_of_type t type ≡ some l → 0 < length t
unfolding find_layer_of_type find_loop
find_layer_some [] type l e = cc e
find_layer_some (k ∷ t) type l e = omega arith

length-add_layer :
    (t : Tile) (n : TileLayer)
    → length t < uint8_max
    → length (add_layer t n.tile_offset n.type n.graphic_set_id n.graphic_value) ≡ length t + 1
unfolding add_layer
length-add_layer t n room =
    let open_ended : (length t == uint8_max) ≡ false = ground arith in
    rw (add_layer, open_ended) (length-insert_layer _ t)

-- A layer for a tile that has room: the chunk is counted, and has a layer then.
pub add_to_chunk-IsCounted :
    (c : Chunk) (i : ℕ) (n : TileLayer)
    → IsCounted c
    → i < 256
    → length (chunk_tile c i) < uint8_max
    → IsCounted (add_to_chunk c i n) × (0 < (add_to_chunk c i n).tile_layer_count)
unfolding add_to_chunk
add_to_chunk-IsCounted c i n w h room = elim (Bool-cases (n.type == terrain)) [
  | inr other ↦ rw (add_to_chunk, other) added
  | inl is_terrain ↦ elim (Option-cases (find_layer_of_type tile terrain)) [
    | inl first ↦ rw (add_to_chunk, is_terrain, first) added
    | inr (l, found) ↦
        rw (add_to_chunk, is_terrain, found)
          (
            set-IsCounted c i c.tile_layer_count
                (replace_terrain n.graphic_set_id n.graphic_value tile) w h
                (record {
                  sorted =
                      replace_terrain-Sorted n.graphic_set_id n.graphic_value tile valid.sorted;
                  bounded = omega (
                    arith,
                    valid.bounded,
                    length-replace_terrain n.graphic_set_id n.graphic_value tile,
                  );
                })
                (omega (arith, length-replace_terrain n.graphic_set_id n.graphic_value tile)),
            omega (arith, find_layer_some tile terrain l found, length-get_or c.tiles i, w.counted),
          )
  ]
]
  where
    tile : Tile
    tile = chunk_tile c i

    valid : IsValidTile tile
    valid = get_or-IsValid c.tiles i w.tiles

    more : Tile
    more = add_layer tile n.tile_offset n.type n.graphic_set_id n.graphic_value

    grown : length more ≡ length tile + 1
    grown = length-add_layer tile n room

    small : c.tile_layer_count + 1 < 2 ^ 16
    small = omega (arith, total_bound c.tiles w.tiles, w.counted, w.sized)

    added :
        IsCounted (record {
          tile_layer_count = (c.tile_layer_count + 1) % 2 ^ 16;
          tiles = set c.tiles i more;
        })
        × (0 < (c.tile_layer_count + 1) % 2 ^ 16)
    added = (
      set-IsCounted c i ((c.tile_layer_count + 1) % 2 ^ 16) more w h
          ((add_layer_lem tile n.tile_offset n.type n.graphic_set_id n.graphic_value (λ l. true)
            valid).0)
          (omega (arith, grown, small)),
      omega (arith, small),
    )
