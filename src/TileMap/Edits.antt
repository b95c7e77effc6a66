-- ===== src/TileMap/Edits.antt =====
-- Adding a layer, and the steps behind every change of a tile.
use amalgam_engine.Prelude.{
  arith, get_or-set_self, ℕ, zero, suc, replicate, ◌+◌, ◌-◌, ◌%◌, ◌^◌, ◌<◌, ◌≡◌, refl, ap, sym, ◌∙◌,
  subst, inl, inr, ◌⊎◌, true, false, [], ◌∷◌, ◌++◌, none, some, ltb, ◌==◌, if◌then◌else◌, length,
  get_or, set, Bool-cases, Option-cases,
}
use amalgam_engine.Prelude.Map.{lookup}
use amalgam_engine.DiscreteExtent.{DiscretePosition, contains}
use amalgam_engine.Tile.{TileLayer, Tile, uint8_max, add_layer, find_layer_of_type}
use amalgam_engine.TileMap.Positions.{position_eq, tile_index, chunk_position}
use amalgam_engine.TileMap.Addresses.{IsIntPosition, tile_index_injective}
use amalgam_engine.TileMap.Counts.{
  IsCounted, IsValid, add_to_chunk-IsCounted, empty_chunk-IsCounted,
}
use amalgam_engine.TileMap.Places.{
  layers_at, Changes, Changes-same_chunks, layers_at-some, layers_at-none, store-Changes,
}
use amalgam_engine.TileMap.Removal.{store-IsValid}
use amalgam_engine.TileMap.{
  Chunk, TileMap, TileUpdate, tile_add_layer, empty_chunk, chunk_tile, get_chunk,
  get_or_create_chunk, store, replace_terrain, add_to_chunk, lower_count, rebuild_tile_collision,
  track, add_tile_layer, terrain,
}

-- With auto rebuild, the collision locator is called with the position and its layers; without, the
-- position is queued.
abbrev pub Rebuilt : TileMap → TileMap → DiscretePosition → Tile → Type 0
Rebuilt m t p x =
    ((m.auto_rebuild_collision ≡ true)
      × (t.updated_tiles ≡ m.updated_tiles ++ (p, x) ∷ [])
      × (t.dirty_collision_queue ≡ m.dirty_collision_queue))
    ⊎ ((m.auto_rebuild_collision ≡ false)
        × (t.updated_tiles ≡ m.updated_tiles)
        × (t.dirty_collision_queue ≡ m.dirty_collision_queue ++ p ∷ []))

-- Collision and history leave the chunks alone.
rebuild_tile :
    (m : TileMap) (p : DiscretePosition) (x : Tile)
    → (t : TileMap) × (rebuild_tile_collision m p (some x) ≡ some t)
      × (t.chunks ≡ m.chunks)
      × Rebuilt m t p x
unfolding rebuild_tile_collision
rebuild_tile m p x = elim (Bool-cases m.auto_rebuild_collision) [
  | inl auto ↦ (
    record m { updated_tiles = m.updated_tiles ++ (p, x) ∷ [] },
    rw (rebuild_tile_collision, auto) refl,
    refl,
    inl (auto, refl, refl),
  )
  | inr queued ↦ (
    record m { dirty_collision_queue = m.dirty_collision_queue ++ p ∷ [] },
    rw (rebuild_tile_collision, queued) refl,
    refl,
    inr (queued, refl, refl),
  )
]

pub rebuild_some :
    (m : TileMap) (p : DiscretePosition) (x : Tile)
    → (t : TileMap) × (rebuild_tile_collision m p (some x) ≡ some t) × (t.chunks ≡ m.chunks)
rebuild_some m p x = let (t, q, same, _) = rebuild_tile m p x in (t, q, same)

-- A tile that is gone can be queued, but not read.
pub rebuild_erased :
    (m : TileMap) (p : DiscretePosition)
    → ((m.auto_rebuild_collision ≡ true) × (rebuild_tile_collision m p none ≡ none))
      ⊎ ((m.auto_rebuild_collision ≡ false)
          × ((t : TileMap) × (rebuild_tile_collision m p none ≡ some t) × (t.chunks ≡ m.chunks)))
unfolding rebuild_tile_collision
rebuild_erased m p = elim (Bool-cases m.auto_rebuild_collision) [
  | inl auto ↦ inl (auto, rw (rebuild_tile_collision, auto) refl)
  | inr queued ↦ inr (
    queued,
    (
      record m { dirty_collision_queue = m.dirty_collision_queue ++ p ∷ [] },
      rw (rebuild_tile_collision, queued) refl,
      refl,
    ),
  )
]

pub track-chunks : (m : TileMap) (u : TileUpdate) → (track m u).chunks ≡ m.chunks
unfolding track
track-chunks m u = elim (Bool-cases m.track_tile_updates) [
  | inl tracked ↦ rw tracked
  | inr untracked ↦ rw untracked
]

track-Rebuilt :
    (m t : TileMap) (p : DiscretePosition) (x : Tile) (u : TileUpdate)
    → Rebuilt m t p x
    → Rebuilt m (track t u) p x
unfolding track
track-Rebuilt m t p x u b = elim (Bool-cases t.track_tile_updates) [
  | inl tracked ↦ rw tracked b
  | inr untracked ↦ rw untracked b
]

pub IsValid-same_chunks : (m t : TileMap) → t.chunks ≡ m.chunks → IsValid m → IsValid t
IsValid-same_chunks m t e v cp c h = v cp c (sym (ap (λ k. lookup cp k) e) ∙ h)

pub lower_count-auto :
    (m : TileMap) (cp : DiscretePosition) (c : Chunk) (i : ℕ) (r : Tile × ℕ)
    → (lower_count m cp c i r).0.auto_rebuild_collision ≡ m.auto_rebuild_collision
unfolding lower_count
lower_count-auto m cp c i (left, removed) = elim (Bool-cases (ltb 0 removed)) [
  | inr nothing ↦ rw nothing
  | inl something ↦
      elim (Bool-cases ((c.tile_layer_count + 65536 - removed % 65536) % 65536 == 0)) [
        | inl empty ↦ rw (something, empty)
        | inr layers ↦ rw (something, layers)
      ]
]

-- A tile with the layer added, or with its terrain replaced.
abbrev pub with_layer : TileLayer → Tile → Tile
with_layer n t =
    let added = add_layer t n.tile_offset n.type n.graphic_set_id n.graphic_value in
    if n.type == terrain
    then elim (find_layer_of_type t terrain) [
      | none ↦ added
      | some l ↦ replace_terrain n.graphic_set_id n.graphic_value t
    ]
    else added

add_to_chunk-tiles :
    (c : Chunk) (i : ℕ) (n : TileLayer)
    → (k : ℕ) × (add_to_chunk c i n
        ≡ record { tile_layer_count = k; tiles = set c.tiles i (with_layer n (chunk_tile c i)) })
unfolding add_to_chunk
add_to_chunk-tiles c i n = elim (Bool-cases (n.type == terrain)) [
  | inr other ↦ ((c.tile_layer_count + 1) % 2 ^ 16, rw (add_to_chunk, other) refl)
  | inl is_terrain ↦ elim (Option-cases (find_layer_of_type (chunk_tile c i) terrain)) [
    | inl first ↦ ((c.tile_layer_count + 1) % 2 ^ 16, rw (add_to_chunk, is_terrain, first) refl)
    | inr (l, found) ↦ (c.tile_layer_count, rw (add_to_chunk, is_terrain, found) refl)
  ]
]

-- The chunk that a layer is added to, and what the map holds in it.
get_or_create_chunk_lem :
    (m : TileMap) (p : DiscretePosition)
    → IsValid m
    → contains m.chunk_extent (chunk_position p) ≡ true
    → (c : Chunk) × (get_or_create_chunk m (chunk_position p) ≡ some c)
      × IsCounted c
      × ((q : DiscretePosition)
          → chunk_position q ≡ chunk_position p
          → layers_at m q ≡ chunk_tile c (tile_index q))
unfolding get_or_create_chunk get_chunk
get_or_create_chunk_lem m p v inside = elim (Option-cases (lookup (chunk_position p) m.chunks)) [
  | inr (c, h) ↦ (
    c,
    rw (get_or_create_chunk, get_chunk, inside, h) refl,
    (v (chunk_position p) c h).0,
    λ q e. layers_at-some m p q c h e,
  )
  | inl missing ↦ (
    empty_chunk,
    rw (get_or_create_chunk, get_chunk, inside, missing) refl,
    empty_chunk-IsCounted,
    λ q e. layers_at-none m p q missing e ∙ sym (get_or-replicate 256 (tile_index q)),
  )
]
  where
    get_or-replicate : (n i : ℕ) → get_or {A = Tile} (replicate n []) i [] ≡ []
    get_or-replicate zero i = refl
    get_or-replicate (suc n) zero = refl
    get_or-replicate (suc n) (suc i) = get_or-replicate n i

-- Inside the map's bounds, a layer for a tile with fewer than 255 layers is added, or replaces the
-- tile's terrain if it is one itself; no other tile of the map changes. Each chunk's count remains the
-- number of its layers, and no chunk without layers is kept. With auto rebuild, the collision locator
-- is called once, with the tile's new layers, and nothing is queued; without, only the tile is queued.
pub add_tile_layer_lem :
    (m : TileMap) (p : DiscretePosition) (n : TileLayer)
    → IsValid m
    → IsIntPosition p
    → contains m.chunk_extent (chunk_position p) ≡ true
    → length (layers_at m p) < uint8_max
    → (t : TileMap) × (add_tile_layer m p n ≡ some t)
      × IsValid t
      × Changes m t p (with_layer n (layers_at m p))
      × Rebuilt m t p (with_layer n (layers_at m p))
unfolding add_tile_layer
add_tile_layer_lem m p n v w inside room =
    let (c, got, counted, old) = get_or_create_chunk_lem m p v inside in
    let i = tile_index p in
    let at = old p refl in
    let bound = (tile_index_injective p p w w).0 in
    let (k, new) = add_to_chunk-tiles c i n in
    let stored = store m (chunk_position p) (add_to_chunk c i n) in
    let valid =
      store-IsValid m (chunk_position p) (add_to_chunk c i n) v
        (add_to_chunk-IsCounted c i n counted bound (subst (λ t. length t < uint8_max) at room)) in
    let changes =
      subst (λ x. Changes m (store m (chunk_position p) x) p (with_layer n (layers_at m p)))
        (sym new)
        (subst
          (λ x.
            Changes m
              (store m (chunk_position p) (record {
                tile_layer_count = k;
                tiles = set c.tiles i (with_layer n (chunk_tile c i));
              }))
              p (with_layer n x))
          (sym at) (store-Changes m p c k (with_layer n (chunk_tile c i)) w counted.sized old)) in
    let layers : chunk_tile (add_to_chunk c i n) i ≡ with_layer n (layers_at m p) =
      ap (λ x. chunk_tile x i) new
      ∙ get_or-set_self c.tiles i (with_layer n (chunk_tile c i)) []
          (omega (arith, bound, counted.sized))
      ∙ ap (with_layer n) (sym at) in
    let (t, q, same, rebuilt) = rebuild_tile stored p (chunk_tile (add_to_chunk c i n) i) in
    let chunks = track-chunks t (tile_add_layer p n) ∙ same in
    (
      track t (tile_add_layer p n),
      rw (add_tile_layer, got, q) refl,
      IsValid-same_chunks stored (track t (tile_add_layer p n)) chunks valid,
      Changes-same_chunks m stored (track t (tile_add_layer p n)) p (with_layer n (layers_at m p))
          chunks changes,
      subst (Rebuilt stored (track t (tile_add_layer p n)) p) layers (
          track-Rebuilt stored t p (chunk_tile (add_to_chunk c i n) i) (tile_add_layer p n)
            rebuilt),
    )
