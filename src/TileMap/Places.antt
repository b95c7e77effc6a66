-- ===== src/TileMap/Places.antt =====
-- The layers at a position, and what a change of one chunk does to them.
use amalgam_engine.Prelude.{
  ℕ, ◌≡◌, ◌≢◌, refl, sym, ◌∙◌, inl, inr, [], none, some, length, get_or, set, arith,
  get_or-set_self, get_or-set_ne,
}
use amalgam_engine.Prelude.Map.{lookup, beq_cases, lookup-insert_self, lookup-insert_ne}
use amalgam_engine.DiscreteExtent.{DiscretePosition}
use amalgam_engine.Tile.{Tile}
use amalgam_engine.TileMap.Positions.{position_eq, tile_index, chunk_position}
use amalgam_engine.TileMap.Addresses.{IsIntPosition, tile_index_injective}
use amalgam_engine.TileMap.{Chunk, TileMap, chunk_tile, store}

-- What the map holds at a position: a chunk that is not there has no layers.
abbrev pub layers_at : TileMap → DiscretePosition → Tile
layers_at m p = elim (lookup (chunk_position p) m.chunks) [
  | none ↦ []
  | some c ↦ chunk_tile c (tile_index p)
]

-- From m to t the tile at p changes to these layers, and no other tile changes.
pub record Changes (m t : TileMap) (p : DiscretePosition) (new : Tile) : Type 0 where
  pub here : layers_at t p ≡ new
  pub others : (q : DiscretePosition) → IsIntPosition q → q ≢ p → layers_at t q ≡ layers_at m q

pub Changes-same_chunks :
    (m t u : TileMap) (p : DiscretePosition) (new : Tile)
    → u.chunks ≡ t.chunks
    → Changes m t p new
    → Changes m u p new
Changes-same_chunks m t u p new e c = record {
  here = at p ∙ c.here;
  others = λ q v ne. at q ∙ c.others q v ne;
}
  where
    at : (q : DiscretePosition) → layers_at u q ≡ layers_at t q
    at q = rw (layers_at, e) refl

-- A write to the tile of p in its chunk, when t holds the written chunk there and is m elsewhere.
pub write-Changes :
    (m t : TileMap) (p : DiscretePosition) (c : Chunk) (new : Tile)
    → IsIntPosition p
    → length c.tiles ≡ 256
    → ((q : DiscretePosition)
        → chunk_position q ≡ chunk_position p
        → layers_at m q ≡ chunk_tile c (tile_index q))
    → ((q : DiscretePosition)
        → chunk_position q ≡ chunk_position p
        → layers_at t q ≡ get_or (set c.tiles (tile_index p) new) (tile_index q) [])
    → ((k : DiscretePosition) → chunk_position p ≢ k → lookup k t.chunks ≡ lookup k m.chunks)
    → Changes m t p new
write-Changes m t p c new v sized old now far =
    let (bound, _) = tile_index_injective p p v v in
    record {
      here =
          now p refl ∙ get_or-set_self c.tiles (tile_index p) new [] (omega (arith, bound, sized));
      others = λ q w ne. elim (beq_cases (chunk_position p) (chunk_position q)) [
        | inl same ↦
            let (_, inj) = tile_index_injective p q v w in
            now q (sym (same.1))
            ∙ get_or-set_ne c.tiles (tile_index p) (tile_index q) new []
                (λ e. ne (sym (inj (same.1) e)))
            ∙ sym (old q (sym (same.1)))
        | inr apart ↦ rw (layers_at, far (chunk_position q) (apart.1)) refl
      ];
    }

-- What a lookup of the chunk says of the layers.
pub layers_at-some :
    (m : TileMap) (p q : DiscretePosition) (c : Chunk)
    → lookup (chunk_position p) m.chunks ≡ some c
    → chunk_position q ≡ chunk_position p
    → layers_at m q ≡ chunk_tile c (tile_index q)
layers_at-some m p q c h e = rw (layers_at, e, h) refl

pub layers_at-none :
    (m : TileMap) (p q : DiscretePosition)
    → lookup (chunk_position p) m.chunks ≡ none
    → chunk_position q ≡ chunk_position p
    → layers_at m q ≡ []
layers_at-none m p q h e = rw (layers_at, e, h) refl

pub store-Changes :
    (m : TileMap) (p : DiscretePosition) (c : Chunk) (n : ℕ) (new : Tile)
    → IsIntPosition p
    → length c.tiles ≡ 256
    → ((q : DiscretePosition)
        → chunk_position q ≡ chunk_position p
        → layers_at m q ≡ chunk_tile c (tile_index q))
    → Changes m
        (store m
          (chunk_position p)
          (record { tile_layer_count = n; tiles = set c.tiles (tile_index p) new }))
        p
        new
store-Changes m p c n new v sized old =
    let written : Chunk = record { tile_layer_count = n; tiles = set c.tiles (tile_index p) new } in
    let t = store m (chunk_position p) written in
    write-Changes m t p c new v sized old
      (λ q e.
        layers_at-some t p q written (lookup-insert_self (chunk_position p) written m.chunks) e)
      (λ k ne. lookup-insert_ne (chunk_position p) k written m.chunks ne)
