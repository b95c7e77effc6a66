-- ===== src/TileMap/Removal.antt =====
-- The end of a removal: it keeps the layer counts, changes one tile, and erases an empty chunk.
use amalgam_engine.Prelude.{
  ℕ, ◌+◌, ◌-◌, ◌%◌, ◌^◌, ◌≤◌, ◌<◌, ◌≡◌, refl, sym, ◌∙◌, subst, inl, inr, true, false, List, [], ◌∷◌,
  Option, none, some, ltb, ◌==◌, length, get_or, set, arith, Bool-cases,
}
use amalgam_engine.Prelude.Map.{
  lookup, insert, erase, beq_cases, lookup-insert_self, lookup-insert_ne, lookup-erase_self,
  lookup-erase_ne,
}
use amalgam_engine.DiscreteExtent.{DiscretePosition}
use amalgam_engine.Tile.{Tile}
use amalgam_engine.Tile.Sorted.{IsValid as IsValidTile}
use amalgam_engine.TileMap.Positions.{position_eq, tile_index, chunk_position}
use amalgam_engine.TileMap.Addresses.{IsIntPosition, tile_index_injective}
use amalgam_engine.TileMap.Places.{
  Changes, write-Changes, layers_at-some, layers_at-none, store-Changes,
}
use amalgam_engine.TileMap.Counts.{
  total, IsCounted, IsValid, set-IsCounted, total-set, get_or-IsValid, total_bound, length-get_or,
}
use amalgam_engine.TileMap.{Chunk, TileMap, chunk_tile, store, lower_count}

pub some-eq : {A : Type 0} {a b : A} → some a ≡ some b → a ≡ b
some-eq e = cc

pub store-IsValid :
    (m : TileMap) (cp : DiscretePosition) (c : Chunk)
    → IsValid m
    → IsCounted c × (0 < c.tile_layer_count)
    → IsValid (store m cp c)
store-IsValid m cp c v w k d h = elim (beq_cases cp k) [
  | inl p ↦
      let stored =
        subst (λ j. lookup j (insert cp c m.chunks) ≡ some c) (p.1)
          (lookup-insert_self cp c m.chunks) in
      subst (λ (x : Chunk). IsCounted x × (0 < x.tile_layer_count)) (some-eq (sym stored ∙ h)) w
  | inr p ↦ v k d (sym (lookup-insert_ne cp k c m.chunks (p.1)) ∙ h)
]

erase-IsValid :
    (m : TileMap) (cp : DiscretePosition)
    → IsValid m
    → IsValid (record m { chunks = erase cp m.chunks })
erase-IsValid m cp v k d h = elim (beq_cases cp k) [
  | inl p ↦ absurd (
      let gone =
        subst (λ j. lookup j (erase cp m.chunks) ≡ none) (p.1) (lookup-erase_self cp m.chunks) in
      cc (gone, h))
  | inr p ↦ v k d (sym (lookup-erase_ne cp k m.chunks (p.1)) ∙ h)
]

-- The layers that are left and the number of those removed.
abbrev pub Shrinks : Tile → Tile × ℕ → Type 0
Shrinks t r = IsValidTile r.0 × (length r.0 + r.1 ≡ length t)

-- In a chunk without layers every tile is empty.
emptied : (ts : List Tile) (j : ℕ) → total ts ≡ 0 → get_or ts j [] ≡ []
emptied ts j e = nothing (get_or ts j []) (omega (arith, length-get_or ts j, e))
  where
    nothing : (t : Tile) → length t ≤ 0 → t ≡ []
    nothing [] h = refl
    nothing (l ∷ t) h = absurd (omega arith)

erase-Changes :
    (m : TileMap) (p : DiscretePosition) (c : Chunk) (left : Tile)
    → IsIntPosition p
    → length c.tiles ≡ 256
    → lookup (chunk_position p) m.chunks ≡ some c
    → total (set c.tiles (tile_index p) left) ≡ 0
    → Changes m (record m { chunks = erase (chunk_position p) m.chunks }) p left
erase-Changes m p c left v sized h gone =
    let t : TileMap = record m { chunks = erase (chunk_position p) m.chunks } in
    write-Changes m t p c left v sized (λ q e. layers_at-some m p q c h e)
      (λ q e.
        layers_at-none t p q (lookup-erase_self (chunk_position p) m.chunks) e
        ∙ sym (emptied (set c.tiles (tile_index p) left) (tile_index q) gone))
      (λ k ne. lookup-erase_ne (chunk_position p) k m.chunks ne)

-- A removal that leaves a tile there, or erases the chunk with the last of its layers.
pub data Remains (c : Chunk) (r : Tile × ℕ) : Option Tile → Type 0 where
  remains : (r.1 < c.tile_layer_count) → Remains c r (some r.0)
  erased : r.1 ≡ c.tile_layer_count → Remains c r none

-- What the end of a removal makes of the map and the tile.
abbrev pub Lowered : TileMap → DiscretePosition → Chunk → Tile × ℕ → TileMap × Option Tile → Type 0
Lowered m p c r x = IsValid x.0 × Changes m x.0 p r.0 × Remains c r x.1

pub lower_count_lem :
    (m : TileMap) (p : DiscretePosition) (c : Chunk) (r : Tile × ℕ)
    → IsValid m
    → IsIntPosition p
    → lookup (chunk_position p) m.chunks ≡ some c
    → Shrinks (chunk_tile c (tile_index p)) r
    → Lowered m p c r (lower_count m (chunk_position p) c (tile_index p) r)
unfolding lower_count
lower_count_lem m p c (left, removed) v w h (t, sum) = elim (Bool-cases (ltb 0 removed)) [
  | inr nothing ↦
      rw (lower_count, nothing)
        (
          store-IsValid m (chunk_position p) _ v (
            set-IsCounted c i c.tile_layer_count left counted bound t
                (omega (arith, sum, none_removed nothing)),
            some_layer,
          ),
          written c.tile_layer_count,
          remains (omega (arith, none_removed nothing, some_layer)),
        )
  | inl something ↦ elim (Bool-cases (lowered == 0)) [
    | inl empty ↦
        rw (lower_count, something, empty)
          (
            erase-IsValid m (chunk_position p) v,
            erase-Changes m p c left w counted.sized h
                (omega (arith, exact, zero_left empty, sum, totals)),
            erased (omega (arith, exact, zero_left empty)),
          )
    | inr layers ↦
        rw (lower_count, something, layers)
          (
            store-IsValid m (chunk_position p) _ v (
              set-IsCounted c i lowered left counted bound t (omega (arith, exact, sum)),
              positive layers,
            ),
            written lowered,
            remains (omega (arith, exact, positive layers)),
          )
  ]
]
  where
    i : ℕ
    i = tile_index p

    counted : IsCounted c
    counted = (v (chunk_position p) c h).0

    some_layer : 0 < c.tile_layer_count
    some_layer = (v (chunk_position p) c h).1

    bound : i < 256
    bound = (tile_index_injective p p w w).0

    lowered : ℕ
    lowered = (c.tile_layer_count + 2 ^ 16 - removed % 2 ^ 16) % 2 ^ 16

    exact : lowered + removed ≡ c.tile_layer_count
    exact = omega (
      arith,
      sum,
      total_bound c.tiles counted.tiles,
      counted.counted,
      counted.sized,
      length-get_or c.tiles i,
      (get_or-IsValid c.tiles i counted.tiles).bounded,
    )

    totals : total (set c.tiles i left) + length (chunk_tile c i) ≡ c.tile_layer_count + length left
    totals =
        omega
          (arith, total-set c.tiles i left (omega (arith, bound, counted.sized)), counted.counted)

    none_removed : ltb 0 removed ≡ false → removed ≡ 0
    none_removed e = ground arith

    zero_left : (lowered == 0) ≡ true → lowered ≡ 0
    zero_left e = ground arith

    positive : (lowered == 0) ≡ false → 0 < lowered
    positive e = ground arith

    written :
        (n : ℕ)
        → Changes m
            (store m
              (chunk_position p)
              (record { tile_layer_count = n; tiles = set c.tiles i left }))
            p
            left
    written n = store-Changes m p c n left w counted.sized (λ q e. layers_at-some m p q c h e)
