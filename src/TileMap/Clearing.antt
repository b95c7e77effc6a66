-- ===== src/TileMap/Clearing.antt =====
-- Removing layers from a tile.
use amalgam_engine.Prelude.{
  ℕ, ◌+◌, ◌<◌, ◌≡◌, refl, ap, sym, ◌∙◌, subst, inl, inr, ◌⊎◌, Bool, true, false, ◌&&◌, List, [],
  Option, none, some, if◌then◌else◌, length, get_or,
}
use amalgam_engine.Prelude.Map.{lookup}
use amalgam_engine.DiscreteExtent.{DiscretePosition, contains}
use amalgam_engine.Tile.{TileLayer, Tile, remove_layers, erase_if, matches_all, clear_layers, clear}
use amalgam_engine.Tile.Sorted.{IsValid as IsValidTile, count}
use amalgam_engine.Tile.Removal.{remove_layers_lem, length-erase_if}
use amalgam_engine.TileMap.Positions.{position_eq, tile_index, chunk_position}
use amalgam_engine.TileMap.Addresses.{IsIntPosition}
use amalgam_engine.TileMap.Counts.{IsValid, get_or-IsValid}
use amalgam_engine.TileMap.Places.{layers_at, Changes, Changes-same_chunks, layers_at-some}
use amalgam_engine.TileMap.Edits.{
  rebuild_some, rebuild_erased, track-chunks, IsValid-same_chunks, lower_count-auto,
}
use amalgam_engine.TileMap.Removal.{remains, erased, Lowered, lower_count_lem}
use amalgam_engine.TileMap.{
  Chunk, TileMap, tile_remove_layer, tile_clear_layers, chunk_tile, get_chunk, get_or_create_chunk,
  lower_count, rebuild_tile_collision, track, add_tile_layer, rem_tile_layer,
  clear_tile_layers_internal, clear_tile_layers, terrain, floor, object,
}

-- The end of a removal with the rebuilding of its tile: it either is undefined, for the tile is read
-- behind the end of its chunk, or it gives the map.
finish_removal :
    (m : TileMap) (p : DiscretePosition) (c : Chunk) (r : Tile × ℕ) (x : TileMap × Option Tile)
    → Lowered m p c r x
    → x.0.auto_rebuild_collision ≡ m.auto_rebuild_collision
    → ((m.auto_rebuild_collision ≡ true)
        × (r.1 ≡ c.tile_layer_count)
        × (rebuild_tile_collision x.0 p x.1 ≡ none))
      ⊎ (((m.auto_rebuild_collision ≡ false) ⊎ (r.1 < c.tile_layer_count))
          × ((t : TileMap) × (rebuild_tile_collision x.0 p x.1 ≡ some t) × (t.chunks ≡ x.0.chunks)))
finish_removal m p c r (u, some y) (valid, changes, remains less) same =
    let (t, q, chunks) = rebuild_some u p y in inr (inr less, (t, q, chunks))
finish_removal m p c r (u, none) (valid, changes, erased all) same = elim (rebuild_erased u p) [
  | inl gone ↦ inl (sym same ∙ gone.0, all, gone.1)
  | inr queued ↦ inr (inl (sym same ∙ queued.0), queued.1)
]

get_chunk_found :
    (m : TileMap) (cp : DiscretePosition) (c : Chunk)
    → contains m.chunk_extent cp ≡ true
    → lookup cp m.chunks ≡ some c
    → get_chunk m cp ≡ inl c
unfolding get_chunk
get_chunk_found m cp c inside h = rw (get_chunk, inside, h) refl

-- `remFloor` and `remObject` on a chunk of the map: the layers of the tile that match are removed
-- and the others keep their order, no other tile changes, each chunk's count remains the number of its
-- layers, and a chunk that has lost its last layer is erased. The result is true, even if no layer
-- matched. With auto rebuild, the removal of a chunk's last layers has no result: the tile is read
-- behind the end of its chunk.
pub rem_tile_layer_lem :
    (m : TileMap) (p : DiscretePosition) (l : TileLayer) (c : Chunk)
    → IsValid m
    → IsIntPosition p
    → contains m.chunk_extent (chunk_position p) ≡ true
    → lookup (chunk_position p) m.chunks ≡ some c
    → let matches = matches_all l.tile_offset l.type l.graphic_set_id l.graphic_value in
      ((m.auto_rebuild_collision ≡ true)
        × (count matches (layers_at m p) ≡ c.tile_layer_count)
        × (rem_tile_layer m p l ≡ none))
      ⊎ (((m.auto_rebuild_collision ≡ false) ⊎ (count matches (layers_at m p) < c.tile_layer_count))
          × ((t : TileMap) × (rem_tile_layer m p l ≡ some (t, true))
              × IsValid t
              × Changes m t p (erase_if matches (layers_at m p))))
unfolding rem_tile_layer
rem_tile_layer_lem m p l c v w inside h =
    let i = tile_index p in
    let tile = chunk_tile c i in
    let at = layers_at-some m p p c h refl in
    let matches = matches_all l.tile_offset l.type l.graphic_set_id l.graphic_value in
    let valid = get_or-IsValid c.tiles i (v (chunk_position p) c h).0.tiles in
    let (removes, _, _, left, _, _) =
      remove_layers_lem tile l.tile_offset l.type l.graphic_set_id l.graphic_value valid in
    let r = remove_layers tile l.tile_offset l.type l.graphic_set_id l.graphic_value in
    let sum : length r.0 + r.1 ≡ length tile = rw removes (length-erase_if matches tile) in
    let x = lower_count m (chunk_position p) c i r in
    let lowered = lower_count_lem m p c r v w h (left, sum) in
    let got = get_chunk_found m (chunk_position p) c inside h in
    let removed : r.1 ≡ count matches (layers_at m p) =
      ap (λ (y : Tile × ℕ). y.1) removes ∙ ap (count matches) (sym at) in
    let kept : r.0 ≡ erase_if matches (layers_at m p) =
      ap (λ (y : Tile × ℕ). y.0) removes ∙ ap (erase_if matches) (sym at) in
    let u = λ (t : TileMap). track t (tile_remove_layer p l) in
    elim (finish_removal m p c r x lowered (lower_count-auto m (chunk_position p) c i r)) [
      | inl (auto, all, gone) ↦ inl (auto, sym removed ∙ all, rw (rem_tile_layer, got, gone) refl)
      | inr (which, (t, q, same)) ↦ inr (
        subst (λ n. (m.auto_rebuild_collision ≡ false) ⊎ (n < c.tile_layer_count)) removed which,
        (
          u t,
          rw (rem_tile_layer, got, q) refl,
          IsValid-same_chunks x.0 (u t) (track-chunks t (tile_remove_layer p l) ∙ same) (lowered.0),
          subst (Changes m (u t) p) kept (
              Changes-same_chunks m x.0 (u t) p r.0 (track-chunks t (tile_remove_layer p l) ∙ same)
                (lowered.1)),
        ),
      )
    ]

abbrev pub clears_all : List Bool → Bool
clears_all types =
    get_or types terrain false
    && (get_or types floor false && (get_or types 2 false && get_or types object false))

-- The layers that clearing some types leaves.
abbrev pub uncleared : List Bool → Tile → Tile
uncleared types t = if clears_all types then [] else erase_if (λ l. get_or types l.type false) t

-- How a tile is cleared, wholly or by types.
abbrev cleared_tile : List Bool → Tile → Tile × ℕ
cleared_tile types t = if clears_all types then clear t else clear_layers t types

-- Outside the map's bounds nothing is added, removed or cleared, and nothing is undefined; clearing
-- still goes into the history, when that is tracked.
pub outside_ignored :
    (m : TileMap) (p : DiscretePosition) (l : TileLayer) (types : List Bool)
    → contains m.chunk_extent (chunk_position p) ≡ false
    → (add_tile_layer m p l ≡ some m)
      × (rem_tile_layer m p l ≡ some (m, false))
      × (clear_tile_layers m p types ≡ some (track m (tile_clear_layers p types), false))
unfolding add_tile_layer rem_tile_layer clear_tile_layers clear_tile_layers_internal get_chunk
    get_or_create_chunk
outside_ignored m p l types outside = (
  rw (add_tile_layer, get_or_create_chunk, get_chunk, outside) refl,
  rw (rem_tile_layer, get_chunk, outside) refl,
  rw (clear_tile_layers, clear_tile_layers_internal, get_chunk, outside) refl,
)
