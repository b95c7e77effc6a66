-- ===== src/TileMap/Tests.antt =====
-- Instances of the theorems on the map, for a map of four chunks.
use amalgam_engine.Prelude.{
  ℕ, ◌<◌, ◌≡◌, refl, ◌⊎◌, Bool, true, false, List, [], ◌∷◌, none, some, length, arith,
}
use amalgam_engine.Prelude.Int.{ℤ, pos, negsuc, ◌+ℤ◌, ◌-ℤ◌}
use amalgam_engine.Prelude.Map.{lookup, insert}
use amalgam_engine.DiscreteExtent.{DiscretePosition, contains}
use amalgam_engine.Tile.{TileLayer, uint8_max, matches_all, erase_if}
use amalgam_engine.Tile.Sorted.{count}
use amalgam_engine.Morton.{encode16x16}
use amalgam_engine.TileMap.Positions.{position_eq, chunk_position, tile_index}
use amalgam_engine.TileMap.Addresses.{IsIntPosition, tile_index_injective}
use amalgam_engine.TileMap.Counts.{IsValid, empty_chunk-IsCounted, add_to_chunk-IsCounted}
use amalgam_engine.TileMap.Places.{layers_at, Changes}
use amalgam_engine.TileMap.Removal.{store-IsValid}
use amalgam_engine.TileMap.Edits.{Rebuilt, with_layer, add_tile_layer_lem}
use amalgam_engine.TileMap.Clearing.{rem_tile_layer_lem}
use amalgam_engine.TileMap.{
  Chunk, TileMap, empty_chunk, chunk_tile, store, add_to_chunk, add_tile_layer, rem_tile_layer,
  no_offset,
}

abbrev at_tile : ℤ → DiscretePosition
at_tile x = record { x = x; y = pos 7; z = pos 0 }

abbrev bare : TileMap
bare = record {
  chunk_extent = record {
    x = negsuc 0;
    y = pos 0;
    z = pos 0;
    x_length = pos 2;
    y_length = pos 2;
    z_length = pos 1;
  };
  chunks = [];
  auto_rebuild_collision = true;
  dirty_collision_queue = [];
  track_tile_updates = true;
  tile_update_history = [];
  updated_tiles = [];
}

abbrev grass : TileLayer
grass = record { tile_offset = no_offset; type = 1; graphic_value = 2; graphic_set_id = 9 }

-- One floor in the chunk at the origin.
abbrev meadow_chunk : Chunk
meadow_chunk = add_to_chunk empty_chunk (tile_index (at_tile (pos 5))) grass

abbrev meadow : TileMap
meadow = store bare (chunk_position (at_tile (pos 5))) meadow_chunk

bare-IsValid : IsValid bare
unfolding lookup
bare-IsValid cp c h = absurd (cc h)

at_tile-IsIntPosition : (n : ℕ) → n < 1000 → IsIntPosition (at_tile (pos n))
at_tile-IsIntPosition n h = record {
  x = (omega arith, omega arith);
  y = (omega arith, omega arith);
  z = (omega arith, omega arith);
}

west-IsIntPosition : IsIntPosition (at_tile (negsuc 4))
west-IsIntPosition = record {
  x = (omega arith, omega arith);
  y = (omega arith, omega arith);
  z = (omega arith, omega arith);
}

five : IsIntPosition (at_tile (pos 5))
five = at_tile-IsIntPosition 5 (omega arith)

inside : contains bare.chunk_extent (chunk_position (at_tile (pos 5))) ≡ true
unfolding contains chunk_position ◌+ℤ◌
inside = refl

outside : contains bare.chunk_extent (chunk_position (at_tile (pos 90))) ≡ false
unfolding contains chunk_position ◌+ℤ◌
outside = refl

room : length (chunk_tile empty_chunk (tile_index (at_tile (pos 5)))) < uint8_max
unfolding tile_index encode16x16 ◌-ℤ◌
room = omega arith

meadow-IsValid : IsValid meadow
meadow-IsValid = store-IsValid bare (chunk_position (at_tile (pos 5))) meadow_chunk bare-IsValid (
    add_to_chunk-IsCounted empty_chunk (tile_index (at_tile (pos 5))) grass empty_chunk-IsCounted
      ((tile_index_injective (at_tile (pos 5)) (at_tile (pos 5)) five five).0) room)

meadow_found : lookup (chunk_position (at_tile (pos 5))) meadow.chunks ≡ some meadow_chunk
unfolding lookup insert chunk_position
meadow_found = refl

no_layers : length (layers_at bare (at_tile (pos 5))) < uint8_max
unfolding lookup
no_layers = omega arith

add_tile_layer_lem_example :
    (t : TileMap) × (add_tile_layer bare (at_tile (pos 5)) grass ≡ some t)
    × IsValid t
    × Changes bare t (at_tile (pos 5)) (with_layer grass (layers_at bare (at_tile (pos 5))))
    × Rebuilt bare t (at_tile (pos 5)) (with_layer grass (layers_at bare (at_tile (pos 5))))
add_tile_layer_lem_example =
    add_tile_layer_lem bare (at_tile (pos 5)) grass bare-IsValid five inside no_layers

rem_tile_layer_lem_example :
    let matches = matches_all no_offset 1 9 2 in
    ((true ≡ true)
      × (count matches (layers_at meadow (at_tile (pos 5))) ≡ meadow_chunk.tile_layer_count)
      × (rem_tile_layer meadow (at_tile (pos 5)) grass ≡ none))
    ⊎ (((true ≡ false)
          ⊎ (count matches (layers_at meadow (at_tile (pos 5))) < meadow_chunk.tile_layer_count))
        × ((t : TileMap) × (rem_tile_layer meadow (at_tile (pos 5)) grass ≡ some (t, true))
            × IsValid t
            × Changes meadow t
                (at_tile (pos 5))
                (erase_if matches (layers_at meadow (at_tile (pos 5))))))
rem_tile_layer_lem_example =
    rem_tile_layer_lem meadow (at_tile (pos 5)) grass meadow_chunk meadow-IsValid five inside
      meadow_found

abbrev walls_only : List Bool
walls_only = false ∷ false ∷ true ∷ false ∷ []
