-- ===== src/Tile/Tests.antt =====
-- Instances of the theorems on a tile's layers.
use amalgam_engine.Prelude.{ℕ, ◌+◌, ◌≡◌, [], ◌∷◌, ◌==◌, if◌then◌else◌, arith, length}
use amalgam_engine.Tile.{
  TileOffset, TileLayer, Tile, uint8_max, add_layer, matches_all, matches_set, matches_value,
  remove_layers, remove_layers_of_set, remove_layers_of_value, erase_if,
}
use amalgam_engine.Tile.Sorted.{count, IsValid, add_layer_lem}
use amalgam_engine.Tile.Removal.{remove_layers_lem}

abbrev origin : TileOffset
origin = record { x = 0; y = 0; z = 0 }

-- A floor (type 1) and two walls (type 2).
abbrev layer : ℕ → ℕ → TileLayer
layer type value = record {
  tile_offset = origin;
  type = type;
  graphic_value = value;
  graphic_set_id = 4;
}

abbrev room : Tile
room = layer 1 0 ∷ layer 2 0 ∷ layer 2 3 ∷ []

room-IsValid : IsValid room
room-IsValid = record {
  sorted = ((omega arith, (omega arith, tt)), ((omega arith, tt), (tt, tt)));
  bounded = omega arith;
}

add_layer_lem_example :
    IsValid (add_layer room origin 1 4 9)
    × (count (λ l. l.type == 1) (add_layer room origin 1 4 9) ≡ (
        if length room == uint8_max
        then count (λ l. l.type == 1) room
        else (if (layer 1 9).type == 1 then 1 else 0) + count (λ l. l.type == 1) room))
add_layer_lem_example = add_layer_lem room origin 1 4 9 (λ l. l.type == 1) room-IsValid

remove_layers_lem_example :
    (remove_layers room origin 2 4 3
      ≡ (erase_if (matches_all origin 2 4 3) room, count (matches_all origin 2 4 3) room))
    × (remove_layers_of_set room 2 4 3
        ≡ (erase_if (matches_set 2 4 3) room, count (matches_set 2 4 3) room))
    × (remove_layers_of_value room 2 3
        ≡ (erase_if (matches_value 2 3) room, count (matches_value 2 3) room))
    × IsValid (remove_layers room origin 2 4 3).0
    × IsValid (remove_layers_of_set room 2 4 3).0
    × IsValid (remove_layers_of_value room 2 3).0
remove_layers_lem_example = remove_layers_lem room origin 2 4 3 room-IsValid
