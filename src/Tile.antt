-- ===== src/Tile.antt =====
-- Source/SharedLib/Simulation/Private/TileMap/Tile.cpp. A layer's graphic set is known by its numeric
-- ID, and a layer type is the value of `TileLayer::Type`. A pointer to a layer is the layer.
pub mod Sorted
pub mod Removal
pub mod Search
mod Tests
use amalgam_engine.Prelude.{
  ℕ, zero, suc, ◌+◌, ◌-◌, Bool, true, false, ◌&&◌, List, [], ◌∷◌, Option, none, some, ltb, ◌==◌,
  if◌then◌else◌, length, get_or, take, drop,
}

pub record TileOffset : Type 0 where
  pub x : ℕ
  pub y : ℕ
  pub z : ℕ

pub record TileLayer : Type 0 where
  pub tile_offset : TileOffset
  pub type : ℕ
  pub graphic_value : ℕ
  pub graphic_set_id : ℕ

abbrev pub Tile : Type 0
Tile = List TileLayer

abbrev pub uint8_max : ℕ
uint8_max = 255

-- `layers.insert(std::lower_bound(...), newLayer)`: before the first layer that is not of a lower type.
unfoldable pub insert_layer : TileLayer → Tile → Tile
insert_layer n [] = n ∷ []
insert_layer n (l ∷ ls) = if ltb l.type n.type then l ∷ insert_layer n ls else n ∷ l ∷ ls

-- `addLayer`
unfoldable pub add_layer : Tile → TileOffset → ℕ → ℕ → ℕ → Tile
unfolding insert_layer
add_layer layers offset type set value =
    if length layers == uint8_max
    then layers
    else insert_layer
        (record { tile_offset = offset; type = type; graphic_value = value; graphic_set_id = set })
        layers

-- The loop that the overloads of `removeLayers` share: erase the matching layers, and stop at the
-- type behind the desired one. The result has the number of erased layers.
unfoldable pub remove_loop : (TileLayer → Bool) → ℕ → Tile → Tile × ℕ
remove_loop matches type [] = ([], 0)
remove_loop matches type (l ∷ ls) =
    let rest = remove_loop matches type ls in
    if matches l
    then (rest.0, rest.1 + 1)
    else if l.type == type + 1
    then (l ∷ ls, 0)
    else (l ∷ rest.0, rest.1)

abbrev pub same_offset : TileOffset → TileOffset → Bool
same_offset a b = a.x == b.x && (a.y == b.y && a.z == b.z)

-- The conditions of the three overloads.
abbrev pub matches_all : TileOffset → ℕ → ℕ → ℕ → TileLayer → Bool
matches_all offset type set value l =
    same_offset l.tile_offset offset
    && (l.type == type && (l.graphic_value == value && l.graphic_set_id == set))

abbrev pub matches_set : ℕ → ℕ → ℕ → TileLayer → Bool
matches_set type set value l =
    l.type == type && (l.graphic_value == value && l.graphic_set_id == set)

abbrev pub matches_value : ℕ → ℕ → TileLayer → Bool
matches_value type value l = l.type == type && l.graphic_value == value

-- `removeLayers(offset, type, set, value)`
unfoldable pub remove_layers : Tile → TileOffset → ℕ → ℕ → ℕ → Tile × ℕ
unfolding remove_loop
remove_layers layers offset type set value =
    remove_loop (matches_all offset type set value) type layers

-- `removeLayers(type, set, value)`
unfoldable pub remove_layers_of_set : Tile → ℕ → ℕ → ℕ → Tile × ℕ
unfolding remove_loop
remove_layers_of_set layers type set value = remove_loop (matches_set type set value) type layers

-- `removeLayers(type, value)`
unfoldable pub remove_layers_of_value : Tile → ℕ → ℕ → Tile × ℕ
unfolding remove_loop
remove_layers_of_value layers type value = remove_loop (matches_value type value) type layers

-- `std::erase_if`
unfoldable pub erase_if : (TileLayer → Bool) → Tile → Tile
erase_if p [] = []
erase_if p (l ∷ ls) = if p l then erase_if p ls else l ∷ erase_if p ls

-- `clearLayers`
unfoldable pub clear_layers : Tile → List Bool → Tile × ℕ
unfolding erase_if
clear_layers layers types_to_clear =
    let kept = erase_if (λ l. get_or types_to_clear l.type false) layers in
    (kept, length layers - length kept)

-- `clear`
unfoldable pub clear : Tile → Tile × ℕ
clear layers = ([], length layers)

-- The loop of `getLayers`: the index of the first match and the one behind the last.
unfoldable pub range_loop : ℕ → Tile → ℕ → Option (ℕ × ℕ) → Option (ℕ × ℕ)
range_loop type [] i found = found
range_loop type (l ∷ ls) i found =
    let first = range_loop type ls (i + 1) (some (i, i + 1)) in
    let moved = λ (b : ℕ). range_loop type ls (i + 1) (some (b, i + 1)) in
    let skipped = range_loop type ls (i + 1) found in
    if l.type == type
    then elim found [ none ↦ first | some (b, e) ↦ moved b ]
    else if l.type == type + 1
    then found
    else skipped

-- `getLayers`: the span between the two.
unfoldable pub get_layers : Tile → ℕ → Tile
unfolding range_loop
get_layers layers type = elim (range_loop type layers 0 none) [
  | none ↦ []
  | some (b, e) ↦ take (e - b) (drop b layers)
]

-- The loop that the overloads of `findLayer` share.
unfoldable pub find_loop : (TileLayer → Bool) → ℕ → Tile → Option TileLayer
find_loop matches type [] = none
find_loop matches type (l ∷ ls) =
    let rest = find_loop matches type ls in
    if matches l then some l else if l.type == type + 1 then none else rest

-- `findLayer(type, value)`
unfoldable pub find_layer : Tile → ℕ → ℕ → Option TileLayer
unfolding find_loop
find_layer layers type value = find_loop (matches_value type value) type layers

-- `findLayer(type)`
unfoldable pub find_layer_of_type : Tile → ℕ → Option TileLayer
unfolding find_loop
find_layer_of_type layers type = find_loop (λ l. l.type == type) type layers
