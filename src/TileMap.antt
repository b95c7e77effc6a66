-- ===== src/TileMap.antt =====
-- Source/SharedLib/Simulation/Private/TileMap/TileMapBase.cpp, with Chunk.cpp and the tile to chunk
-- conversion of ChunkPosition.cpp. A tile is known by its chunk's position and its index there; the
-- calls of the collision locator are recorded. To read a tile whose chunk has been erased is undefined
-- behaviour, and gives `none`. The assertions are those of a release build: off.
pub mod Positions
pub mod Addresses
pub mod Counts
pub mod Places
pub mod Removal
pub mod Edits
pub mod Clearing
mod Tests
use amalgam_engine.Prelude.{
  ℕ, ◌+◌, ◌-◌, ◌/◌, ◌%◌, ◌^◌, inl, inr, ◌⊎◌, Bool, true, false, ◌&&◌, List, [], ◌∷◌, ◌++◌, Option,
  none, some, ltb, leb, ◌==◌, if◌then◌else◌, get_or, set, replicate,
}
use amalgam_engine.Prelude.Map.{lookup, insert, erase}
use amalgam_engine.DiscreteExtent.{DiscretePosition, DiscreteExtent, contains}
use amalgam_engine.Tile.{
  TileOffset, TileLayer, Tile, add_layer, remove_layers, clear_layers, clear, find_layer_of_type,
}
use amalgam_engine.TileMap.Positions.{position_eq, chunk_position, tile_index}

pub record Chunk : Type 0 where
  pub tile_layer_count : ℕ
  pub tiles : List Tile

pub data ChunkError : Type 0 where
  invalid_position not_found : ChunkError

pub data TileUpdate : Type 0 where
  tile_add_layer tile_remove_layer : DiscretePosition → TileLayer → TileUpdate
  tile_clear_layers : DiscretePosition → List Bool → TileUpdate

pub record TileMap : Type 0 where
  pub chunk_extent : DiscreteExtent
  pub chunks : List (DiscretePosition × Chunk)
  pub auto_rebuild_collision : Bool
  pub dirty_collision_queue : List DiscretePosition
  pub track_tile_updates : Bool
  pub tile_update_history : List TileUpdate
  -- the calls `collisionLocator.updateTile(position, tile)`
  pub updated_tiles : List (DiscretePosition × Tile)

-- `TileLayer::Type`
abbrev pub terrain : ℕ
terrain = 0

abbrev pub floor : ℕ
floor = 1

abbrev pub object : ℕ
object = 3

abbrev pub no_offset : TileOffset
no_offset = record { x = 0; y = 0; z = 0 }

-- `Terrain::MAX_COMBINED_HEIGHT`
abbrev pub max_combined_height : ℕ
max_combined_height = 4

abbrev pub empty_chunk : Chunk
empty_chunk = record { tile_layer_count = 0; tiles = replicate 256 [] }

-- `Chunk::getTile`
abbrev pub chunk_tile : Chunk → ℕ → Tile
chunk_tile c i = get_or c.tiles i []

-- `getChunk`, not const.
unfoldable pub get_chunk : TileMap → DiscretePosition → Chunk ⊎ ChunkError
get_chunk m cp =
    if contains m.chunk_extent cp
    then elim (lookup cp m.chunks) [ none ↦ inr not_found | some c ↦ inl c ]
    else inr invalid_position

-- `getTile`, const.
unfoldable pub get_tile : TileMap → DiscretePosition → Option Tile
get_tile m p = elim (lookup (chunk_position p) m.chunks) [
  | none ↦ none
  | some c ↦ some (chunk_tile c (tile_index p))
]

-- The chunk part of `getOrCreateTile`: the chunk, created in the map if it was not there.
unfoldable pub get_or_create_chunk : TileMap → DiscretePosition → Option Chunk
unfolding get_chunk
get_or_create_chunk m cp = elim (get_chunk m cp) [
  | inl c ↦ some c
  | inr not_found ↦ some empty_chunk
  | inr invalid_position ↦ none
]

-- The chunk's object in the map, changed.
abbrev pub store : TileMap → DiscretePosition → Chunk → TileMap
store m cp c = record m { chunks = insert cp c m.chunks }

-- A new graphic set and value for a tile's terrain, which is its first layer of that type.
unfoldable pub replace_terrain : ℕ → ℕ → Tile → Tile
replace_terrain set value [] = []
replace_terrain set value (l ∷ ls) =
    if l.type == terrain
    then record l { graphic_set_id = set; graphic_value = value } ∷ ls
    else l ∷ replace_terrain set value ls

-- `addTileLayer(chunk, tile, ...)`
unfoldable pub add_to_chunk : Chunk → ℕ → TileLayer → Chunk
unfolding replace_terrain
add_to_chunk c i n =
    let tile = chunk_tile c i in
    let added : Chunk = record {
      tile_layer_count = (c.tile_layer_count + 1) % 2 ^ 16;
      tiles = set c.tiles i (add_layer tile n.tile_offset n.type n.graphic_set_id n.graphic_value);
    } in
    let replaced : Chunk = record c {
      tiles = set c.tiles i (replace_terrain n.graphic_set_id n.graphic_value tile);
    } in
    if n.type == terrain
    then elim (find_layer_of_type tile terrain) [ none ↦ added | some l ↦ replaced ]
    else added

-- `rebuildTileCollision`: the tile is read only if auto rebuild is enabled.
unfoldable pub rebuild_tile_collision : TileMap → DiscretePosition → Option Tile → Option TileMap
rebuild_tile_collision m p tile =
    if m.auto_rebuild_collision
    then elim tile [
      | none ↦ none
      | some t ↦ some (record m { updated_tiles = m.updated_tiles ++ (p, t) ∷ [] })
    ]
    else some (record m { dirty_collision_queue = m.dirty_collision_queue ++ p ∷ [] })

-- "If we're tracking tile updates, add this one to the history."
unfoldable pub track : TileMap → TileUpdate → TileMap
track m u =
    if m.track_tile_updates
    then record m { tile_update_history = m.tile_update_history ++ u ∷ [] }
    else m

-- The steps that `addTerrain`, `addFloor` and `addObject` share.
unfoldable pub add_tile_layer : TileMap → DiscretePosition → TileLayer → Option TileMap
unfolding get_or_create_chunk add_to_chunk rebuild_tile_collision track
add_tile_layer m p n = elim (get_or_create_chunk m (chunk_position p)) [
  | none ↦ some m
  | some c ↦
      let added = add_to_chunk c (tile_index p) n in
      elim (rebuild_tile_collision (store m (chunk_position p) added) p
        (some (chunk_tile added (tile_index p)))) [
          | none ↦ none
          | some t ↦ some (track t (tile_add_layer p n))
        ]
]

-- `addTerrain`
unfoldable pub add_terrain : TileMap → DiscretePosition → ℕ → ℕ → Option TileMap
unfolding add_tile_layer
add_terrain m p set value =
    if leb max_combined_height (value / 2 ^ 4 + value % 2 ^ 4)
    then some m
    else add_tile_layer m p (record {
      tile_offset = no_offset;
      type = terrain;
      graphic_value = value;
      graphic_set_id = set;
    })

-- `addFloor`
unfoldable pub add_floor : TileMap → DiscretePosition → TileOffset → ℕ → ℕ → Option TileMap
unfolding add_tile_layer
add_floor m p offset set rotation =
    add_tile_layer m p (record {
      tile_offset = offset;
      type = floor;
      graphic_value = rotation;
      graphic_set_id = set;
    })

-- `addObject`
unfoldable pub add_object : TileMap → DiscretePosition → TileOffset → ℕ → ℕ → Option TileMap
unfolding add_tile_layer
add_object m p offset set rotation =
    add_tile_layer m p (record {
      tile_offset = offset;
      type = object;
      graphic_value = rotation;
      graphic_set_id = set;
    })

-- The end of each removal, with the tile's remaining layers and the number of those removed: the tile
-- is gone if its chunk is erased.
unfoldable pub lower_count :
    TileMap → DiscretePosition → Chunk → ℕ → Tile × ℕ → TileMap × Option Tile
lower_count m cp c i (left, removed) =
    let count = (c.tile_layer_count + 2 ^ 16 - removed % 2 ^ 16) % 2 ^ 16 in
    if ltb 0 removed
    then (if count == 0 then (record m { chunks = erase cp m.chunks }, none) else (
      store m cp (record { tile_layer_count = count; tiles = set c.tiles i left }),
      some left,
    ))
    else (store m cp (record c { tiles = set c.tiles i left }), some left)

-- The steps that `remFloor` and `remObject` share.
unfoldable pub rem_tile_layer : TileMap → DiscretePosition → TileLayer → Option (TileMap × Bool)
unfolding get_chunk lower_count rebuild_tile_collision track
rem_tile_layer m p l = elim (get_chunk m (chunk_position p)) [
  | inr error ↦ some (m, false)
  | inl c ↦
      let removed =
        remove_layers (chunk_tile c (tile_index p)) l.tile_offset l.type l.graphic_set_id
          l.graphic_value in
      let result = lower_count m (chunk_position p) c (tile_index p) removed in
      elim (rebuild_tile_collision result.0 p result.1) [
        | none ↦ none
        | some t ↦ some (track t (tile_remove_layer p l), true)
      ]
]

-- `remFloor`
unfoldable pub rem_floor : TileMap → DiscretePosition → TileOffset → ℕ → ℕ → Option (TileMap × Bool)
unfolding rem_tile_layer
rem_floor m p offset set rotation =
    rem_tile_layer m p (record {
      tile_offset = offset;
      type = floor;
      graphic_value = rotation;
      graphic_set_id = set;
    })

-- `remObject`
unfoldable pub rem_object :
    TileMap → DiscretePosition → TileOffset → ℕ → ℕ → Option (TileMap × Bool)
unfolding rem_tile_layer
rem_object m p offset set rotation =
    rem_tile_layer m p (record {
      tile_offset = offset;
      type = object;
      graphic_value = rotation;
      graphic_set_id = set;
    })

-- `clearTileLayersInternal`; `none` is its null pointer, and else the tile may be gone.
unfoldable pub clear_tile_layers_internal :
    TileMap → DiscretePosition → List Bool → Option (TileMap × Option Tile)
unfolding get_chunk lower_count
clear_tile_layers_internal m p types = elim (get_chunk m (chunk_position p)) [
  | inr error ↦ none
  | inl c ↦
      let tile = chunk_tile c (tile_index p) in
      let cleared =
        if get_or types terrain false
          && (get_or types floor false && (get_or types 2 false && get_or types object false))
        then clear tile
        else clear_layers tile types in
      if ltb 0 cleared.1
      then some (lower_count m (chunk_position p) c (tile_index p) cleared)
      else none
]

-- `clearTileLayers`
unfoldable pub clear_tile_layers : TileMap → DiscretePosition → List Bool → Option (TileMap × Bool)
unfolding clear_tile_layers_internal rebuild_tile_collision track
clear_tile_layers m p types = elim (clear_tile_layers_internal m p types) [
  | none ↦ some (track m (tile_clear_layers p types), false)
  | some (t, tile) ↦ elim (rebuild_tile_collision t p tile) [
    | none ↦ none
    | some u ↦ some (track u (tile_clear_layers p types), true)
  ]
]

-- `remTerrain` and `clearTile`
unfoldable pub rem_terrain : TileMap → DiscretePosition → Option (TileMap × Bool)
unfolding clear_tile_layers
rem_terrain m p = clear_tile_layers m p (true ∷ false ∷ false ∷ false ∷ [])

unfoldable pub clear_tile : TileMap → DiscretePosition → Option (TileMap × Bool)
unfolding clear_tile_layers
clear_tile m p = clear_tile_layers m p (true ∷ true ∷ true ∷ true ∷ [])
