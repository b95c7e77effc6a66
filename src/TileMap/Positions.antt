-- ===== src/TileMap/Positions.antt =====
-- Source/SharedLib/Simulation/Private/TileMap/ChunkPosition.cpp and Chunk.cpp: where a tile is kept.
-- The division is one of `std::size_t`, since `CHUNK_WIDTH` is one; an `int` is an integer of 32 bits.
use amalgam_engine.Prelude.{
  ℕ, ◌+◌, ◌-◌, ◌*◌, ◌/◌, ◌%◌, ◌^◌, ◌≡◌, ◌↔◌, refl, Bool, true, ◌&&◌, ltb, ◌==◌, if◌then◌else◌,
  arith,
}
use amalgam_engine.Prelude.Int.{ℤ, pos, negsuc, ◌-ℤ◌, pos_part, neg_part}
use amalgam_engine.Prelude.Map.{Eq}
use amalgam_engine.DiscreteExtent.{DiscretePosition}
use amalgam_engine.Morton.{encode16x16}

-- `operator==` of positions, for the map of chunks.
abbrev pub beq_ℤ : ℤ → ℤ → Bool
beq_ℤ a b = pos_part a == pos_part b && neg_part a == neg_part b

abbrev pub beq_position : DiscretePosition → DiscretePosition → Bool
beq_position a b = beq_ℤ a.x b.x && (beq_ℤ a.y b.y && beq_ℤ a.z b.z)

beq_ℤ_sound : (a b : ℤ) → beq_ℤ a b ≡ true → a ≡ b
beq_ℤ_sound a b h = ground arith

beq_ℤ_refl : (a : ℤ) → beq_ℤ a a ≡ true
beq_ℤ_refl a = ground arith

pub position_iff : (a b : DiscretePosition) → (beq_position a b ≡ true) ↔ (a ≡ b)
position_iff a b = (sound, complete)
  where
    sound : beq_position a b ≡ true → a ≡ b
    sound h =
        let x = beq_ℤ_sound a.x b.x (ground arith) in
        let y = beq_ℤ_sound a.y b.y (ground arith) in
        let z = beq_ℤ_sound a.z b.z (ground arith) in cc

    complete : a ≡ b → beq_position a b ≡ true
    complete q = rw (q, beq_ℤ_refl b.x, beq_ℤ_refl b.y, beq_ℤ_refl b.z) refl

instance abbrev pub position_eq : Eq DiscretePosition
position_eq = record { beq = beq_position; beq_iff = position_iff }

-- The conversions to `std::size_t`, from it to `int`, and to `Uint16`.
abbrev pub to_size : ℤ → ℕ
to_size (pos n) = n % 2 ^ 64
to_size (negsuc n) = 2 ^ 64 - 1 - n % 2 ^ 64

abbrev pub to_int : ℕ → ℤ
to_int n = if ltb (n % 2 ^ 32) (2 ^ 31) then pos (n % 2 ^ 32) else negsuc (2 ^ 32 - 1 - n % 2 ^ 32)

abbrev pub to_uint16 : ℤ → ℕ
to_uint16 (pos n) = n % 2 ^ 16
to_uint16 (negsuc n) = 2 ^ 16 - 1 - n % 2 ^ 16

-- `SharedConfig::CHUNK_WIDTH`
abbrev pub chunk_width : ℕ
chunk_width = 16

-- One axis of `ChunkPosition(tilePosition)`.
unfoldable pub chunk_axis : ℤ → ℤ
chunk_axis x = to_int (to_size x / chunk_width)

unfoldable pub chunk_position : DiscretePosition → DiscretePosition
unfolding chunk_axis
chunk_position p = record { x = chunk_axis p.x; y = chunk_axis p.y; z = p.z }

-- `chunkPosition.x * CHUNK_WIDTH`
abbrev pub chunk_origin : ℤ → ℤ
chunk_origin (pos n) = pos (n * chunk_width)
chunk_origin (negsuc n) = negsuc (n * chunk_width + 15)

-- One axis of the tile's relative position within the chunk, as `Chunk::getTile` takes it.
unfoldable pub relative : ℤ → ℕ
unfolding chunk_axis
relative x = to_uint16 (x -ℤ chunk_origin (chunk_axis x))

-- The index of `Chunk::getTile`.
unfoldable pub tile_index : DiscretePosition → ℕ
unfolding relative
tile_index p = encode16x16 (relative p.x % 2 ^ 8) (relative p.y % 2 ^ 8)
