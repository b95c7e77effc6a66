-- ===== src/TileMap/Addresses.antt =====
-- Each tile position has a place of its own.
use amalgam_engine.Prelude.{ℕ, ◌/◌, ◌%◌, ◌^◌, ◌≤◌, ◌<◌, ◌≡◌, ap, sym, ◌∙◌, arith}
use amalgam_engine.Prelude.Int.{ℤ, pos, negsuc, ◌+ℤ◌, ◌-ℤ◌, pos_part, neg_part}
use amalgam_engine.DiscreteExtent.{DiscretePosition}
use amalgam_engine.Morton.{decode16x16}
use amalgam_engine.Morton.Codes.{encode16x16_codes}
use amalgam_engine.TileMap.Positions.{
  chunk_width, chunk_axis, chunk_position, chunk_origin, relative, tile_index,
}

-- A value of an `int`.
abbrev pub IsInt : ℤ → Type 0
IsInt x = (pos_part x < 2 ^ 31) × (neg_part x ≤ 2 ^ 31)

chunk_axis_pos : (n : ℕ) → n < 2 ^ 31 → chunk_axis (pos n) ≡ pos (n / 16)
unfolding chunk_axis
chunk_axis_pos n h = ground arith

chunk_axis_negsuc : (n : ℕ) → n < 2 ^ 31 → chunk_axis (negsuc n) ≡ negsuc (n / 16)
unfolding chunk_axis
chunk_axis_negsuc n h = ground arith

-- The division rounds down, also below 0.
relative_lem :
    (x : ℤ)
    → IsInt x
    → (relative x < chunk_width) × (x ≡ chunk_origin (chunk_axis x) +ℤ pos (relative x))
unfolding relative ◌+ℤ◌ ◌-ℤ◌
relative_lem (pos n) (h, k) = rw (relative, chunk_axis_pos n h) (ground arith, ground arith)
relative_lem (negsuc n) (h, k) =
    rw (relative, chunk_axis_negsuc n (omega arith)) (ground arith, ground arith)

-- The three coordinates of a tile position are values of an `int`.
pub record IsIntPosition (p : DiscretePosition) : Type 0 where
  pub x : IsInt p.x
  pub y : IsInt p.y
  pub z : IsInt p.z

tile_index_lem :
    (p : DiscretePosition)
    → IsIntPosition p
    → (tile_index p < 256) × (decode16x16 (tile_index p) ≡ (relative p.x, relative p.y))
unfolding tile_index
tile_index_lem p v =
    let (hx, _) = relative_lem p.x v.x in
    let (hy, _) = relative_lem p.y v.y in
    rw (tile_index, below _ hx, below _ hy)
      (let (a, b, _) = encode16x16_codes (relative p.x) (relative p.y) hx hy in (a, b))
  where
    below : (n : ℕ) → n < 16 → n % 2 ^ 8 ≡ n
    below n h = omega arith

-- In each chunk a tile position has one of the 256 places, and no two positions share a place in the
-- same chunk. The coordinates, which may be negative, are 32-bit integers.
pub tile_index_injective :
    (p q : DiscretePosition)
    → IsIntPosition p
    → IsIntPosition q
    → (tile_index p < 256)
      × (chunk_position p ≡ chunk_position q → tile_index p ≡ tile_index q → p ≡ q)
unfolding chunk_position
tile_index_injective p q v w =
    let (bound, dp) = tile_index_lem p v in
    let (_, dq) = tile_index_lem q w in
    let (_, px) = relative_lem p.x v.x in
    let (_, py) = relative_lem p.y v.y in
    let (_, qx) = relative_lem q.x w.x in
    let (_, qy) = relative_lem q.y w.y in
    (
      bound,
      λ chunk index.
          let cx = ap (λ (c : DiscretePosition). c.x) chunk in
          let cy = ap (λ (c : DiscretePosition). c.y) chunk in
          let cz = ap (λ (c : DiscretePosition). c.z) chunk in
          let both = sym dp ∙ ap decode16x16 index ∙ dq in
          let rx = ap (λ (r : ℕ × ℕ). r.0) both in
          let ry = ap (λ (r : ℕ × ℕ). r.1) both in
          let ex = px ∙ place p.x q.x cx rx ∙ sym qx in
          let ey = py ∙ place p.y q.y cy ry ∙ sym qy in cc (ex, ey, cz),
    )
  where
    place :
        (a b : ℤ)
        → chunk_axis a ≡ chunk_axis b
        → relative a ≡ relative b
        → chunk_origin (chunk_axis a) +ℤ pos (relative a)
          ≡ chunk_origin (chunk_axis b) +ℤ pos (relative b)
    place a b c r = cc
