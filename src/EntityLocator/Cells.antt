-- ===== src/EntityLocator/Cells.antt =====
-- The cells of the grid: `linearizeCellIndex` of Source/SharedLib/Simulation/Public/EntityLocator.h.
use amalgam_engine.Prelude.{
  ℕ, zero, suc, ◌+◌, ◌*◌, ◌≤◌, ◌<◌, ◌≡◌, refl, sym, ap, ◌∙◌, Bool, true, ◌&&◌, arith,
}
use amalgam_engine.Prelude.Int.{
  ℤ, pos, negsuc, leb_ℤ, ltb_ℤ, pos_part, neg_part, ◌+ℤ◌, ◌-ℤ◌, +ℤ_parts, -ℤ_parts, eq_of_parts,
}
use amalgam_engine.DiscreteExtent.{
  DiscretePosition, DiscreteExtent, max_position, axis_max, contains, in_axis,
}
use amalgam_engine.EntityLocator.{linearize_cell_index}

-- The distance of a coordinate from the least one.
abbrev pub offset : ℤ → ℤ → ℕ
offset min p = pos_part (p -ℤ min)

pub and_true : (a b : Bool) → (a && b) ≡ true → (a ≡ true) × (b ≡ true)
and_true a b h = ground arith

difference_pos :
    (p m : ℤ) → pos_part m + neg_part p ≤ pos_part p + neg_part m → p -ℤ m ≡ pos (offset m p)
unfolding ◌-ℤ◌
difference_pos p m h = ground arith

is_pos : (z : ℤ) → 0 < pos_part z → z ≡ pos (pos_part z)
is_pos (pos n) h = refl
is_pos (negsuc n) h = absurd (omega arith)

pub in_axis-offset :
    (min length p : ℤ)
    → in_axis min length p ≡ true
    → (p -ℤ min ≡ pos (offset min p))
      × (length ≡ pos (pos_part length))
      × (offset min p < pos_part length)
unfolding in_axis
in_axis-offset min length p h =
    let (low, high) = and_true (leb_ℤ min p) (ltb_ℤ p (min +ℤ length)) h in
    let sum = +ℤ_parts min length in
    let above : pos_part min + neg_part p ≤ pos_part p + neg_part min = ground arith in
    let below : pos_part p + neg_part (min +ℤ length) < pos_part (min +ℤ length) + neg_part p =
      ground arith in
    let difference = difference_pos p min above in
    let parts = -ℤ_parts p min in
    let zero_part : neg_part (p -ℤ min) ≡ 0 = ap neg_part difference in
    let some_length : 0 < pos_part length = omega arith in
    (difference, is_pos length some_length, omega arith)

add_pos : (a b : ℕ) → pos a +ℤ pos b ≡ pos (a + b)
add_pos a b = eq_of_parts _ _ (omega (+ℤ_parts (pos a) (pos b), arith))

-- A number in a mixed radix.
abbrev pub digits : ℕ → ℕ → ℕ → ℕ → ℕ → ℕ
digits xl yl x y z = xl * yl * z + xl * y + x

times-suc : (n c : ℕ) → n * suc c ≡ n * c + n
times-suc n c = grind arith

radix_unique : (n a b c d : ℕ) → a < n → b < n → n * c + a ≡ n * d + b → (a ≡ b) × (c ≡ d)
radix_unique n a b zero zero p q e = (omega arith, refl)
radix_unique n a b zero (suc d) p q e = absurd (omega (arith, times-suc n d))
radix_unique n a b (suc c) zero p q e = absurd (omega (arith, times-suc n c))
radix_unique n a b (suc c) (suc d) p q e =
    let (same, rest) = radix_unique n a b c d p q (omega (arith, times-suc n c, times-suc n d)) in
    (same, ap suc rest)

module _ (e : DiscreteExtent) where
  abbrev pub cell_digits : DiscretePosition → ℕ
  cell_digits p =
      digits (pos_part e.x_length) (pos_part e.y_length) (offset e.x p.x) (offset e.y p.y)
        (offset e.z p.z)

  contains-axes :
      (p : DiscretePosition)
      → contains e p ≡ true
      → (in_axis e.x e.x_length p.x ≡ true)
        × (in_axis e.y e.y_length p.y ≡ true)
        × (in_axis e.z e.z_length p.z ≡ true)
  unfolding contains
  contains-axes p h =
      let (hx, rest) =
        and_true (in_axis e.x e.x_length p.x)
          (in_axis e.y e.y_length p.y && in_axis e.z e.z_length p.z) h in
      let (hy, hz) = and_true (in_axis e.y e.y_length p.y) (in_axis e.z e.z_length p.z) rest in
      (hx, hy, hz)

  pub linearize_cell_index_lem :
      (p : DiscretePosition) → contains e p ≡ true → linearize_cell_index e p ≡ cell_digits p
  unfolding linearize_cell_index
  linearize_cell_index_lem p h =
      let (hx, hy, hz) = contains-axes p h in
      let (dx, lx, bx) = in_axis-offset e.x e.x_length p.x hx in
      let (dy, ly, by) = in_axis-offset e.y e.y_length p.y hy in
      let (dz, lz, bz) = in_axis-offset e.z e.z_length p.z hz in
      rw (dx, dy, dz, lx, ly, add_pos, add_pos) refl

pub position_path : (p q : DiscretePosition) → p.x ≡ q.x → p.y ≡ q.y → p.z ≡ q.z → p ≡ q
position_path p q hx hy hz = cc

offset_injective :
    (m p q : ℤ)
    → p -ℤ m ≡ pos (offset m p)
    → q -ℤ m ≡ pos (offset m q)
    → offset m p ≡ offset m q
    → p ≡ q
offset_injective m p q e f same =
    let zp : neg_part (p -ℤ m) ≡ 0 = ap neg_part e in
    let zq : neg_part (q -ℤ m) ≡ 0 = ap neg_part f in
    eq_of_parts p q (omega (-ℤ_parts p m, -ℤ_parts q m, arith))

digits_nested : (xl yl x y z : ℕ) → digits xl yl x y z ≡ xl * (yl * z + y) + x
digits_nested xl yl x y z = grind arith

times_mono : (n a b : ℕ) → a ≤ b → n * a ≤ n * b
times_mono n a b h = grind arith

digits_mono :
    (xl yl x y z x' y' z' : ℕ)
    → x ≤ x'
    → y ≤ y'
    → z ≤ z'
    → digits xl yl x y z ≤ digits xl yl x' y' z'
digits_mono xl yl x y z x' y' z' hx hy hz =
    let zs = times_mono (xl * yl) z z' hz in let ys = times_mono xl y y' hy in omega arith

axis_max-last :
    (min length p : ℤ)
    → in_axis min length p ≡ true
    → (in_axis min length (axis_max min length) ≡ true)
      × (offset min p ≤ offset min (axis_max min length))
unfolding in_axis
axis_max-last min length p h =
    let end = min +ℤ length in
    let (low, high) = and_true (leb_ℤ min p) (ltb_ℤ p end) h in
    let above : pos_part min + neg_part p ≤ pos_part p + neg_part min = ground arith in
    let below : pos_part p + neg_part end < pos_part end + neg_part p = ground arith in
    let last = -ℤ_parts end (pos 1) in
    let first_in : leb_ℤ min (end -ℤ pos 1) ≡ true = ground (arith, -ℤ_parts end (pos 1)) in
    let last_in : ltb_ℤ (end -ℤ pos 1) end ≡ true = ground (arith, -ℤ_parts end (pos 1)) in
    let zero_part : neg_part (p -ℤ min) ≡ 0 = ap neg_part (difference_pos p min above) in
    (rw (first_in, last_in) refl, omega (arith, -ℤ_parts p min, -ℤ_parts (end -ℤ pos 1) min))

module _ (e : DiscreteExtent) where
  -- Within the grid no two cells share a place.
  pub linearize_cell_index_injective :
      (p q : DiscretePosition)
      → contains e p ≡ true
      → contains e q ≡ true
      → linearize_cell_index e p ≡ linearize_cell_index e q
      → p ≡ q
  linearize_cell_index_injective p q hp hq same =
      let (hx, hy, hz) = contains-axes e p hp in
      let (gx, gy, gz) = contains-axes e q hq in
      let (px, _, bx) = in_axis-offset e.x e.x_length p.x hx in
      let (py, _, by) = in_axis-offset e.y e.y_length p.y hy in
      let (pz, _, bz) = in_axis-offset e.z e.z_length p.z hz in
      let (qx, _, cx) = in_axis-offset e.x e.x_length q.x gx in
      let (qy, _, cy) = in_axis-offset e.y e.y_length q.y gy in
      let (qz, _, cz) = in_axis-offset e.z e.z_length q.z gz in
      let xl = pos_part e.x_length in
      let yl = pos_part e.y_length in
      let nested =
        sym (digits_nested xl yl (offset e.x p.x) (offset e.y p.y) (offset e.z p.z))
        ∙ (sym (linearize_cell_index_lem e p hp)
            ∙ (same
                ∙ (linearize_cell_index_lem e q hq
                    ∙ digits_nested xl yl (offset e.x q.x) (offset e.y q.y) (offset e.z q.z)))) in
      let (same_x, rest) = radix_unique xl (offset e.x p.x) (offset e.x q.x) _ _ bx cx nested in
      let (same_y, same_z) = radix_unique yl (offset e.y p.y) (offset e.y q.y) _ _ by cy rest in
      position_path p q (offset_injective e.x p.x q.x px qx same_x)
        (offset_injective e.y p.y q.y py qy same_y) (offset_injective e.z p.z q.z pz qz same_z)

  -- Every cell of the grid stands before its last one, or is it.
  pub linearize_cell_index-max :
      (p : DiscretePosition)
      → contains e p ≡ true
      → linearize_cell_index e p ≤ linearize_cell_index e (max_position e)
  unfolding contains
  linearize_cell_index-max p h =
      let (hx, hy, hz) = contains-axes e p h in
      let (lx, mx) = axis_max-last e.x e.x_length p.x hx in
      let (ly, my) = axis_max-last e.y e.y_length p.y hy in
      let (lz, mz) = axis_max-last e.z e.z_length p.z hz in
      let last : contains e (max_position e) ≡ true = rw (lx, ly, lz) refl in
      rw (linearize_cell_index_lem e p h, linearize_cell_index_lem e (max_position e) last)
        (digits_mono (pos_part e.x_length) (pos_part e.y_length) _ _ _ _ _ _ mx my mz)
