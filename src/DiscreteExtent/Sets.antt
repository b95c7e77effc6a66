-- ===== src/DiscreteExtent/Sets.antt =====
-- Extents as sets of positions.
use amalgam_engine.Prelude.{
  ◌≡◌, refl, ◌⊎◌, inl, inr, Bool, true, false, ◌&&◌, ◌||◌, arith, Bool-cases,
}
use amalgam_engine.Prelude.Int.{ℤ, pos, ◌+ℤ◌, ◌-ℤ◌, ltb_ℤ, leb_ℤ, int_laws, +ℤ_parts, -ℤ_parts}
use amalgam_engine.DiscreteExtent.{
  DiscretePosition, DiscreteExtent, axis_max, min_position, max_position, union_min, union_max,
  intersect_min, intersect_max, union_with, intersect_with, in_axis, contains, contains_extent,
  is_empty,
}

end_of : (m M : ℤ) → m +ℤ (M -ℤ m) ≡ M
end_of m M = omega int_laws

intersect_bounds :
    (x u y v p : ℤ)
    → (leb_ℤ (intersect_min x y) p && ltb_ℤ p (intersect_max u v))
      ≡ ((leb_ℤ x p && ltb_ℤ p u) && (leb_ℤ y p && ltb_ℤ p v))
intersect_bounds x u y v p = ground arith

in_axis-intersect :
    (x l y k p : ℤ)
    → in_axis (intersect_min x y) (intersect_max (x +ℤ l) (y +ℤ k) -ℤ intersect_min x y) p
      ≡ (in_axis x l p && in_axis y k p)
unfolding in_axis
in_axis-intersect x l y k p =
    rw (end_of (intersect_min x y) (intersect_max (x +ℤ l) (y +ℤ k)))
      (intersect_bounds x (x +ℤ l) y (y +ℤ k) p)

interleave :
    (a b c d e f : Bool)
    → ((a && b) && ((c && d) && (e && f))) ≡ ((a && (c && e)) && (b && (d && f)))
interleave a b c d e f = ground arith

-- A position is in the intersection of two extents exactly when it is in both, whether these are
-- empty or not.
pub contains-intersect_with :
    (a b : DiscreteExtent) (p : DiscretePosition)
    → contains (intersect_with a b) p ≡ (contains a p && contains b p)
unfolding contains intersect_with
contains-intersect_with a b p =
    rw
      (
        in_axis-intersect a.x a.x_length b.x b.x_length p.x,
        in_axis-intersect a.y a.y_length b.y b.y_length p.y,
        in_axis-intersect a.z a.z_length b.z b.z_length p.z,
      )
      (interleave (in_axis a.x a.x_length p.x) (in_axis b.x b.x_length p.x)
        (in_axis a.y a.y_length p.y) (in_axis b.y b.y_length p.y) (in_axis a.z a.z_length p.z)
        (in_axis b.z b.z_length p.z))

union_bounds :
    (x u y v p : ℤ)
    → ((leb_ℤ x p && ltb_ℤ p u) || (leb_ℤ y p && ltb_ℤ p v)) ≡ true
    → (leb_ℤ (union_min x y) p && ltb_ℤ p (union_max u v)) ≡ true
union_bounds x u y v p h = ground arith

in_axis-union :
    (x l y k p : ℤ)
    → (in_axis x l p || in_axis y k p) ≡ true
    → in_axis (union_min x y) (union_max (x +ℤ l) (y +ℤ k) -ℤ union_min x y) p ≡ true
unfolding in_axis
in_axis-union x l y k p h =
    rw (end_of (union_min x y) (union_max (x +ℤ l) (y +ℤ k)))
      (union_bounds x (x +ℤ l) y (y +ℤ k) p h)

-- One axis of `contains(extent)`.
abbrev axis_within : ℤ → ℤ → ℤ → ℤ → Bool
axis_within x l y k = in_axis x l y && in_axis x l (axis_max y k)

least_bounds :
    (x l y u z v : ℤ)
    → (in_axis x l y && in_axis x l (u -ℤ pos 1)) ≡ true
    → (in_axis x l z && in_axis x l (v -ℤ pos 1)) ≡ true
    → (in_axis x l (union_min y z) && in_axis x l (union_max u v -ℤ pos 1)) ≡ true
least_bounds x l y u z v g h = ground arith

axis_within-union :
    (x l y k z m : ℤ)
    → axis_within x l y k ≡ true
    → axis_within x l z m ≡ true
    → axis_within x l (union_min y z) (union_max (y +ℤ k) (z +ℤ m) -ℤ union_min y z) ≡ true
axis_within-union x l y k z m g h =
    rw (end_of (union_min y z) (union_max (y +ℤ k) (z +ℤ m)))
      (least_bounds x l y (y +ℤ k) z (z +ℤ m) g h)

union_with-covers :
    (a b : DiscreteExtent) (p : DiscretePosition)
    → (contains a p || contains b p) ≡ true
    → contains (union_with a b) p ≡ true
unfolding contains union_with
union_with-covers a b p h =
    let q = in_axis-union a.x a.x_length b.x b.x_length p.x (ground arith) in
    let r = in_axis-union a.y a.y_length b.y b.y_length p.y (ground arith) in
    let s = in_axis-union a.z a.z_length b.z b.z_length p.z (ground arith) in ground arith

contains_extent-union_with :
    (a b c : DiscreteExtent)
    → contains_extent c a ≡ true
    → contains_extent c b ≡ true
    → contains_extent c (union_with a b) ≡ true
unfolding contains contains_extent union_with
contains_extent-union_with a b c g h =
    let q =
      axis_within-union c.x c.x_length a.x a.x_length b.x b.x_length (ground arith)
        (ground arith) in
    let r =
      axis_within-union c.y c.y_length a.y a.y_length b.y b.y_length (ground arith)
        (ground arith) in
    let s =
      axis_within-union c.z c.z_length a.z a.z_length b.z b.z_length (ground arith)
        (ground arith) in
    ground arith

-- Every position of one of two extents is in their union, and an extent that contains both contains
-- it.
pub union_with-hull :
    (a b c : DiscreteExtent) (p : DiscretePosition)
    → contains_extent c a ≡ true
    → contains_extent c b ≡ true
    → (((contains a p || contains b p) && contains (union_with a b) p)
        ≡ (contains a p || contains b p))
      × (contains_extent c (union_with a b) ≡ true)
union_with-hull a b c p g h =
    (covers (Bool-cases (contains a p || contains b p)), contains_extent-union_with a b c g h)
  where
    covers :
        ((contains a p || contains b p) ≡ true) ⊎ ((contains a p || contains b p) ≡ false)
        → ((contains a p || contains b p) && contains (union_with a b) p)
          ≡ (contains a p || contains b p)
    covers (inl e) = rw (e, union_with-covers a b p e) refl
    covers (inr e) = rw e refl

axis_within_sound :
    (x l y k p : ℤ) → axis_within x l y k ≡ true → in_axis y k p ≡ true → in_axis x l p ≡ true
unfolding in_axis
axis_within_sound x l y k p w h = let q = -ℤ_parts (y +ℤ k) (pos 1) in ground arith

axis_ends :
    (y k : ℤ)
    → leb_ℤ k (pos 0) ≡ false
    → (in_axis y k y ≡ true) × (in_axis y k (axis_max y k) ≡ true)
unfolding in_axis
axis_ends y k h =
    let q = +ℤ_parts y k in let r = -ℤ_parts (y +ℤ k) (pos 1) in (ground arith, ground arith)

contains_extent_sound :
    (e f : DiscreteExtent) (p : DiscretePosition)
    → contains_extent e f ≡ true
    → contains f p ≡ true
    → contains e p ≡ true
unfolding contains contains_extent
contains_extent_sound e f p w h =
    let q = axis_within_sound e.x e.x_length f.x f.x_length p.x (ground arith) (ground arith) in
    let r = axis_within_sound e.y e.y_length f.y f.y_length p.y (ground arith) (ground arith) in
    let s = axis_within_sound e.z e.z_length f.z f.z_length p.z (ground arith) (ground arith) in
    ground arith

contains-corners :
    (f : DiscreteExtent)
    → is_empty f ≡ false
    → (contains f (min_position f) ≡ true) × (contains f (max_position f) ≡ true)
unfolding contains is_empty
contains-corners f filled =
    let q = axis_ends f.x f.x_length (ground arith) in
    let r = axis_ends f.y f.y_length (ground arith) in
    let s = axis_ends f.z f.z_length (ground arith) in
    (rw (q.0, r.0, s.0) refl, rw (q.1, r.1, s.1) refl)

-- An extent contains one that is not empty, by the test on its two corners, exactly when it contains
-- every position of it.
pub contains_extent_iff :
    (e f : DiscreteExtent)
    → is_empty f ≡ false
    → (contains_extent e f ≡ true
        → (p : DiscretePosition) → contains f p ≡ true
        → contains e p ≡ true)
      × (((p : DiscretePosition) → contains f p ≡ true → contains e p ≡ true)
          → contains_extent e f ≡ true)
unfolding contains_extent
contains_extent_iff e f filled = (
  λ w p h. contains_extent_sound e f p w h,
  λ h.
      let ends = contains-corners f filled in
      rw (h (min_position f) (ends.0), h (max_position f) (ends.1)) refl,
)
