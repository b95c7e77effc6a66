-- ===== src/DiscreteExtent.antt =====
-- Source/SharedLib/Simulation/Public/DiscreteExtent.h. An `int` is an integer: a sum that leaves 32
-- bits is undefined behaviour in the source. The three axes are treated alike there, so each has the
-- same function of a minimum and a length here.
pub mod Sets
mod Tests
use amalgam_engine.Prelude.{ℕ, Bool, true, ◌&&◌, ◌||◌, if◌then◌else◌, leb, ltb}
use amalgam_engine.Prelude.Int.{ℤ, pos, ◌+ℤ◌, ◌-ℤ◌, ltb_ℤ, leb_ℤ}

pub record DiscretePosition : Type 0 where
  pub x : ℤ
  pub y : ℤ
  pub z : ℤ

pub record DiscreteExtent : Type 0 where
  pub x : ℤ
  pub y : ℤ
  pub z : ℤ
  pub x_length : ℤ
  pub y_length : ℤ
  pub z_length : ℤ

-- `xMax`, `yMax` and `zMax`
abbrev pub axis_max : ℤ → ℤ → ℤ
axis_max min length = min +ℤ length -ℤ pos 1

-- `min` and `max`
abbrev pub min_position : DiscreteExtent → DiscretePosition
min_position e = record { x = e.x; y = e.y; z = e.z }

abbrev pub max_position : DiscreteExtent → DiscretePosition
max_position e = record {
  x = axis_max e.x e.x_length;
  y = axis_max e.y e.y_length;
  z = axis_max e.z e.z_length;
}

-- One axis of `unionWith`: the least constrained minimum and maximum.
abbrev pub union_min : ℤ → ℤ → ℤ
union_min self_min other_min = if ltb_ℤ other_min self_min then other_min else self_min

abbrev pub union_max : ℤ → ℤ → ℤ
union_max self_max other_max = if ltb_ℤ self_max other_max then other_max else self_max

-- One axis of `intersectWith`: the most constrained minimum and maximum.
abbrev pub intersect_min : ℤ → ℤ → ℤ
intersect_min self_min other_min = if ltb_ℤ self_min other_min then other_min else self_min

abbrev pub intersect_max : ℤ → ℤ → ℤ
intersect_max self_max other_max = if ltb_ℤ other_max self_max then other_max else self_max

-- `unionWith`
unfoldable pub union_with : DiscreteExtent → DiscreteExtent → DiscreteExtent
union_with a b = record {
  x = union_min a.x b.x;
  y = union_min a.y b.y;
  z = union_min a.z b.z;
  x_length = union_max (a.x +ℤ a.x_length) (b.x +ℤ b.x_length) -ℤ union_min a.x b.x;
  y_length = union_max (a.y +ℤ a.y_length) (b.y +ℤ b.y_length) -ℤ union_min a.y b.y;
  z_length = union_max (a.z +ℤ a.z_length) (b.z +ℤ b.z_length) -ℤ union_min a.z b.z;
}

-- `intersectWith`
unfoldable pub intersect_with : DiscreteExtent → DiscreteExtent → DiscreteExtent
intersect_with a b = record {
  x = intersect_min a.x b.x;
  y = intersect_min a.y b.y;
  z = intersect_min a.z b.z;
  x_length = intersect_max (a.x +ℤ a.x_length) (b.x +ℤ b.x_length) -ℤ intersect_min a.x b.x;
  y_length = intersect_max (a.y +ℤ a.y_length) (b.y +ℤ b.y_length) -ℤ intersect_min a.y b.y;
  z_length = intersect_max (a.z +ℤ a.z_length) (b.z +ℤ b.z_length) -ℤ intersect_min a.z b.z;
}

-- One axis of `contains`.
unfoldable pub in_axis : ℤ → ℤ → ℤ → Bool
in_axis min length p = leb_ℤ min p && ltb_ℤ p (min +ℤ length)

-- `contains(position)`
unfoldable pub contains : DiscreteExtent → DiscretePosition → Bool
unfolding in_axis
contains e p =
    in_axis e.x e.x_length p.x && (in_axis e.y e.y_length p.y && in_axis e.z e.z_length p.z)

-- `contains(extent)`: its origin and its extreme.
unfoldable pub contains_extent : DiscreteExtent → DiscreteExtent → Bool
unfolding contains
contains_extent e f = contains e (min_position f) && contains e (max_position f)

-- `isEmpty`
unfoldable pub is_empty : DiscreteExtent → Bool
is_empty e = leb_ℤ e.x_length (pos 0) || (leb_ℤ e.y_length (pos 0) || leb_ℤ e.z_length (pos 0))
