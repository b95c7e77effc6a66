-- ===== src/DiscreteExtent/Tests.antt =====
-- Instances of the theorems on extents.
use amalgam_engine.Prelude.{◌≡◌, refl, true, false, ◌&&◌}
use amalgam_engine.Prelude.Int.{pos, negsuc, ◌+ℤ◌, ◌-ℤ◌}
use amalgam_engine.DiscreteExtent.{
  DiscretePosition, DiscreteExtent, intersect_with, contains, contains_extent, is_empty,
}
use amalgam_engine.DiscreteExtent.Sets.{contains-intersect_with}

-- Around the origin, from -2 to 3 on each axis, and a flat one beside it.
abbrev cube : DiscreteExtent
cube = record {
  x = negsuc 1;
  y = negsuc 1;
  z = negsuc 1;
  x_length = pos 6;
  y_length = pos 6;
  z_length = pos 6;
}

abbrev slab : DiscreteExtent
slab = record {
  x = pos 1;
  y = pos 0;
  z = pos 0;
  x_length = pos 9;
  y_length = pos 2;
  z_length = pos 1;
}

abbrev corner : DiscretePosition
corner = record { x = pos 2; y = pos 1; z = pos 0 }

slab_filled : is_empty slab ≡ false
unfolding is_empty
slab_filled = refl

contains-intersect_with_example :
    contains (intersect_with cube slab) corner ≡ (contains cube corner && contains slab corner)
contains-intersect_with_example = contains-intersect_with cube slab corner

-- Holds both.
abbrev hall : DiscreteExtent
hall = record cube { x_length = pos 20 }

hall-cube : contains_extent hall cube ≡ true
unfolding contains_extent ◌+ℤ◌ ◌-ℤ◌
hall-cube = refl

hall-slab : contains_extent hall slab ≡ true
unfolding contains_extent ◌+ℤ◌ ◌-ℤ◌
hall-slab = refl
