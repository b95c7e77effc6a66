-- ===== src/IdPool/Tests.antt =====
-- Tests of the ID pool, and instances of its theorems.
use amalgam_engine.Prelude.{◌≡◌, refl, true, false, [], ◌∷◌, arith}
use amalgam_engine.IdPool.{
  march_forward, reuse_lowest, IdPool, init, reserve_id, mark_id_as_reserved, done, free_id,
  free_all_ids,
}
use amalgam_engine.IdPool.Invariant.{reserved, IsValid}
use amalgam_engine.IdPool.Fresh.{Reserves, reserve_id-Reserves}
use amalgam_engine.IdPool.Updates.{Marks, mark_id_as_reserved-Marks}
use amalgam_engine.IdPool.Free.{Frees, free_id-Frees}
use amalgam_engine.IdPool.History.{Reach, here, next, reserving, reachable-fresh}

-- Two slots, of which the first is reserved.
abbrev one_taken : IdPool
one_taken = record {
  strategy = march_forward;
  reserved_id_count = 1;
  next_march_id = 1;
  next_lowest_id = 0;
  ids = true ∷ false ∷ [];
}

one_taken-IsValid : IsValid one_taken
one_taken-IsValid = record { nonempty = omega arith; counted = refl; next = refl }

-- The pool doubles when its last ID is handed out.
reserve_grows : reserve_id (init march_forward 1) ≡ (0, one_taken)
unfolding reserve_id init
reserve_grows = refl

-- After `freeAllIDs` the stale count can let a reserved ID be handed out a second time.
abbrev after_free_all : IdPool
after_free_all =
    let two = (reserve_id (reserve_id (init march_forward 1)).1).1 in
    let again = mark_id_as_reserved (mark_id_as_reserved (free_all_ids two) 0) 1 in
    (reserve_id (reserve_id again).1).1

handed_out_twice : reserved after_free_all (reserve_id after_free_all).0 ≡ true
unfolding reserve_id init mark_id_as_reserved free_all_ids
handed_out_twice = refl

reserve_id-Reserves_example : Reserves one_taken (reserve_id one_taken)
reserve_id-Reserves_example = reserve_id-Reserves one_taken one_taken-IsValid (omega arith)

mark_id_as_reserved-Marks_example : Marks one_taken (mark_id_as_reserved one_taken 5) 5
mark_id_as_reserved-Marks_example =
    mark_id_as_reserved-Marks one_taken 5 one_taken-IsValid (omega arith) (omega arith) refl

free_id-Frees_example : (q : IdPool) × (free_id one_taken 0 ≡ done q) × Frees one_taken q 0
free_id-Frees_example = free_id-Frees one_taken 0 one_taken-IsValid (omega arith) refl

abbrev lowest_two : IdPool
lowest_two = (reserve_id (reserve_id (init reuse_lowest 1)).1).1

lowest_history : Reach (init reuse_lowest 1) lowest_two
unfolding reserve_id init
lowest_history = next (next here (reserving (omega arith))) (reserving (omega arith))

reachable-fresh_example : reserved lowest_two (reserve_id lowest_two).0 ≡ false
unfolding reserve_id init
reachable-fresh_example = reachable-fresh reuse_lowest 1 lowest_history (omega arith)
