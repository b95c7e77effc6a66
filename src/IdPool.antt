-- ===== src/IdPool.antt =====
-- Source/SharedLib/Utility/Private/IDPool.cpp. `std::vector<bool>` is a list of Booleans, `unsigned
-- int` wraps at 2^32 and `std::size_t` at 2^64. LOG_FATAL aborts; a read past the end of the vector
-- is undefined behaviour. Both are results of `free_id`.
pub mod Loops
pub mod Invariant
pub mod Fresh
pub mod Updates
pub mod Free
pub mod History
mod Tests
use amalgam_engine.Prelude.{
  ℕ, zero, suc, ◌+◌, ◌-◌, ◌*◌, ◌%◌, ◌^◌, Bool, true, false, ◌&&◌, List, ◌++◌, none, some, ltb, leb,
  ◌==◌, if◌then◌else◌, length, get_elem?, get_or, set, take, replicate,
}

pub data Strategy : Type 0 where
  march_forward reuse_lowest : Strategy

pub record IdPool : Type 0 where
  pub strategy : Strategy
  pub reserved_id_count : ℕ
  pub next_march_id : ℕ
  pub next_lowest_id : ℕ
  pub ids : List Bool

-- Unsigned arithmetic.
abbrev pub add32 : ℕ → ℕ → ℕ
add32 a b = (a + b) % 2 ^ 32

abbrev pub add64 : ℕ → ℕ → ℕ
add64 a b = (a + b) % 2 ^ 64

-- `std::vector<bool>::resize`: new elements are false.
unfoldable pub resize : List Bool → ℕ → List Bool
resize xs n = take n xs ++ replicate (n - length xs) false

-- The constructor; a size of 0 is raised to 1.
unfoldable pub init : Strategy → ℕ → IdPool
init s size = record {
  strategy = s;
  reserved_id_count = 0;
  next_march_id = 0;
  next_lowest_id = 0;
  ids = replicate (if size == 0 then 1 else size) false;
}

-- "If we're out of IDs, double our capacity."
unfoldable pub grow : IdPool → IdPool
unfolding resize
grow p =
    if p.reserved_id_count == length p.ids
    then record p { ids = resize p.ids (length p.ids * 2 % 2 ^ 64) }
    else p

-- The index that the march visits in round `i`, starting behind `next`.
abbrev pub march_index : List Bool → ℕ → ℕ → ℕ
march_index ids next i = add64 (add32 next 1) i % length ids

-- The loop of `setNextMarchID`: the rounds left, then the counter.
pub march_loop : List Bool → ℕ → ℕ → ℕ → ℕ
march_loop ids next zero i = next
march_loop ids next (suc k) i =
    let rest = march_loop ids next k (i + 1) in
    if get_or ids (march_index ids next i) true then rest else march_index ids next i % 2 ^ 32

unfoldable pub set_next_march_id : IdPool → IdPool
unfolding grow march_loop
set_next_march_id p =
    let q = grow p in
    record q { next_march_id = march_loop q.ids q.next_march_id (length q.ids - 1) 0 }

-- The loop of `setNextLowestID`: the rounds left, then the index.
pub lowest_loop : List Bool → ℕ → ℕ → ℕ → ℕ
lowest_loop ids next zero i = next
lowest_loop ids next (suc k) i =
    let rest = lowest_loop ids next k (i + 1) in if get_or ids i true then rest else i % 2 ^ 32

unfoldable pub set_next_lowest_id : IdPool → IdPool
unfolding grow lowest_loop
set_next_lowest_id p =
    let q = grow p in
    let start = add32 q.next_lowest_id 1 in
    record q { next_lowest_id = lowest_loop q.ids q.next_lowest_id (length q.ids - start) start }

-- `IDs[id] = true; reservedIDCount++;`
unfoldable pub mark : IdPool → ℕ → IdPool
mark p id = record p { reserved_id_count = add64 p.reserved_id_count 1; ids = set p.ids id true }

unfoldable pub reserve_by : Strategy → IdPool → ℕ × IdPool
unfolding mark set_next_march_id set_next_lowest_id
reserve_by march_forward p = (p.next_march_id, set_next_march_id (mark p p.next_march_id))
reserve_by reuse_lowest p = (p.next_lowest_id, set_next_lowest_id (mark p p.next_lowest_id))

-- `reserveID`
unfoldable pub reserve_id : IdPool → ℕ × IdPool
unfolding reserve_by
reserve_id p = reserve_by p.strategy p

-- `if (ID >= IDs.size()) IDs.resize(ID + 1);`
unfoldable pub allocate : IdPool → ℕ → IdPool
unfolding resize
allocate p id = if leb (length p.ids) id then record p { ids = resize p.ids (add32 id 1) } else p

unfoldable pub after_mark : Strategy → IdPool → ℕ → IdPool
unfolding set_next_march_id set_next_lowest_id
after_mark march_forward p id = if leb p.next_march_id id then set_next_march_id p else p
after_mark reuse_lowest p id = if id == p.next_lowest_id then set_next_lowest_id p else p

-- `markIDAsReserved`
unfoldable pub mark_id_as_reserved : IdPool → ℕ → IdPool
unfolding allocate mark after_mark
mark_id_as_reserved p id = after_mark p.strategy (mark (allocate p id) id) id

pub data Outcome : Type 0 where
  done : IdPool → Outcome
  fatal : Outcome
  undefined : Outcome

unfoldable pub after_free : Strategy → IdPool → ℕ → IdPool
after_free march_forward p id = p
after_free reuse_lowest p id =
    if ltb id p.next_lowest_id then record p { next_lowest_id = id } else p

-- `freeID`
unfoldable pub free_id : IdPool → ℕ → Outcome
unfolding after_free
free_id p id = if ltb (length p.ids) id then fatal else elim (get_elem? p.ids id) [
  | none ↦ undefined
  | some false ↦ fatal
  | some true ↦ done (
      after_free p.strategy
        (record p {
          reserved_id_count = (p.reserved_id_count + 2 ^ 64 - 1) % 2 ^ 64;
          ids = set p.ids id false;
        })
        id)
]

-- `freeAllIDs`: `std::fill` and nothing else.
unfoldable pub free_all_ids : IdPool → IdPool
free_all_ids p = record p { ids = replicate (length p.ids) false }
