-- ===== src/IdPool/History.antt =====
-- Histories of an ID pool: any interleaving of the operations by its clients.
use amalgam_engine.Prelude.{
  ℕ, zero, suc, ◌^◌, ◌≤◌, ◌<◌, ◌≡◌, refl, sym, ◌∙◌, inl, inr, true, false, arith, length, replicate,
  length-replicate, ◌==◌, Bool-cases, subst,
}
use amalgam_engine.IdPool.{
  Strategy, march_forward, reuse_lowest, IdPool, init, reserve_by, reserve_id, mark_id_as_reserved,
  done, free_id,
}
use amalgam_engine.IdPool.Loops.{count_reserved-replicate}
use amalgam_engine.IdPool.Invariant.{reserved, NextIsFree, IsValid}
use amalgam_engine.IdPool.Fresh.{reserve_id-Reserves}
use amalgam_engine.IdPool.Updates.{mark_id_as_reserved-Marks}
use amalgam_engine.IdPool.Free.{free_id-Frees}

-- A correct client reserves, marks IDs that are free, and frees IDs that are reserved.
pub data Step (p : IdPool) : IdPool → Type 0 where
  reserving : length p.ids ≤ 2 ^ 31 → Step p (reserve_id p).1
  marking :
      (id : ℕ)
      → length p.ids ≤ 2 ^ 31
      → id < 2 ^ 31
      → reserved p id ≡ false
      → Step p (mark_id_as_reserved p id)
  freeing :
      {q : IdPool} (id : ℕ)
      → length p.ids ≤ 2 ^ 31
      → reserved p id ≡ true
      → free_id p id ≡ done q
      → Step p q

pub data Reach (p : IdPool) : IdPool → Type 0 where
  here : Reach p p
  next : {q r : IdPool} → Reach p q → Step q r → Reach p r

NextIsFree-init :
    (s : Strategy) (n : ℕ)
    → 0 < n
    → NextIsFree s (record {
      strategy = s;
      reserved_id_count = 0;
      next_march_id = 0;
      next_lowest_id = 0;
      ids = replicate n false;
    })
NextIsFree-init s zero h = absurd (omega arith)
NextIsFree-init march_forward (suc n) h = refl
NextIsFree-init reuse_lowest (suc n) h = (refl, λ i lt. absurd (omega arith))

-- A new pool is valid, at a requested size of 0 too.
pub init-IsValid : (s : Strategy) (size : ℕ) → IsValid (init s size)
unfolding init
init-IsValid s size = elim (Bool-cases (size == 0)) [
  | inl e ↦ rw e (make 1 (omega arith))
  | inr e ↦ rw e (make size (ground arith))
]
  where
    make :
        (n : ℕ)
        → 0 < n
        → IsValid (record {
          strategy = s;
          reserved_id_count = 0;
          next_march_id = 0;
          next_lowest_id = 0;
          ids = replicate n false;
        })
    make n h = record {
      nonempty = omega (arith, length-replicate n false);
      counted = sym (count_reserved-replicate n);
      next = NextIsFree-init s n h;
    }

Step-IsValid : {p q : IdPool} → Step p q → IsValid p → IsValid q
Step-IsValid {p} (reserving small) v = (reserve_id-Reserves p v small).valid
Step-IsValid {p} (marking id small lt free) v =
    (mark_id_as_reserved-Marks p id v small lt free).valid
Step-IsValid {p} (freeing {q = q} id small taken e) v =
    let (r, f, w) = free_id-Frees p id v small taken in subst IsValid (same (sym f ∙ e)) w.valid
  where
    same : {r : IdPool} → done r ≡ done q → r ≡ q
    same g = cc

Reach-IsValid : {p q : IdPool} → IsValid p → Reach p q → IsValid q
Reach-IsValid v here = v
Reach-IsValid v (next r s) = Step-IsValid s (Reach-IsValid v r)

-- After any history of correct calls on a new pool that keeps it within 2^31 slots, the next ID that
-- `reserveID` returns is not in use.
pub reachable-fresh :
    (s : Strategy) (size : ℕ) {p : IdPool}
    → Reach (init s size) p
    → length p.ids ≤ 2 ^ 31
    → reserved p (reserve_id p).0 ≡ false
reachable-fresh s size {p} r small =
    (reserve_id-Reserves p (Reach-IsValid (init-IsValid s size) r) small).fresh

-- Under `reuse_lowest` the ID returned after any such history is the lowest free one.
pub reachable-lowest :
    (size : ℕ) {p : IdPool}
    → Reach (init reuse_lowest size) p
    → p.strategy ≡ reuse_lowest
    → (i : ℕ) → i < (reserve_id p).0
    → reserved p i ≡ true
unfolding reserve_id reserve_by
reachable-lowest size {p} r e i h =
    let v = Reach-IsValid (init-IsValid reuse_lowest size) r in lowest p.strategy e v.next h
  where
    lowest :
        (s : Strategy)
        → s ≡ reuse_lowest
        → NextIsFree s p
        → i < (reserve_by s p).0
        → reserved p i ≡ true
    lowest march_forward q n lt = cc
    lowest reuse_lowest q n lt = n.1 i lt
