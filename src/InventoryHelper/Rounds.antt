-- ===== src/InventoryHelper/Rounds.antt =====
-- The loop of `removeItem` over the slots.
use amalgam_engine.Prelude.{
  ℕ, zero, suc, ◌+◌, ◌-◌, ◌%◌, ◌^◌, ◌≤◌, ◌<◌, ◌≡◌, ◌≢◌, refl, ap, sym, ◌∙◌, subst, inl, inr, true,
  false, List, [], ◌∷◌, Option, ◌==◌, if◌then◌else◌, length, get_or, set, drop, arith, Bool-cases,
  length-set,
}
use amalgam_engine.ItemData.{null_item_id}
use amalgam_engine.Inventory.{
  ItemSlot, Inventory, empty_slot, slot_at, reduce_slot, reduce_item_count, count_in,
  get_item_count, remove_item as inventory_remove_item,
}
use amalgam_engine.Inventory.Stacks.{IsValid, SlotsOk-get_or}
use amalgam_engine.Inventory.Removing.{remove_item-Removes, held}
use amalgam_engine.InventoryHelper.{amount_to_remove, remove_loop}
use amalgam_engine.InventoryHelper.Slots.{
  count_in-drop, count_in-drop_all, drop-set, remove_item-reduce, Removed,
}

module _ (id : ℕ) (client : Option ℕ) (real : id ≢ null_item_id) where
  -- One removal of the loop.
  remove_one :
      (v : Inventory) (i n : ℕ)
      → IsValid v
      → i < length v.slots
      → (slot_at v i).id ≡ id
      → n ≤ (slot_at v i).count
      → let w = (inventory_remove_item v i n).0 in
        Removed v w id n × (drop (suc i) w.slots ≡ drop (suc i) v.slots)
  remove_one v i n ok lt here le =
      let r = remove_item-Removes v i n ok lt positive le in
      let e = remove_item-reduce v i n ok lt positive in
      (
        record {
          valid = r.valid;
          same_length = ap (λ (x : Inventory). length x.slots) e ∙ same;
          counts = λ j ne. counted j (r.counts j ne);
        },
        ap (λ (x : Inventory). drop (suc i) x.slots) e ∙ behind,
      )
    where
      positive : 0 < (slot_at v i).count
      positive =
          let s = SlotsOk-get_or v.slots i ok.slots_ok in
          omega (arith, λ (z : (slot_at v i).count ≡ 0). real (sym here ∙ s.empty_null z))

      same : length (reduce_item_count v i n).slots ≡ length v.slots
      same = unfold reduce_item_count in length-set v.slots i (reduce_slot (slot_at v i) n)

      behind : drop (suc i) (reduce_item_count v i n).slots ≡ drop (suc i) v.slots
      behind = unfold reduce_item_count in drop-set v.slots i (reduce_slot (slot_at v i) n)

      counted :
          (j : ℕ)
          → get_item_count (inventory_remove_item v i n).0 j
              + (if (slot_at v i).id == j then n else 0)
            ≡ get_item_count v j
          → get_item_count (inventory_remove_item v i n).0 j + (if id == j then n else 0)
            ≡ get_item_count v j
      counted j h =
          subst
            (λ t.
              get_item_count (inventory_remove_item v i n).0 j + (if t == j then n else 0)
              ≡ get_item_count v j)
            here h

  Removed-zero : (v : Inventory) → IsValid v → Removed v v id 0
  Removed-zero v ok = record { valid = ok; same_length = refl; counts = λ j ne. ground arith }

  Removed-trans :
      (u v w : Inventory) (a b n : ℕ)
      → Removed u v id a
      → Removed v w id b
      → a + b ≡ n
      → Removed u w id n
  Removed-trans u v w a b n p q e = record {
    valid = q.valid;
    same_length = q.same_length ∙ p.same_length;
    counts = λ j ne. sum j (p.counts j ne) (q.counts j ne);
  }
    where
      sum :
          (j : ℕ)
          → get_item_count v j + (if id == j then a else 0) ≡ get_item_count u j
          → get_item_count w j + (if id == j then b else 0) ≡ get_item_count v j
          → get_item_count w j + (if id == j then n else 0) ≡ get_item_count u j
      sum j x y = ground arith

  -- With fewer than 256 to remove, and as many from slot `i` on, the loop removes them all.
  pub remove_loop-Removed :
      (k i remaining : ℕ) (v : Inventory)
      → i + k ≡ length v.slots
      → IsValid v
      → remaining < 2 ^ 8
      → remaining ≤ count_in id (drop i v.slots)
      → Removed v (remove_loop id client k i remaining v).0 id remaining
  unfolding remove_loop
  remove_loop-Removed zero i remaining v e ok small enough =
      let none_left = count_in-drop_all id v.slots i (omega arith) in
      let z : remaining ≡ 0 = omega arith in
      subst (λ n. Removed v v id n) (sym z) (Removed-zero v ok)
  remove_loop-Removed (suc k) i remaining v e ok small enough =
      elim (Bool-cases ((slot_at v i).id == id)) [
        | inl here ↦ found (remove_loop-Removed k (i + 1)) (ground arith) here
        | inr other ↦
            rw other
              (remove_loop-Removed k (i + 1) remaining v (omega arith) ok small (skipped other))
      ]
    where
      n : ℕ
      n = amount_to_remove remaining (slot_at v i).count

      w : Inventory
      w = (inventory_remove_item v i n).0

      lt : i < length v.slots
      lt = omega arith

      next : drop (i + 1) v.slots ≡ drop (suc i) v.slots
      next = let q : i + 1 ≡ suc i = omega arith in ap (λ m. drop m v.slots) q

      skipped : ((slot_at v i).id == id) ≡ false → remaining ≤ count_in id (drop (i + 1) v.slots)
      skipped o =
          let d = count_in-drop id v.slots i lt in
          let h : held id (slot_at v i) ≡ 0 = rw o in omega (arith, ap (count_in id) next)

      found :
          ((rest : ℕ) (x : Inventory)
            → i + 1 + k ≡ length x.slots
            → IsValid x
            → rest < 2 ^ 8
            → rest ≤ count_in id (drop (i + 1) x.slots)
            → Removed x (remove_loop id client k (i + 1) rest x).0 id rest)
          → (slot_at v i).id ≡ id
          → ((slot_at v i).id == id) ≡ true
          → Removed v (remove_loop id client (suc k) i remaining v).0 id remaining
      found ih here t =
          let (one, behind) = remove_one v i n ok lt here (omega arith) in
          elim (Bool-cases (remaining - n == 0)) [
            | inl all ↦
                rw (t, all)
                  (let z : n ≡ remaining = last all in subst (λ m. Removed v w id m) z one)
            | inr more ↦
                rw (t, more)
                  (Removed-trans v w _ n (remaining - n) remaining one
                    (ih (remaining - n) w (omega (arith, one.same_length)) one.valid (omega arith)
                      (left_over here behind))
                    (omega arith))
          ]
        where
          last : (remaining - n == 0) ≡ true → n ≡ remaining
          last z = ground arith

          left_over :
              (slot_at v i).id ≡ id
              → drop (suc i) w.slots ≡ drop (suc i) v.slots
              → remaining - n ≤ count_in id (drop (i + 1) w.slots)
          left_over q b =
              let d = count_in-drop id v.slots i lt in
              let h : held id (slot_at v i) ≡ (slot_at v i).count = rw t in
              let x : count_in id (drop (i + 1) w.slots) ≡ count_in id (drop (suc i) v.slots) =
                let q : i + 1 ≡ suc i = omega arith in
                ap (λ m. count_in id (drop m w.slots)) q ∙ ap (count_in id) b in
              omega arith

  set_same : (ss : List ItemSlot) (i : ℕ) → set ss i (get_or ss i empty_slot) ≡ ss
  set_same [] i = refl
  set_same (s ∷ ss) zero = refl
  set_same (s ∷ ss) (suc i) = ap (◌∷◌ s) (set_same ss i)

  -- Removing nothing from a slot in use writes the slot back as it was.
  remove_none :
      (v : Inventory) (i : ℕ)
      → IsValid v
      → i < length v.slots
      → (slot_at v i).id ≡ id
      → (inventory_remove_item v i 0).0 ≡ v
  remove_none v i ok lt here =
      remove_item-reduce v i 0 ok lt positive ∙ unfold reduce_item_count in back
    where
      positive : 0 < (slot_at v i).count
      positive =
          let s = SlotsOk-get_or v.slots i ok.slots_ok in
          omega (arith, λ (z : (slot_at v i).count ≡ 0). real (sym here ∙ s.empty_null z))

      unchanged : reduce_slot (slot_at v i) 0 ≡ slot_at v i
      unchanged =
          let s = SlotsOk-get_or v.slots i ok.slots_ok in
          let b = s.byte in unfold reduce_slot in ground arith

      back : record v { slots = set v.slots i (reduce_slot (slot_at v i) 0) } ≡ v
      back =
          ap (λ (t : ItemSlot). let r : Inventory = record v { slots = set v.slots i t } in r)
            unchanged
          ∙ ap (λ (t : List ItemSlot). let r : Inventory = record v { slots = t } in r)
              (set_same v.slots i)

  -- With a multiple of 256 to remove, each round removes nothing.
  pub remove_loop-none :
      (k i remaining : ℕ) (v : Inventory)
      → i + k ≡ length v.slots
      → IsValid v
      → 0 < remaining
      → remaining % 2 ^ 8 ≡ 0
      → (remove_loop id client k i remaining v).0 ≡ v
  unfolding remove_loop
  remove_loop-none zero i remaining v e ok pos m = refl
  remove_loop-none (suc k) i remaining v e ok pos m = elim (Bool-cases ((slot_at v i).id == id)) [
    | inr other ↦ rw other (remove_loop-none k (i + 1) remaining v (omega arith) ok pos m)
    | inl here ↦
        let z : amount_to_remove remaining (slot_at v i).count ≡ 0 = omega arith in
        let r : (remaining - 0 == 0) ≡ false = ground arith in
        let same = remove_none v i ok (omega arith) (ground arith) in
        let w = (inventory_remove_item v i 0).0 in
        rw (here, z, r)
          (subst (λ (x : Inventory). (remove_loop id client k (i + 1) (remaining - 0) x).0 ≡ v)
            (sym same)
            (let q : remaining - 0 ≡ remaining = omega arith in
              rw q (remove_loop-none k (i + 1) remaining v (omega arith) ok pos m)))
  ]
