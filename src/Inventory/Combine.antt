-- ===== src/Inventory/Combine.antt =====
-- `combineItems`, on the server and on the client.
use amalgam_engine.Prelude.{
  ℕ, ◌+◌, ◌^◌, ◌<◌, ◌≡◌, ◌≢◌, refl, ap, ◌∙◌, inl, inr, true, not, ◌&&◌, ◌||◌, none, some, ltb, ◌==◌,
  if◌then◌else◌, length, get_or, set, arith, Option-cases, length-set,
}
use amalgam_engine.ItemData.{
  ItemCombination, Item, ItemData, null_item_id, get_item as get_item_data,
}
use amalgam_engine.ItemData.Lookup as ItemLookup
use amalgam_engine.Inventory.{
  ItemSlot, Inventory, empty_slot, slot_at, slot_index_is_valid, add_item, reduce_slot,
  reduce_item_count, can_combine, combine_items_client, combined, combine_items, get_item_count,
}
use amalgam_engine.Inventory.Stacks.{IsValid}
use amalgam_engine.Inventory.Adding.{add_item-Adds}
use amalgam_engine.Inventory.Removing.{reduce_item_count-IsValid, reduce_counts}
use amalgam_engine.Inventory.Swap.{slot-set_self, slot-set_ne}

-- Where the server combines two items, the result item exists, and what the server's inventory
-- becomes is what the client computes from the result's ID and stack size, which are what the server
-- sends: the two inventories stay equal.
pub combine_items_replicates :
    (v w : Inventory) (s t : ℕ) (d : ItemData) (c : ItemCombination)
    → ItemLookup.IsValid d
    → combine_items v s t d ≡ combined c w
    → (r : Item) × (get_item_data d c.result_item_id ≡ some r)
      × (w ≡ combine_items_client v s t c.result_item_id r.max_stack_size)
unfolding combine_items combine_items_client
combine_items_replicates v w s t d c ok e = elim (Option-cases (get_item_data d c.result_item_id)) [
  | inl missing ↦ absurd (impossible missing)
  | inr (r, f) ↦ (r, f, agree r f (unfold get_item_data in ok.keyed c.result_item_id r f))
]
  where
    impossible : get_item_data d c.result_item_id ≡ none → ⊥
    impossible m = ground arith

    agree :
        (r : Item)
        → get_item_data d c.result_item_id ≡ some r
        → r.numeric_id ≡ c.result_item_id
        → w ≡ combine_items_client v s t c.result_item_id r.max_stack_size
    agree r f k = ground arith

-- Combining two different slots of a valid inventory, each holding something, takes one item from
-- each and adds one of the result if there is a place for it; the inventory stays valid.
pub combine_items_client_counts :
    (v : Inventory) (s t result limit : ℕ)
    → IsValid v
    → s ≢ t
    → s < length v.slots
    → t < length v.slots
    → 0 < (slot_at v s).count
    → 0 < (slot_at v t).count
    → result ≢ null_item_id
    → limit < 2 ^ 8
    → let reduced = reduce_item_count (reduce_item_count v s 1) t 1 in
      let added = (add_item reduced result 1 limit).1 in
      let w = combine_items_client v s t result limit in
      IsValid w
      × ((j : ℕ)
          → j ≢ null_item_id
          → get_item_count w j
              + (if (slot_at v s).id == j then 1 else 0)
              + (if (slot_at v t).id == j then 1 else 0)
            ≡ get_item_count v j + (if added && j == result then 1 else 0))
unfolding combine_items_client can_combine slot_index_is_valid
combine_items_client_counts v s t result limit ok ne a b p q real lim =
    let one = reduce_item_count v s 1 in
    let other = slot_other ne in
    let ok1 = reduce_item_count-IsValid v s 1 ok (omega arith) in
    let ok2 =
      reduce_item_count-IsValid one t 1 ok1 (omega (arith, ap (λ (x : ItemSlot). x.count) other)) in
    let add =
      add_item-Adds (reduce_item_count one t 1) result 1 limit ok2 real (omega arith) (omega arith)
        lim in
    rw passes (
      add.valid,
      λ j nz. omega (
        arith,
        reduce_counts v s 1 j ok a (omega arith) nz,
        reduce_counts one t 1 j ok1
            (unfold reduce_item_count in
              omega (arith, length-set v.slots s (reduce_slot (slot_at v s) 1)))
            (omega (arith, ap (λ (x : ItemSlot). x.count) other)) nz,
        add.counts j nz,
        ap {B = ℕ} (λ (x : ItemSlot). if x.id == j then 1 else 0) other,
      ),
    )
  where
    slot_other : s ≢ t → slot_at (reduce_item_count v s 1) t ≡ slot_at v t
    slot_other h = unfold reduce_item_count in slot-set_ne v.slots s t _ h

    passes :
        not (
          not (ltb s v.size && ltb s (length v.slots))
          || (not (ltb t v.size && ltb t (length v.slots))
              || ((slot_at v s).count == 0 || (slot_at v t).count == 0)))
        ≡ true
    passes = let e = ok.sized in ground arith

-- Combining a slot with itself is let through when the slot holds a single item: the second
-- reduction wraps, and the slot is left with no item and a count of 255.
pub combine_same_slot :
    (v : Inventory) (s : ℕ)
    → IsValid v
    → s < length v.slots
    → (slot_at v s).count ≡ 1
    → (can_combine v s s ≡ true)
      × (slot_at (reduce_item_count (reduce_item_count v s 1) s 1) s
          ≡ record { id = null_item_id; count = 255 })
unfolding can_combine slot_index_is_valid reduce_item_count
combine_same_slot v s ok a one = (passes, wrapped)
  where
    passes :
        not (
          not (ltb s v.size && ltb s (length v.slots))
          || (not (ltb s v.size && ltb s (length v.slots))
              || ((slot_at v s).count == 0 || (slot_at v s).count == 0)))
        ≡ true
    passes = let e = ok.sized in ground arith

    emptied : get_or (set v.slots s (reduce_slot (slot_at v s) 1)) s empty_slot ≡ empty_slot
    emptied = slot-set_self v.slots s (reduce_slot (slot_at v s) 1) a ∙ gone
      where
        gone : reduce_slot (slot_at v s) 1 ≡ empty_slot
        gone = unfold reduce_slot in ground arith

    wraps : reduce_slot empty_slot 1 ≡ record { id = null_item_id; count = 255 }
    wraps = unfold reduce_slot in refl

    wrapped :
        slot_at (reduce_item_count (reduce_item_count v s 1) s 1) s
        ≡ record { id = null_item_id; count = 255 }
    wrapped =
        slot-set_self (set v.slots s (reduce_slot (slot_at v s) 1)) s _
          (omega (arith, length-set v.slots s (reduce_slot (slot_at v s) 1)))
        ∙ ap (λ x. reduce_slot x 1) emptied
        ∙ wraps
