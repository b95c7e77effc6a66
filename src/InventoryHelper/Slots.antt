-- ===== src/InventoryHelper/Slots.antt =====
-- The slots from an index on, and one removal from a slot.
use amalgam_engine.Prelude.{
  ℕ, zero, suc, ◌+◌, ◌≤◌, ◌<◌, ◌≡◌, ◌≢◌, refl, false, not, ◌&&◌, ◌||◌, List, [], ◌∷◌, ltb, ◌==◌,
  if◌then◌else◌, length, get_or, set, drop, arith,
}
use amalgam_engine.ItemData.{null_item_id}
use amalgam_engine.Inventory.{
  ItemSlot, Inventory, empty_slot, slot_at, slot_index_is_valid, reduce_item_count, count_in,
  get_item_count, remove_item as inventory_remove_item,
}
use amalgam_engine.Inventory.Stacks.{IsValid}
use amalgam_engine.Inventory.Removing.{held}

pub count_in-drop :
    (id : ℕ) (ss : List ItemSlot) (i : ℕ)
    → i < length ss
    → count_in id (drop i ss) ≡ held id (get_or ss i empty_slot) + count_in id (drop (suc i) ss)
unfolding count_in
count_in-drop id [] i h = absurd (omega arith)
count_in-drop id (s ∷ ss) zero h = refl
count_in-drop id (s ∷ ss) (suc i) h = count_in-drop id ss i (omega arith)

pub count_in-drop_all :
    (id : ℕ) (ss : List ItemSlot) (i : ℕ) → length ss ≤ i → count_in id (drop i ss) ≡ 0
unfolding count_in
count_in-drop_all id [] zero h = refl
count_in-drop_all id [] (suc i) h = refl
count_in-drop_all id (s ∷ ss) zero h = absurd (omega arith)
count_in-drop_all id (s ∷ ss) (suc i) h = count_in-drop_all id ss i (omega arith)

pub drop-set :
    (ss : List ItemSlot) (i : ℕ) (t : ItemSlot) → drop (suc i) (set ss i t) ≡ drop (suc i) ss
drop-set [] i t = refl
drop-set (s ∷ ss) zero t = refl
drop-set (s ∷ []) (suc i) t = refl
drop-set (s ∷ r ∷ rs) (suc i) t = drop-set (r ∷ rs) i t

-- A removal that passes the checks is the reduction of the slot.
pub remove_item-reduce :
    (v : Inventory) (i count : ℕ)
    → IsValid v
    → i < length v.slots
    → 0 < (slot_at v i).count
    → (inventory_remove_item v i count).0 ≡ reduce_item_count v i count
unfolding inventory_remove_item slot_index_is_valid
remove_item-reduce v i count w lt some_left =
    let e = w.sized in
    let p : (not (ltb i v.size && ltb i (length v.slots)) || (slot_at v i).count == 0) ≡ false =
      ground arith in
    rw p

-- What the loop achieves: `n` of the item are gone.
pub record Removed (v w : Inventory) (id n : ℕ) : Type 0 where
  pub valid : IsValid w
  pub same_length : length w.slots ≡ length v.slots
  pub counts :
      (j : ℕ)
      → j ≢ null_item_id
      → get_item_count w j + (if id == j then n else 0) ≡ get_item_count v j
