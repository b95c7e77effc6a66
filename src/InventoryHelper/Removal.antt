-- ===== src/InventoryHelper/Removal.antt =====
-- Removing a number of an item across slots.
use amalgam_engine.Prelude.{
  ℕ, ◌%◌, ◌^◌, ◌≤◌, ◌<◌, ◌≡◌, ◌≢◌, ap, ◌∙◌, Bool, List, some, length, arith,
}
use amalgam_engine.Prelude.Map.{Bytes}
use amalgam_engine.ItemData.{Item, ItemData, null_item_id, get_item_by_string}
use amalgam_engine.Inventory.{Inventory, get_item_count}
use amalgam_engine.Inventory.Stacks.{IsValid}
use amalgam_engine.InventoryHelper.{Entity, RemoveResult, Message, remove_loop, remove_item_by_id}
use amalgam_engine.InventoryHelper.Slots.{Removed}
use amalgam_engine.InventoryHelper.Rounds.{remove_loop-Removed, remove_loop-none}

-- The server's calls on an entity whose inventory is valid and holds enough of an item that exists.
module _ (e : Entity) (d : ItemData) (s : Bytes) (count : ℕ) (report : Bool) (item : Item)
    (v : Inventory) (exists : get_item_by_string d s ≡ some item) (has : e.inventory ≡ some v)
    (ok : IsValid v) (real : item.numeric_id ≢ null_item_id)
    (enough : count ≤ get_item_count v item.numeric_id) where
  call : remove_item_by_id e d s count report ≡ (
      let r = remove_loop item.numeric_id e.client (length v.slots) 0 count v in
      (record e { inventory = some r.0 }, RemoveResult.success, r.1))
  unfolding remove_item_by_id
  call = ground arith

  -- Asked to remove fewer than 256 of an item that exists, from an entity whose inventory is valid and
  -- holds at least so many, `removeItem` by string ID reports success and the entity's inventory has
  -- exactly so many fewer of the item, the same number of every other item, and is valid.
  pub remove_item_by_id-Removed :
      count < 2 ^ 8
      → ((remove_item_by_id e d s count report).1 ≡ RemoveResult.success)
        × ((w : Inventory) × ((remove_item_by_id e d s count report).0.inventory ≡ some w)
            × Removed v w item.numeric_id count)
  remove_item_by_id-Removed small =
      let r = remove_loop item.numeric_id e.client (length v.slots) 0 count v in
      (
        ap (λ (t : Entity × RemoveResult × List (ℕ × Message)). t.1) call,
        (
          r.0,
          ap (λ (t : Entity × RemoveResult × List (ℕ × Message)). t.0.inventory) call,
          remove_loop-Removed item.numeric_id e.client real (length v.slots) 0 count v (omega arith)
              ok small (unfold get_item_count in enough),
        ),
      )

  -- Asked for a positive multiple of 256 that the inventory holds, `removeItem` reports success and
  -- removes nothing: the number left to remove is cut to a byte before it is used.
  pub remove_item_by_id_none :
      0 < count
      → count % 2 ^ 8 ≡ 0
      → ((remove_item_by_id e d s count report).1 ≡ RemoveResult.success)
        × ((remove_item_by_id e d s count report).0.inventory ≡ some v)
  remove_item_by_id_none pos multiple = (
    ap (λ (t : Entity × RemoveResult × List (ℕ × Message)). t.1) call,
    ap (λ (t : Entity × RemoveResult × List (ℕ × Message)). t.0.inventory) call
        ∙ ap some (
            remove_loop-none item.numeric_id e.client real (length v.slots) 0 count v (omega arith)
              ok pos multiple),
  )
