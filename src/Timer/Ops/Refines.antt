-- ===== src/Timer/Ops/Refines.antt =====
-- Clear of include/Timer.hpp on the pointers, against Clear of Timer/Ops on the vectors.
use libsimplesvr.Base.{
  ℕ, ◌-◌, ◌≡◌, refl, sym, subst, Bool, true, false, none, some, List, ◌∷◌, ◌++◌, ltb, if◌then◌else◌,
}
use libsimplesvr.Timer.Wheel.{TimerItem, Timer}
use libsimplesvr.Timer.Ops.{find, remove, unlink, clear}
use libsimplesvr.Timer.Ops.Links.{Links, clear_item}
use libsimplesvr.Timer.Ops.Chains.{Holds}
use libsimplesvr.Timer.Ops.Slots.{clear_item-remove}

if_ap {ℓ} :
    {A B : Type ℓ} (f : A → B) (c : Bool) (x y : A)
    → (if c then f x else f y) ≡ f (if c then x else y)
if_ap f true x y = refl
if_ap f false x y = refl

module _ {ℓ} {D : Type ℓ} where
  -- The slots of the five vectors, numbered one vector after the other.
  unfoldable pub slot_list : Timer D → ℕ → List (TimerItem D)
  slot_list t j =
      if ltb j 256
      then t.vector1 j
      else if ltb j 320
      then t.vector2 (j - 256)
      else if ltb j 384
      then t.vector3 (j - 320)
      else if ltb j 448
      then t.vector4 (j - 384)
      else t.vector5 (j - 448)

  slot_list-unlink :
      (a : ℕ) (t : Timer D) (j : ℕ) → slot_list (unlink a t) j ≡ remove a (slot_list t j)
  unfolding slot_list unlink
  slot_list-unlink a t j =
      rw
        (
          if_ap (remove a) (ltb j 448) (t.vector4 (j - 384)) (t.vector5 (j - 448)),
          if_ap (remove a) (ltb j 384) (t.vector3 (j - 320)) _,
          if_ap (remove a) (ltb j 320) (t.vector2 (j - 256)) _,
          if_ap (remove a) (ltb j 256) (t.vector1 j) _,
        )
        refl

  slot_list-clear :
      (id : ℕ) (item : TimerItem D) (t : Timer D) (j : ℕ)
      → find id t.timer_data_map ≡ some item
      → slot_list (clear id t) j ≡ remove item.address (slot_list t j)
  unfolding slot_list clear
  slot_list-clear id item t j e = rw (e, clear) (slot_list-unlink item.address t j)

  -- Clear of an id that the map has, where the pointers PrevItem, NextItem and Base of the items of
  -- every slot of the five vectors are the slot's list with no item twice, and the item is in a slot:
  -- on the pointers it accesses no item that is deleted and deletes the item, and it leaves pointers
  -- that are, in every slot, the list that Clear leaves in that slot of the vectors.
  pub clear_item-clear :
      (h : Links) (t : Timer D) (id i : ℕ) (before : List (TimerItem D)) (item : TimerItem D)
      (after : List (TimerItem D))
      → ((j : ℕ) → Holds h j (slot_list t j))
      → slot_list t i ≡ before ++ (item ∷ after)
      → find id t.timer_data_map ≡ some item
      → (h' : Links) × (clear_item item.address h ≡ some h')
        × (h'.node item.address ≡ none)
        × ((j : ℕ) → Holds h' j (slot_list (clear id t) j))
  clear_item-clear h t id i before item after all here found =
      let r = clear_item-remove h (slot_list t) i before item after all here in
      (r.0, r.1, r.2, λ j. subst (Holds r.0 j) (sym (slot_list-clear id item t j found)) (r.3 j))
