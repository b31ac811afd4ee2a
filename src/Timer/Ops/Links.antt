-- ===== src/Timer/Ops/Links.antt =====
-- The pointers of the items of include/Timer.hpp: PrevItem, NextItem and Base, and the heads of the
-- slots that Base points to. Timer/Ops/Unlink has what they are of the lists of Timer/Wheel.
use libsimplesvr.Base.{ℕ, Option, none, some}
use libsimplesvr.Base.Sums.{put}

-- The pointers of an item.
pub record Node : Type 0 where
  pub prev_item : Option ℕ
  pub next_item : Option ℕ
  pub base : Option ℕ

-- The items that are not deleted, by their addresses, and what the slots hold.
pub record Links : Type 0 where
  pub node : ℕ → Option Node
  pub slot : ℕ → Option ℕ

-- An assignment to a pointer of an item; an item that is deleted is a fault, `none`.
unfoldable pub set_prev : ℕ → Option ℕ → Links → Option Links
set_prev a p h = elim (h.node a) [
  | none ↦ none
  | some n ↦ some (record h { node = put h.node a (some (record n { prev_item = p })) })
]

unfoldable pub set_next : ℕ → Option ℕ → Links → Option Links
set_next a q h = elim (h.node a) [
  | none ↦ none
  | some n ↦ some (record h { node = put h.node a (some (record n { next_item = q })) })
]

unfoldable pub set_slot : Option ℕ → Option ℕ → Links → Option Links
set_slot none q h = none
set_slot (some i) q h = some (record h { slot = put h.slot i q })

-- What Clear does to the pointers before it deletes the item at `a`, and Update before it resets it:
-- first the item behind, then the item before or the slot.
unfoldable pub relink_next : ℕ → Links → Option Links
relink_next a h = elim (h.node a) [
  | none ↦ none
  | some n ↦ elim n.next_item [ none ↦ some h | some b ↦ set_prev b n.prev_item h ]
]

unfoldable pub relink_prev : ℕ → Links → Option Links
relink_prev a h = elim (h.node a) [
  | none ↦ none
  | some n ↦ elim n.prev_item [
    | none ↦ set_slot n.base n.next_item h
    | some b ↦ set_next b n.next_item h
  ]
]

unfoldable pub unlink_item : ℕ → Links → Option Links
unlink_item a h = elim (relink_next a h) [ none ↦ none | some h' ↦ relink_prev a h' ]

-- Clear of the item at `a`, which is then deleted.
unfoldable pub clear_item : ℕ → Links → Option Links
clear_item a h = elim (unlink_item a h) [
  | none ↦ none
  | some h' ↦ some (record h' { node = put h'.node a none })
]

-- The end of InternalAddTimerItem, for an item whose pointers are NULL and the slot `i`.
unfoldable pub push_item : ℕ → ℕ → Links → Option Links
push_item a i h = elim (h.slot i) [
  | none ↦ some (record h {
    node = put h.node a (some (record { prev_item = none; next_item = none; base = some i }));
    slot = put h.slot i (some a);
  })
  | some b ↦
      elim (set_prev b (some a) (record h {
        node = put h.node a (some (record { prev_item = none; next_item = some b; base = some i }));
      })) [ none ↦ none | some h' ↦ some (record h' { slot = put h'.slot i (some a) }) ]
]
