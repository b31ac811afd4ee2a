-- ===== src/Timer/Wheel/Place.antt =====
-- Where InternalAddTimerItem (include/Timer.hpp) puts an item: its six branches as one case rule.
use libsimplesvr.Base.{ℕ, ◌+◌, ◌%◌, ◌^◌, ◌≤◌, ◌<◌, inl, inr, arith, ltb, Bool-cases, sub64}
use libsimplesvr.Timer.Wheel.{
  TimerItem, Timer, tvr_size, tvn_size, max_tval, slot_of, push, internal_add_timer_item,
}

module _ {ℓ κ} {D : Type ℓ} (P : Timer D → Type κ) (item : TimerItem D) (t : Timer D) where
  -- The distance of the item from the wheel's time, and the bound that keeps it from wrapping.
  pub add_cases :
      item.timeval < 2 ^ 64
      → t.last_timeval + 2 ^ 32 < 2 ^ 64
      → (item.timeval < t.last_timeval
          → P (record t { vector1 = push t.vector1 (t.last_timeval % tvr_size) item }))
      → (t.last_timeval ≤ item.timeval
          → item.timeval < t.last_timeval + 2 ^ 8
          → P (record t { vector1 = push t.vector1 (item.timeval % tvr_size) item }))
      → (t.last_timeval + 2 ^ 8 ≤ item.timeval
          → item.timeval < t.last_timeval + 2 ^ 14
          → P (record t { vector2 = push t.vector2 (slot_of (2 ^ 8) item.timeval) item }))
      → (t.last_timeval + 2 ^ 14 ≤ item.timeval
          → item.timeval < t.last_timeval + 2 ^ 20
          → P (record t { vector3 = push t.vector3 (slot_of (2 ^ 14) item.timeval) item }))
      → (t.last_timeval + 2 ^ 20 ≤ item.timeval
          → item.timeval < t.last_timeval + 2 ^ 26
          → P (record t { vector4 = push t.vector4 (slot_of (2 ^ 20) item.timeval) item }))
      → ((tv : ℕ)
          → t.last_timeval + 2 ^ 26 ≤ tv
          → tv < t.last_timeval + 2 ^ 32
          → tv ≤ item.timeval
          → P (record t { vector5 = push t.vector5 (slot_of (2 ^ 26) tv) item }))
      → P (internal_add_timer_item item t)
  unfolding internal_add_timer_item
  add_cases bound room k0 k1 k2 k3 k4 k5 = elim (Bool-cases (ltb item.timeval t.last_timeval)) [
    | inl e ↦ rw e (k0 (ground arith))
    | inr e ↦ rw e (elim (Bool-cases (ltb idx tvr_size)) [
      | inl e1 ↦ rw e1 (k1 (ground arith) (ground arith))
      | inr e1 ↦ rw e1 (elim (Bool-cases (ltb idx (2 ^ 14))) [
        | inl e2 ↦ rw e2 (k2 (ground arith) (ground arith))
        | inr e2 ↦ rw e2 (elim (Bool-cases (ltb idx (2 ^ 20))) [
          | inl e3 ↦ rw e3 (k3 (ground arith) (ground arith))
          | inr e3 ↦ rw e3 (elim (Bool-cases (ltb idx (2 ^ 26))) [
            | inl e4 ↦ rw e4 (k4 (ground arith) (ground arith))
            | inr e4 ↦ rw e4 (elim (Bool-cases (ltb max_tval idx)) [
              | inl e5 ↦ rw e5 (k5 _ (ground arith) (ground arith) (ground arith))
              | inr e5 ↦ rw e5 (k5 _ (ground arith) (ground arith) (ground arith))
            ])
          ])
        ])
      ])
    ])
  ]
    where
      idx : ℕ
      idx = sub64 item.timeval t.last_timeval

  -- Without the arithmetic: the item is pushed on some slot of some vector.
  pub add_push :
      ((i : ℕ) → i < tvr_size → P (record t { vector1 = push t.vector1 i item }))
      → ((i : ℕ) → i < tvn_size → P (record t { vector2 = push t.vector2 i item }))
      → ((i : ℕ) → i < tvn_size → P (record t { vector3 = push t.vector3 i item }))
      → ((i : ℕ) → i < tvn_size → P (record t { vector4 = push t.vector4 i item }))
      → ((i : ℕ) → i < tvn_size → P (record t { vector5 = push t.vector5 i item }))
      → P (internal_add_timer_item item t)
  unfolding internal_add_timer_item
  add_push k1 k2 k3 k4 k5 = elim (Bool-cases (ltb item.timeval t.last_timeval)) [
    | inl e ↦ rw e (k1 _ (omega arith))
    | inr e ↦ rw e (elim (Bool-cases (ltb idx tvr_size)) [
      | inl e1 ↦ rw e1 (k1 _ (omega arith))
      | inr e1 ↦ rw e1 (elim (Bool-cases (ltb idx (2 ^ 14))) [
        | inl e2 ↦ rw e2 (k2 _ (omega arith))
        | inr e2 ↦ rw e2 (elim (Bool-cases (ltb idx (2 ^ 20))) [
          | inl e3 ↦ rw e3 (k3 _ (omega arith))
          | inr e3 ↦ rw e3 (elim (Bool-cases (ltb idx (2 ^ 26))) [
            | inl e4 ↦ rw e4 (k4 _ (omega arith))
            | inr e4 ↦ rw e4 (k5 _ (omega arith))
          ])
        ])
      ])
    ])
  ]
    where
      idx : ℕ
      idx = sub64 item.timeval t.last_timeval
