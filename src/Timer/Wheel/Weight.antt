-- ===== src/Timer/Wheel/Weight.antt =====
-- Conservation in the timing wheel (include/Timer.hpp): adding, cascading and detaching lose no
-- item and make none up, counted under any weight.
use libsimplesvr.Base.{ℕ, ◌+◌, ◌%◌, ◌^◌, ◌<◌, ◌≡◌, List, [], ◌∷◌, arith}
use libsimplesvr.Base.Sums.{put, weight, sum_below, sum_below-put}
use libsimplesvr.Timer.Wheel.{
  TimerItem, Timer, tvr_size, tvn_size, internal_add_timer_item, re_add, slot_of, cascade2,
  cascade3, cascade4, cascade5, cascade_all, detach, advance,
}
use libsimplesvr.Timer.Wheel.Place.{add_push}

module _ {ℓ} {D : Type ℓ} (p : TimerItem D → ℕ) where
  abbrev pub slots : ℕ → (ℕ → List (TimerItem D)) → ℕ
  slots n v = sum_below n (λ i. weight p (v i))

  -- The weight of all that stands in the wheel.
  unfoldable pub pending : Timer D → ℕ
  pending t =
      slots tvr_size t.vector1
      + slots tvn_size t.vector2
      + slots tvn_size t.vector3
      + slots tvn_size t.vector4
      + slots tvn_size t.vector5

  slots-put :
      (n k : ℕ) (v : ℕ → List (TimerItem D)) (xs : List (TimerItem D))
      → k < n
      → slots n (put v k xs) + weight p (v k) ≡ slots n v + weight p xs
  slots-put n k v xs l =
      let h =
        sum_below-put n k (λ i. weight p (v i)) (λ i. weight p (put v k xs i)) l
          (λ j ne. ground arith) in
      let e : weight p (put v k xs k) ≡ weight p xs = ground arith in omega (arith, h, e)

  pub pending-add :
      (item : TimerItem D) (t : Timer D)
      → pending (internal_add_timer_item item t) ≡ pending t + p item
  unfolding pending
  pending-add item t =
      add_push (λ u. pending u ≡ pending t + p item) item t
        (λ i l. omega (arith, slots-put tvr_size i t.vector1 (item ∷ t.vector1 i) l))
        (λ i l. omega (arith, slots-put tvn_size i t.vector2 (item ∷ t.vector2 i) l))
        (λ i l. omega (arith, slots-put tvn_size i t.vector3 (item ∷ t.vector3 i) l))
        (λ i l. omega (arith, slots-put tvn_size i t.vector4 (item ∷ t.vector4 i) l))
        (λ i l. omega (arith, slots-put tvn_size i t.vector5 (item ∷ t.vector5 i) l))

  pending-re_add :
      (xs : List (TimerItem D)) (t : Timer D) → pending (re_add xs t) ≡ pending t + weight p xs
  unfolding re_add
  pending-re_add [] t = omega arith
  pending-re_add (x ∷ xs) t =
      omega (arith, pending-re_add xs (internal_add_timer_item x t), pending-add x t)

  pending-cascade2 : (i : ℕ) (t : Timer D) → i < tvn_size → pending (cascade2 i t) ≡ pending t
  unfolding cascade2 pending
  pending-cascade2 i t l = omega (
    arith,
    pending-re_add (t.vector2 i) (record t { vector2 = put t.vector2 i [] }),
    slots-put tvn_size i t.vector2 [] l,
  )

  pending-cascade3 : (i : ℕ) (t : Timer D) → i < tvn_size → pending (cascade3 i t) ≡ pending t
  unfolding cascade3 pending
  pending-cascade3 i t l = omega (
    arith,
    pending-re_add (t.vector3 i) (record t { vector3 = put t.vector3 i [] }),
    slots-put tvn_size i t.vector3 [] l,
  )

  pending-cascade4 : (i : ℕ) (t : Timer D) → i < tvn_size → pending (cascade4 i t) ≡ pending t
  unfolding cascade4 pending
  pending-cascade4 i t l = omega (
    arith,
    pending-re_add (t.vector4 i) (record t { vector4 = put t.vector4 i [] }),
    slots-put tvn_size i t.vector4 [] l,
  )

  pending-cascade5 : (i : ℕ) (t : Timer D) → i < tvn_size → pending (cascade5 i t) ≡ pending t
  unfolding cascade5 pending
  pending-cascade5 i t l = omega (
    arith,
    pending-re_add (t.vector5 i) (record t { vector5 = put t.vector5 i [] }),
    slots-put tvn_size i t.vector5 [] l,
  )

  pending-cascade_all : (t : Timer D) → pending (cascade_all t) ≡ pending t
  unfolding cascade_all
  pending-cascade_all t =
      let i2 = slot_of (2 ^ 8) t.last_timeval in
      let i3 = slot_of (2 ^ 14) t.last_timeval in
      let i4 = slot_of (2 ^ 20) t.last_timeval in
      let i5 = slot_of (2 ^ 26) t.last_timeval in
      ground (
        arith,
        pending-cascade2 i2 t,
        pending-cascade3 i3 (cascade2 i2 t),
        pending-cascade4 i4 (cascade3 i3 (cascade2 i2 t)),
        pending-cascade5 i5 (cascade4 i4 (cascade3 i3 (cascade2 i2 t))),
      )

  -- A round up to the callbacks moves items from the wheel to the detached chain, and loses and
  -- adds none under any weight.
  pub pending-advance :
      (t : Timer D) → pending (advance t) + weight p (advance t).firing ≡ pending t
  unfolding advance detach pending
  pending-advance t =
      let u = cascade_all t in
      omega (
        arith,
        pending-cascade_all t,
        slots-put tvr_size (u.last_timeval % tvr_size) u.vector1 [] (omega arith),
      )
