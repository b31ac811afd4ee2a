-- ===== src/Timer/Wheel/Cascade.antt =====
-- Cascading a slot (include/Timer.hpp) keeps the wheel's invariant and passes one window.
use libsimplesvr.Base.{ℕ, ◌+◌, ◌%◌, ◌^◌, ◌<◌, ◌≡◌, ◌≢◌, List, arith, All, All-map_impl}
use libsimplesvr.Timer.Wheel.{TimerItem, Timer, tvn_size, cascade2, cascade3, cascade4, cascade5}
use libsimplesvr.Timer.Wheel.Invariant.{InWindow, Slots-empty, Inv, Windows, re_add-Inv}

-- A window that has been cascaded is passed.
later-window :
    (unit c k i tv : ℕ)
    → k ≡ c % tvn_size
    → i ≢ k
    → InWindow unit c i tv
    → InWindow unit (c + 1) i tv
later-window unit c k i tv e ne h = record {
  q = h.q;
  slot = h.slot;
  low = omega (arith, h.slot, h.low);
  high = omega (arith, h.high);
  reached = h.reached;
  word = h.word;
}

module _ {ℓ} {D : Type ℓ} where
  -- The items of a coarser slot have due times that are words.
  words :
      (unit c i : ℕ) (xs : List (TimerItem D))
      → All (λ item. InWindow unit c i item.timeval) xs
      → All (λ item. item.timeval < 2 ^ 64) xs
  words unit c i xs = All-map_impl _ _ xs (λ item h. h.word)

  pub cascade2-Inv :
      {last c2 c3 c4 c5 : ℕ} (k : ℕ) (t : Timer D)
      → k ≡ c2 % tvn_size
      → Windows last (c2 + 1) c3 c4 c5
      → Inv last c2 c3 c4 c5 t
      → Inv last (c2 + 1) c3 c4 c5 (cascade2 k t)
  unfolding cascade2
  cascade2-Inv {c2} k t e w v =
      re_add-Inv w (t.vector2 k) _ (words (2 ^ 8) c2 k (t.vector2 k) (v.second k)) (record {
        time = v.time;
        first = v.first;
        third = v.third;
        fourth = v.fourth;
        fifth = v.fifth;
        second =
            Slots-empty (InWindow (2 ^ 8) c2) (InWindow (2 ^ 8) (c2 + 1)) t.vector2 k
              (λ i tv. later-window (2 ^ 8) c2 k i tv e) v.second;
      })

  pub cascade3-Inv :
      {last c2 c3 c4 c5 : ℕ} (k : ℕ) (t : Timer D)
      → k ≡ c3 % tvn_size
      → Windows last c2 (c3 + 1) c4 c5
      → Inv last c2 c3 c4 c5 t
      → Inv last c2 (c3 + 1) c4 c5 (cascade3 k t)
  unfolding cascade3
  cascade3-Inv {c3} k t e w v =
      re_add-Inv w (t.vector3 k) _ (words (2 ^ 14) c3 k (t.vector3 k) (v.third k)) (record {
        time = v.time;
        first = v.first;
        second = v.second;
        fourth = v.fourth;
        fifth = v.fifth;
        third =
            Slots-empty (InWindow (2 ^ 14) c3) (InWindow (2 ^ 14) (c3 + 1)) t.vector3 k
              (λ i tv. later-window (2 ^ 14) c3 k i tv e) v.third;
      })

  pub cascade4-Inv :
      {last c2 c3 c4 c5 : ℕ} (k : ℕ) (t : Timer D)
      → k ≡ c4 % tvn_size
      → Windows last c2 c3 (c4 + 1) c5
      → Inv last c2 c3 c4 c5 t
      → Inv last c2 c3 (c4 + 1) c5 (cascade4 k t)
  unfolding cascade4
  cascade4-Inv {c4} k t e w v =
      re_add-Inv w (t.vector4 k) _ (words (2 ^ 20) c4 k (t.vector4 k) (v.fourth k)) (record {
        time = v.time;
        first = v.first;
        second = v.second;
        third = v.third;
        fifth = v.fifth;
        fourth =
            Slots-empty (InWindow (2 ^ 20) c4) (InWindow (2 ^ 20) (c4 + 1)) t.vector4 k
              (λ i tv. later-window (2 ^ 20) c4 k i tv e) v.fourth;
      })

  pub cascade5-Inv :
      {last c2 c3 c4 c5 : ℕ} (k : ℕ) (t : Timer D)
      → k ≡ c5 % tvn_size
      → Windows last c2 c3 c4 (c5 + 1)
      → Inv last c2 c3 c4 c5 t
      → Inv last c2 c3 c4 (c5 + 1) (cascade5 k t)
  unfolding cascade5
  cascade5-Inv {c5} k t e w v =
      re_add-Inv w (t.vector5 k) _ (words (2 ^ 26) c5 k (t.vector5 k) (v.fifth k)) (record {
        time = v.time;
        first = v.first;
        second = v.second;
        third = v.third;
        fourth = v.fourth;
        fifth =
            Slots-empty (InWindow (2 ^ 26) c5) (InWindow (2 ^ 26) (c5 + 1)) t.vector5 k
              (λ i tv. later-window (2 ^ 26) c5 k i tv e) v.fifth;
      })
