-- ===== src/Timer/Ops/Exact.antt =====
-- CheckTimer of include/Timer.hpp with callbacks that leave the timer alone, against what a timer
-- promises: of the items that are set, exactly those that have become due are invoked.
use libsimplesvr.Base.{
  ℕ, zero, suc, ◌+◌, ◌-◌, ◌^◌, ◌≤◌, ◌<◌, ◌≡◌, refl, List, [], ◌∷◌, arith, All, All-map_impl, length,
  ap, subst,
}
use libsimplesvr.Base.Sums.{weight, weight-append}
use libsimplesvr.Timer.Wheel.{TimerItem, Timer, advance}
use libsimplesvr.Timer.Wheel.Weight.{pending, pending-advance}
use libsimplesvr.Timer.Wheel.Due.{InvAt, DueFrom}
use libsimplesvr.Timer.Wheel.Round.{advance-Advanced}
use libsimplesvr.Timer.Ops.{Call, calls, take_firing, fire, tick, ticks, check_timer}
use libsimplesvr.Timer.Ops.Check.{check_timer-Ran, tick-Ran}

module _ {ℓ} {D : Type ℓ} where
  -- A callback that does not use the timer.
  abbrev pub quiet : TimerItem D → Timer D → List (Call D)
  quiet item t = []

  -- `u` has the vectors of `t`.
  record SameWheel (t u : Timer D) : Type ℓ where
    first : u.vector1 ≡ t.vector1
    second : u.vector2 ≡ t.vector2
    third : u.vector3 ≡ t.vector3
    fourth : u.vector4 ≡ t.vector4
    fifth : u.vector5 ≡ t.vector5

  SameWheel-DueFrom : {n : ℕ} (t u : Timer D) → SameWheel t u → DueFrom n t → DueFrom n u
  SameWheel-DueFrom t u s d = record {
    first = rw s.first d.first;
    second = rw s.second d.second;
    third = rw s.third d.third;
    fourth = rw s.fourth d.fourth;
    fifth = rw s.fifth d.fifth;
  }

  SameWheel-pending :
      (p : TimerItem D → ℕ) (t u : Timer D) → SameWheel t u → pending p u ≡ pending p t
  unfolding pending
  SameWheel-pending p t u s = rw (s.first, s.second, s.third, s.fourth, s.fifth)

  -- The timer between ticks as a bag of items: after `n` rounds the bag is split in two.
  pub record Split (now : ℕ) (t : Timer D) (r : Timer D × List (TimerItem D)) : Type ℓ where
    pub conserved : (p : TimerItem D → ℕ) → pending p r.0 + weight p r.1 ≡ pending p t
    pub due : All (λ item. item.timeval < now) r.1
    pub later : DueFrom now r.0

module _ {ℓ} {D : Type ℓ} (interval : ℕ) where
  fire-SameWheel :
      (fuel : ℕ) (t : Timer D) (chain : List (TimerItem D))
      → t.firing ≡ chain
      → length chain ≤ fuel
      → SameWheel t (fire interval quiet fuel t).0 × ((fire interval quiet fuel t).1 ≡ chain)
  unfolding fire calls take_firing
  fire-SameWheel zero t [] e l =
      (record { first = refl; second = refl; third = refl; fourth = refl; fifth = refl }, refl)
  fire-SameWheel zero t (x ∷ xs) e l = absurd (omega arith)
  fire-SameWheel (suc fuel) t [] e l =
      rw (e, fire)
        (record { first = refl; second = refl; third = refl; fourth = refl; fifth = refl }, refl)
  fire-SameWheel (suc fuel) t (x ∷ xs) e l =
      let r = fire-SameWheel fuel (take_firing x xs t) xs refl (omega arith) in
      let s = r.0 in
      rw (e, fire)
        (
          record {
            first = s.first;
            second = s.second;
            third = s.third;
            fourth = s.fourth;
            fifth = s.fifth;
          },
          ap (◌∷◌ x) r.1,
        )

  tick-Split :
      (t : Timer D)
      → t.last_timeval + 2 ^ 32 + 1 < 2 ^ 64
      → InvAt t
      → Split (t.last_timeval + 1) t (tick interval quiet t)
  unfolding tick
  tick-Split t room v =
      let a = advance-Advanced t (omega arith) v in
      let u = advance t in
      let r = fire-SameWheel (length u.firing) u u.firing refl (omega arith) in
      record {
        conserved =
            λ p. omega (arith, SameWheel-pending p u _ r.0, ap (weight p) r.1, pending-advance p t);
        due = (tick-Ran interval quiet t room v).never_early;
        later = SameWheel-DueFrom u _ r.0 a.rest;
      }

  ticks-conserved :
      (n : ℕ) (t : Timer D)
      → t.last_timeval + n + 2 ^ 32 < 2 ^ 64
      → InvAt t
      → (p : TimerItem D → ℕ)
      → let r = ticks interval quiet n t in pending p r.0 + weight p r.1 ≡ pending p t
  unfolding ticks
  ticks-conserved zero t room v p = omega arith
  ticks-conserved (suc n) t room v p =
      let a = tick-Ran interval quiet t (omega arith) v in
      let r = tick interval quiet t in
      omega (
        arith,
        (tick-Split t (omega arith) v).conserved p,
        ticks-conserved n r.0 (omega (arith, a.time)) a.inv p,
        weight-append p r.1 (ticks interval quiet n r.0).1,
      )

  ticks-later :
      (n : ℕ) (t : Timer D)
      → t.last_timeval + suc n + 2 ^ 32 < 2 ^ 64
      → InvAt t
      → DueFrom (t.last_timeval + suc n) (ticks interval quiet (suc n) t).0
  unfolding ticks
  ticks-later zero t room v = (tick-Split t (omega arith) v).later
  ticks-later (suc n) t room v =
      let a = tick-Ran interval quiet t (omega arith) v in
      let u = (tick interval quiet t).0 in
      let e : u.last_timeval + suc n ≡ t.last_timeval + suc (suc n) = omega (arith, a.time) in
      subst (λ k. DueFrom k (ticks interval quiet (suc n) u).0) e
        (ticks-later n u (omega (arith, a.time)) a.inv)

  -- CheckTimer splits the bag at `now`.
  pub check_timer-Split :
      (now : ℕ) (t : Timer D)
      → t.last_timeval < now
      → now + 2 ^ 32 < 2 ^ 64
      → InvAt t
      → Split now t (check_timer interval quiet now t)
  unfolding check_timer
  check_timer-Split now t lt room v =
      let last = t.last_timeval in
      let k = now - last - 1 in
      let rounds : suc k ≡ now - last = omega arith in
      let end : last + suc k ≡ now = omega arith in
      record {
        conserved = ticks-conserved (now - last) t (omega arith) v;
        due =
            All-map_impl _ _ _ (λ item h. omega arith)
              (check_timer-Ran interval quiet now t (omega arith) room v).never_early;
        later =
            subst (λ n. DueFrom now (ticks interval quiet n t).0) rounds
              (subst (λ n. DueFrom n (ticks interval quiet (suc k) t).0) end
                (ticks-later k t (omega arith) v));
      }
