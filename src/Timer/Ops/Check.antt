-- ===== src/Timer/Ops/Check.antt =====
-- CheckTimer of include/Timer.hpp, with callbacks that may call the timer.
use libsimplesvr.Base.{
  ℕ, zero, suc, ◌+◌, ◌-◌, ◌^◌, ◌≤◌, ◌<◌, ◌≡◌, refl, List, [], ◌∷◌, ◌∙◌, arith, All, All-map_impl,
  All-append, length,
}
use libsimplesvr.Timer.Wheel.{TimerItem, Timer, advance}
use libsimplesvr.Timer.Wheel.Due.{InvAt}
use libsimplesvr.Timer.Wheel.Round.{IsDue, advance-Advanced}
use libsimplesvr.Timer.Ops.{Call, calls, take_firing, fire, tick, ticks, check_timer}
use libsimplesvr.Timer.Ops.Calls.{calls-Kept}

module _ {ℓ} {D : Type ℓ} where
  -- What `n` rounds from the time `last` give.
  pub record Ran (n last : ℕ) (r : Timer D × List (TimerItem D)) : Type 0 where
    pub inv : InvAt r.0
    pub time : r.0.last_timeval ≡ last + n
    pub never_early : All (λ item. item.timeval < last + n) r.1

module _ {ℓ} {D : Type ℓ} (interval : ℕ) (script : TimerItem D → Timer D → List (Call D)) where
  -- What the walk of a chain gives, for a chain whose items are due at the tick `n`.
  record Fired (n : ℕ) (t : Timer D) (r : Timer D × List (TimerItem D)) : Type 0 where
    inv : InvAt r.0
    time : r.0.last_timeval ≡ t.last_timeval
    due : IsDue n r.1
    done : length r.0.firing ≡ 0

  take_firing-InvAt :
      (item : TimerItem D) (rest : List (TimerItem D)) (t : Timer D)
      → InvAt t
      → InvAt (take_firing item rest t)
  unfolding take_firing
  take_firing-InvAt item rest t v = record {
    time = v.time;
    first = v.first;
    second = v.second;
    third = v.third;
    fourth = v.fourth;
    fifth = v.fifth;
  }

  fire-Fired :
      (n fuel : ℕ) (t : Timer D) (chain : List (TimerItem D))
      → t.firing ≡ chain
      → t.last_timeval + 2 ^ 32 < 2 ^ 64
      → length chain ≤ fuel
      → IsDue n chain
      → InvAt t
      → Fired n t (fire interval script fuel t)
  unfolding fire take_firing
  fire-Fired n zero t [] e room l d v = record { inv = v; time = refl; due = tt; done = rw e }
  fire-Fired n zero t (x ∷ xs) e room l d v = absurd (omega arith)
  fire-Fired n (suc fuel) t [] e room l d v =
      rw (e, fire) (record { inv = v; time = refl; due = tt; done = rw e })
  fire-Fired n (suc fuel) t (x ∷ xs) e room l d v =
      let t' = take_firing x xs t in
      let k = calls-Kept interval script (script x t') t' room (take_firing-InvAt x xs t v) in
      let u = calls interval script (script x t') t' in
      let r =
        fire-Fired n fuel u u.firing refl (omega (arith, k.time)) (omega (arith, k.shorter))
          (k.due n d.1) k.inv in
      rw (e, fire)
        (record { inv = r.inv; time = r.time ∙ k.time; due = (d.0, r.due); done = r.done })

  pub tick-Ran :
      (t : Timer D)
      → t.last_timeval + 2 ^ 32 + 1 < 2 ^ 64
      → InvAt t
      → Ran 1 t.last_timeval (tick interval script t)
  unfolding tick
  tick-Ran t room v =
      let a = advance-Advanced t (omega arith) v in
      let u = advance t in
      let f =
        fire-Fired t.last_timeval (length u.firing) u u.firing refl (omega (arith, a.time))
          (omega arith) a.due a.inv in
      record {
        inv = f.inv;
        time = f.time ∙ a.time;
        never_early = All-map_impl _ _ _ (λ item h. omega arith) f.due;
      }

  ticks-Ran :
      (n : ℕ) (t : Timer D)
      → t.last_timeval + n + 2 ^ 32 < 2 ^ 64
      → InvAt t
      → Ran n t.last_timeval (ticks interval script n t)
  unfolding ticks
  ticks-Ran zero t room v = record { inv = v; time = omega arith; never_early = tt }
  ticks-Ran (suc n) t room v =
      let a = tick-Ran t (omega arith) v in
      let t' = (tick interval script t).0 in
      let b = ticks-Ran n t' (omega (arith, a.time)) a.inv in
      record {
        inv = b.inv;
        time = omega (arith, a.time, b.time);
        never_early =
            All-append _ _ _ (All-map_impl _ _ _ (λ item h. omega arith) a.never_early)
              (All-map_impl _ _ _ (λ item h. omega (arith, a.time)) b.never_early);
      }

  -- CheckTimer at the time `now`, from a wheel with its invariant that is not ahead of `now`, with
  -- `now` in range, whatever the callbacks do to the timer: the wheel arrives at `now` with its
  -- invariant, and every item that was invoked was due before `now`.
  pub check_timer-Ran :
      (now : ℕ) (t : Timer D)
      → t.last_timeval ≤ now
      → now + 2 ^ 32 < 2 ^ 64
      → InvAt t
      → Ran (now - t.last_timeval) t.last_timeval (check_timer interval script now t)
  unfolding check_timer
  check_timer-Ran now t le room v = ticks-Ran (now - t.last_timeval) t (omega arith) v
