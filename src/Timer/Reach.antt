-- ===== src/Timer/Reach.antt =====
-- The states that a timer of include/Timer.hpp can be in between two calls: TimerBase(), and then
-- any sequence of SetTimeout, Clear, Update and CheckTimer.
use libsimplesvr.Base.{ℕ, ◌+◌, ◌^◌, ◌≤◌, ◌<◌, List, arith, refl}
use libsimplesvr.Timer.Wheel.{TimerItem, Timer, timer_base}
use libsimplesvr.Timer.Wheel.Due.{InvAt}
use libsimplesvr.Timer.Ops.{Call, call, check_timer}
use libsimplesvr.Timer.Ops.Calls.{call-Kept}
use libsimplesvr.Timer.Ops.Check.{check_timer-Ran}
use libsimplesvr.Timer.Ops.Exact.{quiet, Split, check_timer-Split}

-- The clock stays 2 ^ 32 ticks below the end of uint64_t.
abbrev InWord : ℕ → Type 0
InWord now = now + 2 ^ 32 < 2 ^ 64

pub data Reach {ℓ} {D : Type ℓ} (interval : ℕ) (script : TimerItem D → Timer D → List (Call D))
    : Timer D → Type ℓ where
  starts : (now : ℕ) → InWord now → Reach interval script (timer_base now)
  is_called :
      (c : Call D) (t : Timer D)
      → Reach interval script t
      → Reach interval script (call interval script c t)
  is_checked :
      (now : ℕ) (t : Timer D)
      → t.last_timeval ≤ now
      → InWord now
      → Reach interval script t
      → Reach interval script (check_timer interval script now t).0

module _ {ℓ} {D : Type ℓ} where
  pub timer_base-InvAt : (now : ℕ) → InvAt {D = D} (timer_base now)
  unfolding timer_base
  timer_base-InvAt now = record {
    time = refl;
    first = λ i. tt;
    second = λ i. tt;
    third = λ i. tt;
    fourth = λ i. tt;
    fifth = λ i. tt;
  }

module _ {ℓ} {D : Type ℓ} (interval : ℕ) (script : TimerItem D → Timer D → List (Call D)) where
  -- Every state that a timer can be in has the wheel's invariant and a clock in range.
  pub Reach-InvAt : (t : Timer D) → Reach interval script t → InvAt t × InWord t.last_timeval
  unfolding timer_base
  Reach-InvAt _ (starts now room) = (timer_base-InvAt now, room)
  Reach-InvAt _ (is_called c t r) =
      let (v, room) = Reach-InvAt t r in
      let k = call-Kept interval script c t room v in (k.inv, omega (arith, k.time))
  Reach-InvAt _ (is_checked now t le room r) =
      let (v, _) = Reach-InvAt t r in
      let k = check_timer-Ran interval script now t le room v in (k.inv, omega (arith, k.time))

-- A timer that any use has brought about, and CheckTimer at a later time that is in range with
-- callbacks that leave the timer alone: the items that it invokes are due before that time, those
-- that it keeps are due from then on, and together they are the items that there were.
pub Reach-Split {ℓ} :
    {D : Type ℓ} (interval : ℕ) (script : TimerItem D → Timer D → List (Call D)) (now : ℕ)
    (t : Timer D)
    → Reach interval script t
    → t.last_timeval < now
    → InWord now
    → Split now t (check_timer interval quiet now t)
Reach-Split interval script now t r lt room =
    check_timer-Split interval now t lt room (Reach-InvAt interval script t r).0
