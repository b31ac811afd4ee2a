-- ===== src/Timer/Ops/Tests.antt =====
-- The timer of include/Timer.hpp at concrete inputs.
use native.Mathlib.Decide.{ℕ_discrete}
use libsimplesvr.Base.{
  Bool, true, false, ltb, sym, subst, if◌then◌else◌, ◌==◌, ℕ, ◌+◌, ◌-◌, ◌^◌, ◌<◌, ◌≡◌, List, [],
  ◌∷◌, arith, refl, some, none,
}
use libsimplesvr.Base.Int.{pos}
use libsimplesvr.Base.Sums.{weight, put}
use libsimplesvr.Timer.Wheel.{
  TimerItem, Timer, timer_base, internal_add_timer_item, advance, detach, cascade_all,
}
use libsimplesvr.Timer.Wheel.Weight.{pending, pending-advance}
use libsimplesvr.Timer.Wheel.Due.{InvAt}
use libsimplesvr.Timer.Wheel.Round.{Advanced, advance-Advanced}
use libsimplesvr.Timer.Ops.{
  clear, Call, sets, clears, call, calls, set_timeout, deadline, find, check_timer, ticks, tick,
  fire, take_firing, erase, insert,
}
use libsimplesvr.Timer.Ops.Calls.{Kept, calls-Kept}
use libsimplesvr.Timer.Ops.Check.{Ran, check_timer-Ran}
use libsimplesvr.Timer.Ops.Exact.{quiet, Split, check_timer-Split}
use libsimplesvr.Timer.Ops.Links.{Links, clear_item}
use libsimplesvr.Timer.Ops.Chains.{Holds}
use libsimplesvr.Timer.Ops.Refines.{slot_list, clear_item-clear}
use libsimplesvr.Timer.Reach.{Reach, starts, is_called, Reach-InvAt, Reach-Split}

-- A timer of intervals of 10 ms that is started at the tick 100 and set to 35 ms and to 9 s.
abbrev empty : Timer ℕ
empty = timer_base 100

abbrev one : Timer ℕ
one = call 10 quiet (sets 100 (pos 35) 7) empty

abbrev two : Timer ℕ
two = call 10 quiet (sets 101 (pos 9000) 8) one

two-Reach : Reach 10 quiet two
two-Reach = is_called _ one (is_called _ empty (starts 100 (omega arith)))

two-time : two.last_timeval ≡ 100
unfolding call deadline set_timeout internal_add_timer_item timer_base
two-time = refl

two-InvAt : InvAt two
two-InvAt = (Reach-InvAt 10 quiet two two-Reach).0

two-room : two.last_timeval + 2 ^ 32 < 2 ^ 64
two-room = (Reach-InvAt 10 quiet two two-Reach).1

-- The item that is due at the tick 103 is the one that CheckTimer invokes at 104.
abbrev first_item : TimerItem ℕ
first_item = record { address = 0; timer_id = 1; timeval = 103; payload = 7 }

invoked : (check_timer 10 quiet 104 two).1 ≡ first_item ∷ []
unfolding check_timer ticks tick fire calls take_firing erase call deadline set_timeout insert find
    internal_add_timer_item timer_base advance detach cascade_all
invoked = refl

not_yet : (check_timer 10 quiet 103 two).1 ≡ []
unfolding check_timer ticks tick fire calls take_firing erase call deadline set_timeout insert find
    internal_add_timer_item timer_base advance detach cascade_all
not_yet = refl

advance-Advanced_example : Advanced two.last_timeval (advance two)
advance-Advanced_example = advance-Advanced two two-room two-InvAt

pending-advance_example :
    pending (λ i. i.payload) (advance two) + weight (λ i. i.payload) (advance two).firing
    ≡ pending (λ i. i.payload) two
pending-advance_example = pending-advance (λ i. i.payload) two

calls-Kept_example : Kept two (calls 10 quiet (clears 1 ∷ sets 102 (pos 20) 9 ∷ []) two)
calls-Kept_example =
    calls-Kept 10 quiet (clears 1 ∷ sets 102 (pos 20) 9 ∷ []) two two-room two-InvAt

-- A callback that sets another timer.
abbrev repeating : TimerItem ℕ → Timer ℕ → List (Call ℕ)
repeating item t = sets 104 (pos 30) item.payload ∷ []

check_timer-Ran_example :
    Ran (110 - two.last_timeval) two.last_timeval (check_timer 10 repeating 110 two)
check_timer-Ran_example =
    check_timer-Ran 10 repeating 110 two (omega (arith, two-time)) (omega arith) two-InvAt

check_timer-Split_example : Split 104 two (check_timer 10 quiet 104 two)
check_timer-Split_example =
    check_timer-Split 10 104 two (omega (arith, two-time)) (omega arith) two-InvAt

Reach-InvAt_example : InvAt two × (two.last_timeval + 2 ^ 32 < 2 ^ 64)
Reach-InvAt_example = Reach-InvAt 10 quiet two two-Reach

Reach-Split_example : Split 104 two (check_timer 10 quiet 104 two)
Reach-Split_example = Reach-Split 10 quiet 104 two two-Reach (omega (arith, two-time)) (omega arith)

-- Two items in the slot 3, the items at 5 and 6.
abbrev linked : Links
linked = record {
  node =
      put
        (put (λ a. none) 5 (some (record { prev_item = none; next_item = some 6; base = some 3 })))
        6 (some (record { prev_item = some 5; next_item = none; base = some 3 }));
  slot = put (λ i. none) 3 (some 5);
}

abbrev item_at : ℕ → TimerItem ℕ
item_at a = record { address = a; timer_id = a; timeval = 103; payload = 7 }

abbrev linked_timer : Timer ℕ
linked_timer = record {
  last_timer_id = 6;
  last_timeval = 100;
  vector1 = λ j. if 3 == j then item_at 5 ∷ item_at 6 ∷ [] else [];
  vector2 = λ _. [];
  vector3 = λ _. [];
  vector4 = λ _. [];
  vector5 = λ _. [];
  firing = [];
  timer_data_map = (6, item_at 6) ∷ (5, item_at 5) ∷ [];
  next_address = 7;
}

if_same : (c : Bool) (x : List (TimerItem ℕ)) → (if c then x else x) ≡ x
if_same true x = refl
if_same false x = refl

other_slots : (j : ℕ) → (3 == j) ≡ false → slot_list linked_timer j ≡ []
unfolding slot_list
other_slots j e =
    rw
      (
        e,
        if_same (ltb j 448) [],
        if_same (ltb j 384) [],
        if_same (ltb j 320) [],
        if_same (ltb j 256) [],
      )
      refl

slot_three : slot_list linked_timer 3 ≡ item_at 5 ∷ item_at 6 ∷ []
unfolding slot_list
slot_three = refl

linked-Holds : (j : ℕ) → Holds linked j (slot_list linked_timer j)
linked-Holds j = elim (ℕ_discrete 3 j) [
  | yes q ↦
      subst (λ k. Holds linked k (slot_list linked_timer k)) q
        (subst (Holds linked 3) (sym slot_three) (
          (some 6, (refl, some 6, refl, (refl, none, refl, (refl, refl)))),
          (((λ e. ground (arith, e)), tt), (tt, tt)),
        ))
  | no ne ↦
      let t : (3 == j) ≡ false = ground (arith, ne) in
      subst (Holds linked j) (sym (other_slots j t)) (rw t ((none, (refl, refl)), tt))
]

five_is_found : find 5 linked_timer.timer_data_map ≡ some (item_at 5)
unfolding find
five_is_found = refl

clear_item-clear_example :
    (h' : Links) × (clear_item 5 linked ≡ some h')
    × (h'.node 5 ≡ none)
    × ((j : ℕ) → Holds h' j (slot_list (clear 5 linked_timer) j))
clear_item-clear_example =
    clear_item-clear linked linked_timer 5 3 [] (item_at 5) (item_at 6 ∷ []) linked-Holds slot_three
      five_is_found
