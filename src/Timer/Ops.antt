-- ===== src/Timer/Ops.antt =====
-- include/Timer.hpp: the calls on a timer, and CheckTimer.
--
-- The clock is an argument: `now` is what `GetTimeval` returns. `unlink` takes an item out of
-- whichever list holds it, the chain that `CheckTimer` has detached included. Timer/Ops/Links has the
-- pointers `PrevItem`, `NextItem` and `Base` through which the code does so, and Timer/Ops/Refines
-- relates them to the vectors.
pub mod Calls
pub mod Check
pub mod Exact
pub mod Links
pub mod Chains
pub mod Unlink
pub mod Slots
pub mod Pushes
pub mod Refines
mod Tests
use libsimplesvr.Base.{
  ℕ, zero, suc, ◌+◌, ◌-◌, ◌*◌, ◌/◌, ◌%◌, ◌^◌, ◌≡◌, Bool, true, false, not, ◌&&◌, ◌||◌, Option, none,
  some, List, [], ◌∷◌, ltb, leb, ◌==◌, if◌then◌else◌, u32, u64, sub64, length, ◌++◌,
}
use libsimplesvr.Base.Int.{ℤ, pos, negsuc}
use libsimplesvr.Timer.Wheel.{TimerItem, Timer, internal_add_timer_item, advance}

-- GetTimeval() + (timeout / Interval). The quotient of a negative timeout is a negative number,
-- which the conversion to uint64_t wraps.
pub deadline : ℕ → ℕ → ℤ → ℕ
deadline interval now (pos n) = u64 (now + n / interval)
deadline interval now (negsuc n) = sub64 now (suc n / interval)

module _ {ℓ} {D : Type ℓ} where
  -- m_TimerDataMap.find, insert (which keeps an entry that is there) and erase.
  pub find : ℕ → List (ℕ × TimerItem D) → Option (TimerItem D)
  find k [] = none
  find k ((j, item) ∷ m) = if j == k then some item else find k m

  pub insert : ℕ → TimerItem D → List (ℕ × TimerItem D) → List (ℕ × TimerItem D)
  insert k item m = elim (find k m) [ none ↦ (k, item) ∷ m | some _ ↦ m ]

  pub erase : ℕ → List (ℕ × TimerItem D) → List (ℕ × TimerItem D)
  erase k [] = []
  erase k ((j, item) ∷ m) = if j == k then erase k m else (j, item) ∷ erase k m

  -- What stands in the map for a key that is there is changed in place.
  pub assign : ℕ → TimerItem D → List (ℕ × TimerItem D) → List (ℕ × TimerItem D)
  assign k item [] = []
  assign k item ((j, old) ∷ m) = if j == k then (j, item) ∷ m else (j, old) ∷ assign k item m

  pub remove : ℕ → List (TimerItem D) → List (TimerItem D)
  remove a [] = []
  remove a (item ∷ rest) = if item.address == a then rest else item ∷ remove a rest

  pub unlink : ℕ → Timer D → Timer D
  unlink a t = record t {
    vector1 = λ i. remove a (t.vector1 i);
    vector2 = λ i. remove a (t.vector2 i);
    vector3 = λ i. remove a (t.vector3 i);
    vector4 = λ i. remove a (t.vector4 i);
    vector5 = λ i. remove a (t.vector5 i);
    firing = remove a t.firing;
  }

  -- SetTimeout, of both specialisations: the result is the new state and the timer's id.
  unfoldable pub set_timeout : ℕ → ℕ → ℤ → D → Timer D → Timer D × ℕ
  set_timeout interval now timeout payload t =
      let id = u32 (t.last_timer_id + 1) in
      let item : TimerItem D = record {
        address = t.next_address;
        timer_id = id;
        timeval = deadline interval now timeout;
        payload = payload;
      } in
      let t' = internal_add_timer_item item (record t { last_timer_id = id }) in
      (
        record t' {
          timer_data_map = insert id item t.timer_data_map;
          next_address = suc t.next_address;
        },
        id,
      )

  -- Clear.
  unfoldable pub clear : ℕ → Timer D → Timer D
  clear id t = elim (find id t.timer_data_map) [
    | none ↦ t
    | some item ↦ record (unlink item.address t) { timer_data_map = erase id t.timer_data_map }
  ]

  -- Update. InternalAddTimerItem returns 0, so the branch after it is never taken.
  pub update : ℕ → ℕ → ℕ → ℤ → Timer D → Timer D
  update interval now id timeout t = elim (find id t.timer_data_map) [
    | none ↦ t
    | some item ↦
        let item' : TimerItem D = record item { timeval = deadline interval now timeout } in
        internal_add_timer_item item'
          (record (unlink item.address t) { timer_data_map = assign id item' t.timer_data_map })
  ]

  -- GetTimer.
  pub get_timer : ℕ → Timer D → Option D
  get_timer id t = elim (find id t.timer_data_map) [ none ↦ none | some item ↦ some item.payload ]

  -- One round of the inner loop of CheckTimer, up to the callback.
  pub take_firing : TimerItem D → List (TimerItem D) → Timer D → Timer D
  take_firing item rest t = record t {
    firing = rest;
    timer_data_map = erase item.timer_id t.timer_data_map;
  }

-- What a callback does with the timer, each call with the time at which it is made.
pub data Call {ℓ} (D : Type ℓ) : Type ℓ where
  sets : ℕ → ℤ → D → Call D
  clears : ℕ → Call D
  updates : ℕ → ℕ → ℤ → Call D

-- The calls are made while `script` looks at the item and at the state; what it throws is caught.
module _ {ℓ} {D : Type ℓ} (interval : ℕ) (script : TimerItem D → Timer D → List (Call D)) where
  pub call : Call D → Timer D → Timer D
  call (sets now timeout payload) t = (set_timeout interval now timeout payload t).0
  call (clears id) t = clear id t
  call (updates now id timeout) t = update interval now id timeout t

  pub calls : List (Call D) → Timer D → Timer D
  calls [] t = t
  calls (c ∷ cs) t = calls cs (call c t)

  -- The inner loop of CheckTimer. The fuel is the length of the chain, to which no call adds. The
  -- result holds the items that were invoked, first to last.
  pub fire : ℕ → Timer D → Timer D × List (TimerItem D)
  fire zero t = (t, [])
  fire (suc n) t = elim t.firing [
    | [] ↦ (t, [])
    | item ∷ rest ↦
        let t' = take_firing item rest t in
        let (u, invoked) = fire n (calls (script item t') t') in (u, item ∷ invoked)
  ]

  -- A round of the outer loop.
  pub tick : Timer D → Timer D × List (TimerItem D)
  tick t = let t' = advance t in fire (length t'.firing) t'

  pub ticks : ℕ → Timer D → Timer D × List (TimerItem D)
  ticks zero t = (t, [])
  ticks (suc n) t =
      let (t', invoked) = tick t in let (u, later) = ticks n t' in (u, invoked ++ later)

  -- CheckTimer: the outer loop runs while `m_LastTimeval < now`, which no call changes.
  pub check_timer : ℕ → Timer D → Timer D × List (TimerItem D)
  check_timer now t = ticks (now - t.last_timeval) t
