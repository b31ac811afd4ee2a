-- ===== src/Timer/Wheel.antt =====
-- include/Timer.hpp: the hierarchical timing wheel.
--
-- A vector `m_VectorK` is a function from the slot's index to the doubly linked list that the slot
-- heads, newest item first; every index is masked, so none is out of range. The pointers
-- `PrevItem`, `NextItem` and `Base` are the item's place in such a list. An item's address is a number that `new` never gives twice.
pub mod Place
pub mod Invariant
pub mod Cascade
pub mod Weight
pub mod Due
pub mod Round
use libsimplesvr.Base.{
  ℕ, zero, suc, ◌+◌, ◌-◌, ◌*◌, ◌/◌, ◌%◌, ◌^◌, ◌≡◌, Bool, true, false, not, ◌&&◌, ◌||◌, Option, none,
  some, List, [], ◌∷◌, ltb, leb, ◌==◌, if◌then◌else◌, u32, u64, sub64, length, ◌++◌,
}
use libsimplesvr.Base.Sums.{put}

-- TVN_BITS, TVR_BITS, the sizes and MAX_TVAL.
abbrev pub tvn_size : ℕ
tvn_size = 2 ^ 6

abbrev pub tvr_size : ℕ
tvr_size = 2 ^ 8

abbrev pub max_tval : ℕ
max_tval = 2 ^ 32 - 1

pub record TimerItem {ℓ} (D : Type ℓ) : Type ℓ where
  pub address : ℕ
  pub timer_id : ℕ
  pub timeval : ℕ
  pub payload : D

-- `firing` is the rest of the chain that `CheckTimer` is walking. `timer_data_map` is
-- `m_TimerDataMap`, newest entry first.
pub record Timer {ℓ} (D : Type ℓ) : Type ℓ where
  pub last_timer_id : ℕ
  pub last_timeval : ℕ
  pub vector1 : ℕ → List (TimerItem D)
  pub vector2 : ℕ → List (TimerItem D)
  pub vector3 : ℕ → List (TimerItem D)
  pub vector4 : ℕ → List (TimerItem D)
  pub vector5 : ℕ → List (TimerItem D)
  pub firing : List (TimerItem D)
  pub timer_data_map : List (ℕ × TimerItem D)
  pub next_address : ℕ

-- (v >> shift) & TVN_MASK, with the shift as a power of two.
abbrev pub slot_of : ℕ → ℕ → ℕ
slot_of unit v = v / unit % tvn_size

module _ {ℓ} {D : Type ℓ} where
  -- TimerBase(), at the time `now`.
  unfoldable pub timer_base : ℕ → Timer D
  timer_base now = record {
    last_timer_id = 0;
    last_timeval = now;
    vector1 = λ _. [];
    vector2 = λ _. [];
    vector3 = λ _. [];
    vector4 = λ _. [];
    vector5 = λ _. [];
    firing = [];
    timer_data_map = [];
    next_address = 0;
  }

  -- The item becomes the head of slot `i`.
  abbrev pub push : (ℕ → List (TimerItem D)) → ℕ → TimerItem D → ℕ → List (TimerItem D)
  push v i item = put v i (item ∷ v i)

  -- InternalAddTimerItem. It always returns 0.
  unfoldable pub internal_add_timer_item : TimerItem D → Timer D → Timer D
  internal_add_timer_item item t =
      let last = t.last_timeval in
      let idx = sub64 item.timeval last in
      if ltb item.timeval last
      then record t { vector1 = push t.vector1 (last % tvr_size) item }
      else if ltb idx tvr_size
      then record t { vector1 = push t.vector1 (item.timeval % tvr_size) item }
      else if ltb idx (2 ^ 14)
      then record t { vector2 = push t.vector2 (slot_of (2 ^ 8) item.timeval) item }
      else if ltb idx (2 ^ 20)
      then record t { vector3 = push t.vector3 (slot_of (2 ^ 14) item.timeval) item }
      else if ltb idx (2 ^ 26)
      then record t { vector4 = push t.vector4 (slot_of (2 ^ 20) item.timeval) item }
      else (let tv = if ltb max_tval idx then u64 (max_tval + last) else item.timeval in
          record t { vector5 = push t.vector5 (slot_of (2 ^ 26) tv) item })

  -- The loop of `cascade`: the items of the detached list are added again, head first.
  pub re_add : List (TimerItem D) → Timer D → Timer D
  re_add [] t = t
  re_add (item ∷ rest) t = re_add rest (internal_add_timer_item item t)

  -- cascade(m_VectorK, index), with what it returns left to the caller.
  pub cascade2 : ℕ → Timer D → Timer D
  cascade2 i t = re_add (t.vector2 i) (record t { vector2 = put t.vector2 i [] })

  pub cascade3 : ℕ → Timer D → Timer D
  cascade3 i t = re_add (t.vector3 i) (record t { vector3 = put t.vector3 i [] })

  pub cascade4 : ℕ → Timer D → Timer D
  cascade4 i t = re_add (t.vector4 i) (record t { vector4 = put t.vector4 i [] })

  pub cascade5 : ℕ → Timer D → Timer D
  cascade5 i t = re_add (t.vector5 i) (record t { vector5 = put t.vector5 i [] })

  -- The condition of CheckTimer, in its order: a vector is cascaded while the index below it is 0.
  unfoldable pub cascade_all : Timer D → Timer D
  cascade_all t =
      let i2 = slot_of (2 ^ 8) t.last_timeval in
      let i3 = slot_of (2 ^ 14) t.last_timeval in
      let i4 = slot_of (2 ^ 20) t.last_timeval in
      let i5 = slot_of (2 ^ 26) t.last_timeval in
      if not (t.last_timeval % tvr_size == 0)
      then t
      else if not (i2 == 0)
      then cascade2 i2 t
      else if not (i3 == 0)
      then cascade3 i3 (cascade2 i2 t)
      else if not (i4 == 0)
      then cascade4 i4 (cascade3 i3 (cascade2 i2 t))
      else cascade5 i5 (cascade4 i4 (cascade3 i3 (cascade2 i2 t)))

  -- `++m_LastTimeval`, and the list of the slot is detached.
  unfoldable pub detach : Timer D → Timer D
  detach t =
      let i = t.last_timeval % tvr_size in
      record t {
        last_timeval = u64 (t.last_timeval + 1);
        firing = t.vector1 i;
        vector1 = put t.vector1 i [];
      }

  -- The front half of a round of CheckTimer.
  unfoldable pub advance : Timer D → Timer D
  advance t = detach (cascade_all t)
