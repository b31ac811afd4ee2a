-- ===== src/ConnectionPool/Calls.antt =====
-- The calls of include/ConnectionPool.hpp and the timeouts of its connections.
use libsimplesvr.Base.{ℕ, ◌^◌, ◌<◌, ◌≡◌, true, Option, none, some, List}
use libsimplesvr.ConnectionPool.{
  ConnectionInfo, ConnectionPool, Result, returns, faults, attach, detach, erase, on_timeout,
  set_max_connection, set_idle_timeout,
}
use libsimplesvr.ConnectionPool.Keep.{IsPool}

-- A call of the pool, or the timeout of a connection.
pub data Call : Type 0 where
  attaches : ℕ → ℕ → Call
  detaches : ℕ → ℕ → ℕ → Call
  erases times_out sets_max sets_timeout : ℕ → Call

abbrev after : {A : Type 0} → Result A → Option ConnectionPool
after (returns a p) = some p
after faults = none

unfoldable pub perform : Call → ConnectionPool → Option ConnectionPool
perform (attaches address garbage) p = after (attach address garbage p)
perform (detaches interval now id) p = after (detach interval now id p)
perform (erases id) p = after (erase id p)
perform (times_out id) p = after (on_timeout id p)
perform (sets_max max) p = some (set_max_connection max p)
perform (sets_timeout timeout) p = some (set_idle_timeout timeout p)

-- What a caller must see to: a detached connection is one of the pool, an erased one is in use, the
-- timer calls for one in the list of its address, and the maximum has 32 bits.
abbrev pub IsCall : ConnectionPool → Call → Type 0
IsCall p (attaches address garbage) = Unit
IsCall p (detaches interval now id) = (info : ConnectionInfo) × (p.infos id ≡ some info)
IsCall p (erases id) = (info : ConnectionInfo) × (p.infos id ≡ some info) × (info.active ≡ true)
IsCall p (times_out id) =
    (info : ConnectionInfo) × (ids : List ℕ) × (p.infos id ≡ some info)
    × (p.connection_map info.address ≡ some ids)
IsCall p (sets_max max) = max < 2 ^ 32
IsCall p (sets_timeout timeout) = Unit

abbrev pub Performed : Option ConnectionPool → Type 0
Performed none = ⊥
Performed (some p) = IsPool p
