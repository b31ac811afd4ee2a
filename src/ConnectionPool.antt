-- ===== src/ConnectionPool.antt =====
-- include/ConnectionPool.hpp: the connections of each address that wait to be used again.
--
-- A pointer to a ConnectionInfo is a number, and `infos` what stands behind it: none where it was
-- deleted, which an access faults on. `new` gives numbers that were not given before. Of dwFlags the
-- code uses one bit. The maps are functions; Dump, which prints them, is left out.
mod Tests
pub mod Keep
pub mod Steps
pub mod Calls
pub mod Attach
use libsimplesvr.Base.{
  ℕ, suc, ◌+◌, ◌-◌, ◌^◌, Bool, true, false, not, Option, none, some, List, [], ◌∷◌, ltb, leb, ◌==◌,
  if◌then◌else◌, u32, sub32,
}
use libsimplesvr.Base.Sums.{put}
use libsimplesvr.Timer.Wheel.{Timer}
use libsimplesvr.Timer.Ops.{set_timeout, clear}
use libsimplesvr.Session.{to_int}

pub record ConnectionInfo : Type 0 where
  pub connected : Bool
  pub address : ℕ
  pub idle_timer_id : ℕ
  pub active : Bool

pub record ConnectionPool : Type 0 where
  pub connection_count : ℕ
  pub max_connection : ℕ
  pub idle_connection_timeout : ℕ
  pub connection_map : ℕ → Option (List ℕ)
  pub infos : ℕ → Option ConnectionInfo
  pub next_info : ℕ
  pub timer : Timer ℕ

pub data Result (A : Type 0) : Type 0 where
  returns : A → ConnectionPool → Result A
  faults : Result A

-- ConnectionPool(), with CONNECTIONPOOL_MAXCONNECTION and CONNECTIONPOOL_IDLE_TIMEOUT.
unfoldable pub connection_pool : Timer ℕ → ConnectionPool
connection_pool timer = record {
  connection_count = 0;
  max_connection = 100;
  idle_connection_timeout = 300_000;
  connection_map = λ address. none;
  infos = λ id. none;
  next_info = 0;
  timer = timer;
}

-- NewConnInfo, with what the memory of IdleConnTimerId holds: none for NULL.
unfoldable pub new_conn_info : ℕ → ℕ → ConnectionPool → Option (ℕ × ConnectionInfo × ConnectionPool)
new_conn_info address garbage p =
    if leb p.max_connection p.connection_count
    then none
    else let info : ConnectionInfo = record {
      connected = false;
      address = address;
      idle_timer_id = garbage;
      active = false;
    } in
      some (
        p.next_info,
        info,
        record p {
          infos = put p.infos p.next_info (some info);
          next_info = suc p.next_info;
          connection_count = u32 (p.connection_count + 1);
        },
      )

-- dwFlags |= CONNECTIONINFO_FLAGS_ACTIVE, and *ppstClient; the number is the client's.
unfoldable pub activate : ℕ → ConnectionInfo → ConnectionPool → Result (Option ℕ)
activate id info p =
    returns (some id) (record p { infos = put p.infos id (some (record info { active = true })) })

unfoldable pub attach_new : ℕ → ℕ → ConnectionPool → Result (Option ℕ)
attach_new address garbage p = elim (new_conn_info address garbage p) [
  | none ↦ returns none p
  | some (id, info, p') ↦ activate id info p'
]

unfoldable pub attach_idle : ℕ → ℕ → List ℕ → ConnectionPool → Result (Option ℕ)
attach_idle address id rest p = elim (p.infos id) [
  | none ↦ faults
  | some info ↦ activate id info (record p {
    connection_map = put p.connection_map address (some rest);
    timer = clear info.idle_timer_id p.timer;
  })
]

-- Attach: the client, or none where it returns -1.
unfoldable pub attach : ℕ → ℕ → ConnectionPool → Result (Option ℕ)
attach address garbage p = elim (p.connection_map address) [
  | none ↦ attach_new address garbage p
  | some ids ↦ elim ids [
    | [] ↦ attach_new address garbage p
    | id ∷ rest ↦ attach_idle address id rest p
  ]
]

-- Where a list of the map is, it is put at its front.
unfoldable pub push_idle : ℕ → Option (List ℕ) → List ℕ
push_idle id none = id ∷ []
push_idle id (some ids) = id ∷ ids

-- The idle timeout of a connection, where there is one: CONNECTIONPOOL_KEEPCONNECTION is 0.
unfoldable pub start_idle : ℕ → ℕ → ℕ → ConnectionInfo → ConnectionPool → ConnectionInfo × Timer ℕ
start_idle interval now id info p =
    if p.idle_connection_timeout == 0
    then (info, p.timer)
    else let (timer, timer_id) =
        set_timeout interval now (to_int p.idle_connection_timeout) id p.timer in
      (record info { idle_timer_id = timer_id }, timer)

-- Detach.
unfoldable pub detach : ℕ → ℕ → ℕ → ConnectionPool → Result (Unit {0})
detach interval now id p = elim (p.infos id) [
  | none ↦ faults
  | some info ↦
      if not info.active
      then returns tt p
      else let (info', timer) = start_idle interval now id (record info { active = false }) p in
        returns tt (record p {
          infos = put p.infos id (some info');
          timer = timer;
          connection_map =
              put p.connection_map info.address
                (some (push_idle id (p.connection_map info.address)));
        })
]

-- Erase: Disconnect, delete, and the count.
unfoldable pub erase : ℕ → ConnectionPool → Result (Unit {0})
erase id p = elim (p.infos id) [
  | none ↦ faults
  | some info ↦
      returns tt
        (record p { infos = put p.infos id none; connection_count = sub32 p.connection_count 1 })
]

-- The loop of OnTimeout that takes the connection out of its list.
unfoldable pub remove_idle : ℕ → List ℕ → List ℕ
remove_idle id [] = []
remove_idle id (j ∷ ids) = if j == id then ids else j ∷ remove_idle id ids

-- OnTimeout. A list that is not in the map is read all the same.
unfoldable pub on_timeout : ℕ → ConnectionPool → Result (Unit {0})
on_timeout id p = elim (p.infos id) [
  | none ↦ faults
  | some info ↦ elim (p.connection_map info.address) [
    | none ↦ faults
    | some ids ↦ returns tt (record p {
      connection_map = put p.connection_map info.address (some (remove_idle id ids));
      infos = put p.infos id none;
      connection_count =
          if ltb 0 p.connection_count then p.connection_count - 1 else p.connection_count;
    })
  ]
]

-- SetMaxConnection and SetIdleTimeout.
unfoldable pub set_max_connection : ℕ → ConnectionPool → ConnectionPool
set_max_connection max p = record p { max_connection = max }

unfoldable pub set_idle_timeout : ℕ → ConnectionPool → ConnectionPool
set_idle_timeout timeout p = record p { idle_connection_timeout = timeout }
