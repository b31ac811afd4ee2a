-- ===== src/ConnectionPool/Tests.antt =====
-- The pool of include/ConnectionPool.hpp at concrete inputs.
use libsimplesvr.Base.{ℕ, ◌≡◌, refl, true, false, Option, none, some, [], ◌∷◌, arith}
use libsimplesvr.Base.Sums.{put, sum_below}
use libsimplesvr.Timer.Wheel.{Timer, timer_base}
use libsimplesvr.ConnectionPool.{
  ConnectionInfo, ConnectionPool, Result, returns, attach, attach_idle, detach, erase,
  connection_pool, faults,
}
use libsimplesvr.ConnectionPool.Keep.{IsPool}
use libsimplesvr.ConnectionPool.Attach.{Attached, attach-Attached, InUse, list_of, attach-detach}

abbrev timer : Timer ℕ
timer = timer_base 100

abbrev empty : ConnectionPool
empty = connection_pool timer

empty-IsPool : IsPool empty
unfolding connection_pool sum_below
empty-IsPool = record {
  counted = refl;
  word = omega arith;
  limit = omega arith;
  unused = λ i h. refl;
  idle = λ address ids m. ground (arith, m);
}

attach-Attached_example : Attached empty 7 (attach 7 0 empty)
attach-Attached_example = attach-Attached empty empty-IsPool 7 0

abbrev info : ConnectionInfo
info = record { connected = true; address = 7; idle_timer_id = 0; active = true }

-- One connection of the address 7, which is in use, and none that waits.
abbrev one : ConnectionPool
one = record {
  connection_count = 1;
  max_connection = 100;
  idle_connection_timeout = 300_000;
  connection_map = λ address. some [];
  infos = put (λ id. none) 0 (some info);
  next_info = 1;
  timer = timer;
}

attach-detach_example :
    (p' : ConnectionPool) × (p'' : ConnectionPool) × (detach 10 100 0 one ≡ returns tt p')
    × (attach 7 9 p' ≡ returns (some 0) p'')
    × (list_of (p''.connection_map 7) ≡ [])
    × (p''.connection_count ≡ 1)
    × InUse p'' 7 0
attach-detach_example = attach-detach one 10 100 0 9 info refl refl

-- Erase of a connection that waits leaves it in its list, and Attach goes to freed memory.
waiting : ConnectionPool
waiting = record one {
  connection_map = λ address. some (0 ∷ []);
  infos = put (λ id. none) 0 (some (record info { active = false }));
}

erased : Result (Unit {0}) → Result (Option ℕ)
erased (returns a p) = attach 7 9 p
erased faults = faults

erase_idle_faults : erased (erase 0 waiting) ≡ faults
unfolding erased erase attach attach_idle waiting
erase_idle_faults = refl
