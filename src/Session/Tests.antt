-- ===== src/Session/Tests.antt =====
-- Sessions of include/Session.hpp at concrete inputs.
use libsimplesvr.Base.{ℕ, Bool, ◌≡◌, ◌≢◌, refl, some, [], ◌∷◌, Bool-cases, inl, inr, ◌==◌, arith}
use libsimplesvr.Timer.Wheel.{Timer, timer_base}
use libsimplesvr.Timer.Ops.{set_timeout}
use libsimplesvr.Session.{
  SessionInfo, Session, find, get_session_data, allocate, delete, on_session_timeout, to_int,
}
use libsimplesvr.Session.Tokens.{
  IsKeyed, allocate-find, on_session_timeout-TimedOut, TimedOut, allocate_taken, sessions-IsKeyed,
}

abbrev timer : Timer ℕ
timer = timer_base 100

-- The session 1 with the data 55, whose timer is 1.
abbrev info : SessionInfo ℕ
info = record { session_data = 55; sequence = 1; timer_id = 1 }

abbrev one : Session ℕ
one = record {
  session_timeout = 200;
  sequence = 1;
  session_map = (1, info) ∷ [];
  timeout_callback = 8 ∷ 9 ∷ [];
  timer = timer;
}

one-IsKeyed : IsKeyed one
unfolding find
one-IsKeyed k = elim (Bool-cases (1 == k)) [ inl e ↦ rw e (ground arith) | inr e ↦ rw e refl ]

find_one : find 1 one.session_map ≡ some info
unfolding find
find_one = refl

allocate-find_example :
    let r = allocate 10 100 0 66 one in
    (find 2 r.0.session_map
      ≡ some (record {
        session_data = 66;
        sequence = 2;
        timer_id = (set_timeout 10 100 (to_int 200) 2 timer).1;
      }))
    × (r.0.timer ≡ (set_timeout 10 100 (to_int 200) 2 timer).0)
    × ((k : ℕ) → 2 ≢ k → get_session_data k r.0 ≡ get_session_data k one)
unfolding find allocate
allocate-find_example = allocate-find 10 100 0 66 one refl

-- The callback 9 throws.
abbrev second : ℕ → ℕ → Bool
second c payload = c == 9

on_session_timeout-TimedOut_example : TimedOut second 1 55 one (on_session_timeout second 1 one)
on_session_timeout-TimedOut_example =
    on_session_timeout-TimedOut second 1 info one one-IsKeyed find_one

-- The sequence has come round to 0, and the session 1 is still there.
abbrev round : Session ℕ
round = record one { sequence = 0 }

allocate_taken_example :
    let r = allocate 10 100 0 66 round in
    (get_session_data 1 r.0 ≡ some 55) × (r.0.timer ≡ (set_timeout 10 100 (to_int 200) 1 timer).0)
unfolding allocate
allocate_taken_example = allocate_taken 10 100 0 66 info round find_one

sessions-IsKeyed_example :
    IsKeyed (allocate 10 100 0 66 one).0
    × IsKeyed (delete 1 one)
    × IsKeyed (on_session_timeout second 1 one).0
sessions-IsKeyed_example = sessions-IsKeyed 10 100 0 1 second 66 one one-IsKeyed
