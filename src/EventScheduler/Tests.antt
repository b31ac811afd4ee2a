-- ===== src/EventScheduler/Tests.antt =====
-- The scheduler of include/EventScheduler.hpp at concrete inputs, with an epoll that is an
-- association list.
use libsimplesvr.Base.{
  ℕ, ◌≡◌, ◌≢◌, ◌⊎◌, leb, ◌≤◌, refl, Bool, true, false, Option, none, some, [], ◌∷◌, ◌==◌,
  if◌then◌else◌,
}
use libsimplesvr.Base.Int.{pos, negsuc}
use libsimplesvr.EventScheduler.{
  EventScheduler, Epoll, Operator, add, mod_, del, Result, done, fails_enoent, fails_other, startup,
  Called, callback, event, dispatch_round,
}
use libsimplesvr.EventScheduler.Update.{startup_lem}
use libsimplesvr.EventScheduler.Rounds.{IsRound, dispatch_round-IsRound}

-- The sockets that are registered, with their events and pointers; the newest entry counts.
abbrev Table : Type 0
Table = ℕ → Option (ℕ × ℕ)

abbrev registered : ℕ → Table → Option (ℕ × ℕ)
registered fd table = table fd

abbrev entry : ℕ → Option (ℕ × ℕ) → Table → Table
entry fd o table k = if fd == k then o else table k

-- Sockets from 100 on are not open.
unfoldable table_ctl : Operator → ℕ → ℕ → ℕ → Table → Table × Result
table_ctl operator events fd ptr table =
    if leb 100 fd then (table, fails_other) else elim operator [
      | add ↦ elim (table fd) [
        | none ↦ (entry fd (some (events, ptr)) table, done)
        | some _ ↦ (table, fails_other)
      ]
      | mod_ ↦ elim (table fd) [
        | none ↦ (table, fails_enoent)
        | some _ ↦ (entry fd (some (events, ptr)) table, done)
      ]
      | del ↦ elim (table fd) [
        | none ↦ (table, fails_enoent)
        | some _ ↦ (entry fd none table, done)
      ]
    ]

abbrev epoll : Epoll Table
epoll = record { epoll_ctl = table_ctl }

-- What an operator leaves for the socket where it succeeds.
abbrev left : Operator → ℕ → ℕ → Option (ℕ × ℕ)
left del events ptr = none
left o events ptr = some (events, ptr)

-- A call that succeeds has set the entry, and one that fails has changed nothing.
abbrev IsCall : Operator → ℕ → ℕ → ℕ → Table → Table × Result → Type 0
IsCall operator events fd ptr table r =
    ((r.0 ≡ table) × (r.1 ≢ done))
    ⊎ ((r.0 ≡ entry fd (left operator events ptr) table) × (r.1 ≡ done))

is_enoent : Result → Bool
is_enoent fails_enoent = true
is_enoent r = false

abbrev idle : EventScheduler Table
idle = record {
  quit = false;
  idle_timeout = negsuc 0;
  poll = λ k. none;
  idle_callback_list = 1 ∷ [];
  loop_callback_list = 2 ∷ 3 ∷ [];
}

startup_lem_example : (n : ℕ) × ((startup 10 4 idle).idle_timeout ≡ pos n) × (n ≤ 10)
startup_lem_example = startup_lem 10 4 idle refl

-- The callback 2 throws.
abbrev second : Called → Bool
second (callback n) = n == 2
second c = false

dispatch_round-IsRound_example :
    IsRound second (event 500 9) idle (dispatch_round second (event 500 9) idle)
dispatch_round-IsRound_example = dispatch_round-IsRound second (event 500 9) idle

abbrev nothing : Called → Bool
nothing c = false
