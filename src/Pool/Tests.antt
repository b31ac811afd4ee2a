-- ===== src/Pool/Tests.antt =====
-- The start of a pool of src/Pool.cc at concrete inputs.
use libsimplesvr.Base.{ℕ, ◌≡◌, refl, Bool, true, false, [], ◌∷◌, ◌==◌, not, arith}
use libsimplesvr.Base.Int.{pos, negsuc}
use libsimplesvr.EventScheduler.{EventScheduler}
use libsimplesvr.Pool.{Pool, Fork, child, parent, process_startup, register_startup_callback}
use libsimplesvr.Pool.Starts.{Started, process_startup-Started}

abbrev scheduler : EventScheduler ℕ
scheduler = record {
  quit = false;
  idle_timeout = negsuc 0;
  poll = 0;
  idle_callback_list = [];
  loop_callback_list = [];
}

abbrev ready : Pool
ready = record {
  startup = false;
  id = 0;
  idle_timeout = pos 50;
  startup_callback_list = 4 ∷ 5 ∷ 6 ∷ [];
}

-- Every callback but 5 returns true.
abbrev run : ℕ → EventScheduler ℕ → Bool × EventScheduler ℕ
run c s = (not (c == 5), record s { loop_callback_list = c ∷ s.loop_callback_list })

abbrev fork : ℕ → Fork
fork i = elim (i == 2) [ true ↦ child | false ↦ parent 900 ]

process_startup-Started_example :
    Started run 2
      (4 ∷ 5 ∷ 6 ∷ [])
      (record scheduler { idle_timeout = pos 50 })
      (process_startup run fork true 4 ready scheduler)
process_startup-Started_example =
    process_startup-Started run fork 1 4 ready scheduler (λ j a b. (900, ground arith)) refl
      (omega arith)

registered : (register_startup_callback 3 true ready).startup_callback_list ≡ 3 ∷ 4 ∷ 5 ∷ 6 ∷ []
unfolding register_startup_callback
registered = refl
