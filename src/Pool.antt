-- ===== src/Pool.antt =====
-- include/Pool.hpp and src/Pool.cc: the processes or threads of a server, and what each does when it
-- starts. The callbacks are numbers; what one does to the scheduler, and what it returns, is an
-- argument. Each thread has a scheduler of its own through PoolObject, and each process after a fork.
pub mod Starts
mod Tests
use libsimplesvr.Base.{
  ℕ, zero, suc, ◌+◌, ◌-◌, Bool, true, false, Option, none, some, List, [], ◌∷◌, ◌++◌, if◌then◌else◌,
}
use libsimplesvr.Base.Int.{ℤ, negsuc}
use libsimplesvr.EventScheduler.{EventScheduler, set_idle_timeout}

-- ProcessPool and ThreadPool, which differ in where the id is: in the object, and in the data of the
-- thread.
pub record Pool : Type 0 where
  pub startup : Bool
  pub id : ℕ
  pub idle_timeout : ℤ
  pub startup_callback_list : List ℕ

-- ProcessPool() and ThreadPool(), with the id 0 that GetID gives first.
unfoldable pub pool : Pool
pool = record { startup = false; id = 0; idle_timeout = negsuc 0; startup_callback_list = [] }

-- RegisterStartupCallback.
unfoldable pub register_startup_callback : ℕ → Bool → Pool → Pool
register_startup_callback callback front p = record p {
  startup_callback_list =
      if front
      then callback ∷ p.startup_callback_list
      else p.startup_callback_list ++ (callback ∷ []);
}

-- IsStartup, GetID.
abbrev pub is_startup : Pool → Bool
is_startup p = p.startup

abbrev pub get_id : Pool → ℕ
get_id p = p.id

-- What fork returns: -1, 0 in the child, or the child's number.
pub data Fork : Type 0 where
  fails child : Fork
  parent : ℕ → Fork

-- How a start ends: -1 or NULL, with the callbacks that were called, or at the call of Dispatch.
pub data Start (S : Type 0) : Type 0 where
  refused : List ℕ → Pool → EventScheduler S → Start S
  dispatches : List ℕ → Pool → EventScheduler S → Start S

-- The forks of ProcessPool::Startup from the number `i` on, `left` of them: the pool of the process
-- that goes on, none where a fork fails.
unfoldable pub forks : (ℕ → Fork) → ℕ → ℕ → Pool → Option Pool
forks fork zero i p = some p
forks fork (suc left) i p = elim (fork i) [
  | fails ↦ none
  | child ↦ some (record p { id = i })
  | parent pid ↦ forks fork left (i + 1) p
]

module _ {S : Type 0} where
  -- SetIdleTimeout: the timeout before, the pool and the scheduler.
  unfoldable pub set_pool_timeout : ℤ → Pool → EventScheduler S → ℤ × Pool × EventScheduler S
  set_pool_timeout timeout p s =
      if p.startup
      then (let (old, s') = set_idle_timeout timeout s in (old, p, s'))
      else (p.idle_timeout, record p { idle_timeout = timeout }, s)

  -- GetIdleTimeout.
  unfoldable pub get_pool_timeout : Pool → EventScheduler S → ℤ
  get_pool_timeout p s = if p.startup then s.idle_timeout else p.idle_timeout

  -- The loop over the callbacks, up to the first that returns false: whether none did, the callbacks
  -- that were called, and the scheduler.
  unfoldable pub run_callbacks :
      (ℕ → EventScheduler S → Bool × EventScheduler S)
      → List ℕ
      → EventScheduler S
      → Bool × List ℕ × EventScheduler S
  run_callbacks run [] s = (true, [], s)
  run_callbacks run (c ∷ cs) s =
      let (fine, s') = run c s in
      let (all, called, s'') = run_callbacks run cs s' in
      if fine then (all, c ∷ called, s'') else (false, c ∷ [], s')

  -- The second half of ProcessPool::Startup and of ThreadPool::ThreadProc, with whether
  -- CreateScheduler succeeds.
  unfoldable pub start :
      (ℕ → EventScheduler S → Bool × EventScheduler S) → Bool → Pool → EventScheduler S → Start S
  start run created p s =
      if created
      then (let (all, called, s') =
            run_callbacks run p.startup_callback_list
              (record s { idle_timeout = p.idle_timeout }) in
          let p' = record p { startup = true } in
          if all then dispatches called p' s' else refused called p' s')
      else refused [] p s

  -- ProcessPool::Startup, in one of the processes.
  unfoldable pub process_startup :
      (ℕ → EventScheduler S → Bool × EventScheduler S)
      → (ℕ → Fork)
      → Bool
      → ℕ
      → Pool
      → EventScheduler S
      → Start S
  process_startup run fork created num p s = elim (forks fork (num - 1) 1 p) [
    | none ↦ refused [] p s
    | some p' ↦ start run created p' s
  ]

  -- ThreadPool::ThreadProc in the thread with the number `i`, where Startup has set m_bStartup.
  unfoldable pub thread_proc :
      (ℕ → EventScheduler S → Bool × EventScheduler S)
      → Bool
      → ℕ
      → Pool
      → EventScheduler S
      → Start S
  thread_proc run created i p s = start run created (record p { startup = true; id = i }) s
