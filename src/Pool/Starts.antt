-- ===== src/Pool/Starts.antt =====
-- What a process or a thread of src/Pool.cc calls when it starts.
use libsimplesvr.Base.{
  ℕ, zero, suc, ◌+◌, ◌-◌, ◌≤◌, ◌<◌, ◌≡◌, ◌∙◌, refl, sym, ap, Bool, true, false, some, List, [], ◌∷◌,
  ◌++◌, arith, if◌then◌else◌, inl, inr, Bool-cases,
}
use libsimplesvr.EventScheduler.{EventScheduler}
use libsimplesvr.Pool.{
  Pool, Fork, child, parent, Start, refused, dispatches, run_callbacks, start, forks,
  process_startup,
}

module _ {S : Type 0} (run : ℕ → EventScheduler S → Bool × EventScheduler S) where
  -- The scheduler after some callbacks, and that each of them returns true in its turn.
  abbrev pub after : List ℕ → EventScheduler S → EventScheduler S
  after [] s = s
  after (c ∷ cs) s = after cs (run c s).1

  abbrev pub Accepted : List ℕ → EventScheduler S → Type 0
  Accepted [] s = Unit
  Accepted (c ∷ cs) s = ((run c s).0 ≡ true) × Accepted cs (run c s).1

  -- The callbacks before the first that returns false, and that one.
  abbrev pub Refused : List ℕ → EventScheduler S → List ℕ → EventScheduler S → Type 0
  Refused cs s called s' =
      (before : List ℕ) × (c : ℕ) × (rest : List ℕ) × (cs ≡ before ++ (c ∷ rest))
      × (called ≡ before ++ (c ∷ []))
      × Accepted before s
      × ((run c (after before s)).0 ≡ false)
      × (s' ≡ after called s)

  -- How a start ends.
  abbrev pub Started : ℕ → List ℕ → EventScheduler S → Start S → Type 0
  Started id cs s (dispatches called p s') =
      (called ≡ cs) × Accepted cs s × (s' ≡ after cs s) × (p.startup ≡ true) × (p.id ≡ id)
  Started id cs s (refused called p s') = Refused cs s called s' × (p.startup ≡ true) × (p.id ≡ id)

  -- How the loop over the callbacks ends.
  abbrev Ran : List ℕ → EventScheduler S → Bool × List ℕ × EventScheduler S → Type 0
  Ran cs s (true, called, s') = (called ≡ cs) × Accepted cs s × (s' ≡ after cs s)
  Ran cs s (false, called, s') = Refused cs s called s'

  more :
      (c : ℕ) (cs : List ℕ) (s : EventScheduler S)
      → (run c s).0 ≡ true
      → (r : Bool × List ℕ × EventScheduler S) → Ran cs (run c s).1 r
      → Ran (c ∷ cs) s (r.0, c ∷ r.1, r.2)
  more c cs s e (true, called, s') h = (ap (◌∷◌ c) h.0, (e, h.1), h.2)
  more c cs s e (false, called, s') h =
      (c ∷ h.0, h.1, h.2, ap (◌∷◌ c) h.3, ap (◌∷◌ c) h.4, (e, h.5), h.6, h.7)

  run_callbacks-Ran : (cs : List ℕ) (s : EventScheduler S) → Ran cs s (run_callbacks run cs s)
  unfolding run_callbacks
  run_callbacks-Ran [] s = (refl, tt, refl)
  run_callbacks-Ran (c ∷ cs) s = elim (Bool-cases (run c s).0) [
    | inl e ↦ rw (e, run_callbacks) (more c cs s e _ (run_callbacks-Ran cs (run c s).1))
    | inr e ↦ rw (e, run_callbacks) ([], c, cs, refl, refl, tt, e, refl)
  ]

  start-Started :
      (p : Pool) (s : EventScheduler S)
      → Started p.id p.startup_callback_list
          (record s { idle_timeout = p.idle_timeout })
          (start run true p s)
  unfolding start
  start-Started p s =
      ended _
        (run_callbacks-Ran p.startup_callback_list (record s { idle_timeout = p.idle_timeout }))
    where
      ended :
          (r : Bool × List ℕ × EventScheduler S)
          → Ran p.startup_callback_list (record s { idle_timeout = p.idle_timeout }) r
          → Started p.id p.startup_callback_list
              (record s { idle_timeout = p.idle_timeout })
              (if r.0
                then dispatches r.1 (record p { startup = true }) r.2
                else refused r.1 (record p { startup = true }) r.2)
      ended (true, called, s') h = (h.0, h.1, h.2, refl, refl)
      ended (false, called, s') h = (h, refl, refl)

  forks_child :
      (fork : ℕ → Fork) (k i left : ℕ) (p : Pool)
      → ((j : ℕ) → i ≤ j → j < i + k → (pid : ℕ) × (fork j ≡ parent pid))
      → fork (i + k) ≡ child
      → k < left
      → forks fork left i p ≡ some (record p { id = i + k })
  unfolding forks
  forks_child fork k i zero p before e l = absurd (omega arith)
  forks_child fork zero i (suc left) p before e l =
      let z : i + 0 ≡ i = omega arith in
      let e' : fork i ≡ child = ap fork (sym z) ∙ e in
      rw (e', forks) (ap (λ n. some (record p { id = n })) (sym z))
  forks_child fork (suc k) i (suc left) p before e l =
      let h = before i (omega arith) (omega arith) in
      let z : i + 1 + k ≡ i + suc k = omega arith in
      rw (h.1, forks)
        (forks_child fork k (i + 1) left p (λ j a b. before j (omega arith) (omega arith))
            (ap fork z ∙ e) (omega arith)
          ∙ ap (λ n. some (record p { id = n })) z)

  -- In the process that the fork with the number k + 1 makes, for k + 1 < num, ProcessPool::Startup
  -- gives the pool the id k + 1, sets the scheduler's idle timeout to the pool's and calls the startup
  -- callbacks in the order of their list: all of them, each returning true, before it dispatches, or
  -- up to the first that returns false, where it stops. The scheduler is created without an error.
  pub process_startup-Started :
      (fork : ℕ → Fork) (k num : ℕ) (p : Pool) (s : EventScheduler S)
      → ((j : ℕ) → 1 ≤ j → j < 1 + k → (pid : ℕ) × (fork j ≡ parent pid))
      → fork (1 + k) ≡ child
      → 1 + k < num
      → Started
          (1 + k)
          p.startup_callback_list
          (record s { idle_timeout = p.idle_timeout })
          (process_startup run fork true num p s)
  unfolding process_startup
  process_startup-Started fork k num p s before e l =
      rw (forks_child fork k 1 (num - 1) p before e (omega arith), process_startup)
        (start-Started (record p { id = 1 + k }) s)
