-- ===== src/EventScheduler/Update.antt =====
-- Registration with the scheduler of include/EventScheduler.hpp, and the timeout of a round.
use libsimplesvr.Base.{
  ℕ, ◌≡◌, ◌≢◌, ◌⊎◌, ◌≤◌, refl, ap, inl, inr, Bool, true, false, Option, some, ltb, ◌==◌,
  if◌then◌else◌, Bool-cases, arith,
}
use libsimplesvr.Base.Int.{ℤ, pos, negsuc}
use libsimplesvr.EventScheduler.{
  EventScheduler, Epoll, Operator, Result, add, del, done, fails_enoent, fails_other, startup,
}

-- What epoll_ctl documents, for `registered fd s`, the events and the pointer of a socket: ADD and MOD
-- that return 0 set them and touch no other socket, any other result changes nothing, and ENOENT is no
-- error of ADD. Every call may fail (EBADF, EEXIST, ENOENT, EPERM, ENOMEM, ENOSPC).
pub record EpollLaws {S : Type 0} (epoll : Epoll S) (registered : ℕ → S → Option (ℕ × ℕ))
    : Type 0 where
  pub sets :
      (operator : Operator) (events fd ptr : ℕ) (s : S)
      → operator ≢ del
      → (epoll.epoll_ctl operator events fd ptr s).1 ≡ done
      → (registered fd (epoll.epoll_ctl operator events fd ptr s).0 ≡ some (events, ptr))
        × ((k : ℕ)
            → k ≢ fd
            → registered k (epoll.epoll_ctl operator events fd ptr s).0 ≡ registered k s)
  pub keeps :
      (operator : Operator) (events fd ptr : ℕ) (s : S)
      → (epoll.epoll_ctl operator events fd ptr s).1 ≢ done
      → (k : ℕ) → registered k (epoll.epoll_ctl operator events fd ptr s).0 ≡ registered k s
  pub add_enoent :
      (events fd ptr : ℕ) (s : S) → (epoll.epoll_ctl add events fd ptr s).1 ≢ fails_enoent

-- The socket is registered for the events and no other socket is touched, or nothing is changed and a
-- call has failed for another reason than that the socket is not registered.
abbrev pub Updated : {S : Type 0} → (ℕ → S → Option (ℕ × ℕ)) → ℕ → ℕ → ℕ → S → S → Result → Type 0
Updated registered fd ptr events s s' r =
    ((r ≡ done)
      × (registered fd s' ≡ some (events, ptr))
      × ((k : ℕ) → k ≢ fd → registered k s' ≡ registered k s))
    ⊎ ((r ≡ fails_other) × ((k : ℕ) → registered k s' ≡ registered k s))

is_done : Result → Bool
is_done done = true
is_done r = false

pub enoent-not_done : fails_enoent ≢ done
unfolding is_done
enoent-not_done e = ground (arith, ap is_done e)

pub other-not_done : fails_other ≢ done
unfolding is_done
other-not_done e = ground (arith, ap is_done e)

is_del : Operator → Bool
is_del del = true
is_del o = false

-- No timeout, or one of milliseconds.
abbrev pub IsTimeout : ℤ → Type 0
IsTimeout (pos n) = Unit {0}
IsTimeout (negsuc n) = n ≡ 0

-- After the startup of a timer, a round waits no longer than the timer's interval.
pub startup_lem :
    {S : Type 0} (interval check_timer : ℕ) (s : EventScheduler S)
    → IsTimeout s.idle_timeout
    → (n : ℕ) × ((startup interval check_timer s).idle_timeout ≡ pos n) × (n ≤ interval)
unfolding startup
startup_lem interval check_timer s t = go s.idle_timeout t
  where
    go :
        (z : ℤ)
        → IsTimeout z
        → (n : ℕ) × ((if (elim z as (λ _. Bool) [ pos n ↦ ltb interval n | negsuc n ↦ n == 0 ])
              then pos interval
              else z)
            ≡ pos n)
          × (n ≤ interval)
    go (pos n) t = elim (Bool-cases (ltb interval n)) [
      | inl e ↦ rw e (interval, refl, omega arith)
      | inr e ↦ rw e (n, refl, ground arith)
    ]
    go (negsuc n) t = rw t (interval, refl, omega arith)
