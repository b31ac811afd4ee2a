-- ===== src/EventScheduler.antt =====
-- include/EventScheduler.hpp over include/EPoll.hpp and src/EPoll.cc: registration, and a round of
-- Dispatch.
--
-- The system's epoll is a parameter: its state and its epoll_ctl. A callback is a number; whether
-- it throws is a parameter of the round.
pub mod Update
pub mod Rounds
mod Tests
use libsimplesvr.Base.{
  ℕ, zero, suc, ◌+◌, ◌-◌, ◌*◌, ◌/◌, ◌%◌, ◌^◌, Bool, true, false, not, ◌&&◌, Option, none, some,
  List, [], ◌∷◌, ◌++◌, ltb, leb, ◌==◌, if◌then◌else◌,
}
use libsimplesvr.Base.Int.{ℤ, pos, negsuc}

-- EPOLL_CTL_ADD, EPOLL_CTL_MOD and EPOLL_CTL_DEL.
pub data Operator : Type 0 where
  add mod_ del : Operator

-- What epoll_ctl returns: 0, or -1 with an errno.
pub data Result : Type 0 where
  done : Result
  fails_enoent : Result
  fails_other : Result

-- epoll_ctl(m_epfd, operator, fd, &ev) for the events and the pointer of `ev`.
pub record Epoll (S : Type 0) : Type 0 where
  pub epoll_ctl : Operator → ℕ → ℕ → ℕ → S → S × Result

pub record EventScheduler (S : Type 0) : Type 0 where
  pub quit : Bool
  pub idle_timeout : ℤ
  pub poll : S
  pub idle_callback_list : List ℕ
  pub loop_callback_list : List ℕ

module _ {S : Type 0} where
  -- EventSchedulerImpl(), with the epoll that CreatePoll gives.
  pub event_scheduler : S → EventScheduler S
  event_scheduler poll = record {
    quit = false;
    idle_timeout = negsuc 0;
    poll = poll;
    idle_callback_list = [];
    loop_callback_list = [];
  }

  -- RegisterIdleCallback and RegisterLoopCallback.
  pub register_idle_callback : ℕ → EventScheduler S → EventScheduler S
  register_idle_callback c s = record s { idle_callback_list = s.idle_callback_list ++ c ∷ [] }

  pub register_loop_callback : ℕ → EventScheduler S → EventScheduler S
  register_loop_callback c s = record s { loop_callback_list = s.loop_callback_list ++ c ∷ [] }

  -- SetIdleTimeout: the timeout that was set before, and the state.
  pub set_idle_timeout : ℤ → EventScheduler S → ℤ × EventScheduler S
  set_idle_timeout timeout s = (s.idle_timeout, record s { idle_timeout = timeout })

  -- TimerStartup::Startup of include/Timer.hpp: no timer waits longer than its interval.
  unfoldable pub startup : ℕ → ℕ → EventScheduler S → EventScheduler S
  startup interval check_timer s =
      let shorter : Bool = elim s.idle_timeout [ pos n ↦ ltb interval n | negsuc n ↦ n == 0 ] in
      record s {
        idle_timeout = if shorter then pos interval else s.idle_timeout;
        loop_callback_list = s.loop_callback_list ++ check_timer ∷ [];
      }

  module _ (epoll : Epoll S) where
    -- EPoll::EventCtl on the scheduler's epoll.
    pub event_ctl : Operator → ℕ → ℕ → ℕ → EventScheduler S → EventScheduler S × Result
    event_ctl operator events fd ptr s =
        let (poll, result) = epoll.epoll_ctl operator events fd ptr s.poll in
        (record s { poll = poll }, result)

    -- Register, UnRegister and Update, for the interface at `ptr` whose socket is `fd`.
    unfoldable pub register : ℕ → ℕ → ℕ → EventScheduler S → EventScheduler S × Result
    unfolding event_ctl
    register fd ptr events s = event_ctl add events fd ptr s

    unfoldable pub unregister : ℕ → EventScheduler S → EventScheduler S × Result
    unfolding event_ctl
    unregister fd s = event_ctl del 0 fd 0 s

    unfoldable pub update : ℕ → ℕ → ℕ → EventScheduler S → EventScheduler S × Result
    unfolding event_ctl
    update fd ptr events s =
        let (s', result) = event_ctl mod_ events fd ptr s in
        elim result [
          | done ↦ (s', done)
          | fails_enoent ↦ register fd ptr events s'
          | fails_other ↦ (s', fails_other)
        ]

-- What a round calls, first to last.
pub data Called : Type 0 where
  on_error on_readable on_writeable : ℕ → Called
  callback : ℕ → Called

-- The callbacks of a list, until one throws: what was called, and whether one has thrown.
unfoldable pub call_list : (Called → Bool) → List ℕ → List Called × Bool
call_list throws [] = ([], false)
call_list throws (c ∷ cs) =
    let (rest, thrown) = call_list throws cs in
    if throws (callback c) then (callback c ∷ [], true) else (callback c ∷ rest, thrown)

-- EPOLLERR, EPOLLIN and EPOLLOUT are the bits 3, 0 and 2.
abbrev pub has_bit : ℕ → ℕ → Bool
has_bit unit events = events / unit % 2 == 1

abbrev pub handler : ℕ → ℕ → List Called
handler ptr events =
    if has_bit 8 events
    then on_error ptr ∷ []
    else if has_bit 1 events
    then on_readable ptr ∷ []
    else if has_bit 4 events
    then on_writeable ptr ∷ []
    else []

-- What epoll_wait gives: an event, a timeout, or an error.
pub data Ready : Type 0 where
  event : ℕ → ℕ → Ready
  times_out : Ready
  fails : Ready

-- The front of a round, and the round of Dispatch; what is thrown is caught and logged.
unfoldable pub first_calls :
    {S : Type 0} → (Called → Bool) → Ready → EventScheduler S → List Called × Bool
first_calls throws (event ptr events) s =
    let called = handler ptr events in (called, elim called [ [] ↦ false | c ∷ _ ↦ throws c ])
first_calls throws times_out s = call_list throws s.idle_callback_list
first_calls throws fails s = ([], false)

unfoldable pub dispatch_round :
    {S : Type 0} → (Called → Bool) → Ready → EventScheduler S → List Called
dispatch_round throws ready s =
    let (called, thrown) = first_calls throws ready s in
    let (looped, _) = call_list throws s.loop_callback_list in
    if thrown then called else called ++ looped
