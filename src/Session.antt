-- ===== src/Session.antt =====
-- include/Session.hpp: tokens, what is kept for them, and their timeouts over the timer.
--
-- `m_stSessionMap` is an association list; the pointer to a session that the timer is given is the
-- session's token. The timer, which the code shares through PoolObject, is part of the state.
pub mod Entries
pub mod Tokens
mod Tests
use libsimplesvr.Base.{
  ℕ, zero, suc, ◌+◌, ◌-◌, ◌%◌, ◌^◌, Bool, true, false, Option, none, some, List, [], ◌∷◌, ◌++◌, ltb,
  ◌==◌, if◌then◌else◌, u32,
}
use libsimplesvr.Base.Int.{ℤ, pos, negsuc}
use libsimplesvr.Timer.Wheel.{Timer}
use libsimplesvr.Timer.Ops.{set_timeout, clear}

pub record SessionInfo (D : Type 0) : Type 0 where
  pub session_data : D
  pub sequence : ℕ
  pub timer_id : ℕ

pub record Session (D : Type 0) : Type 0 where
  pub session_timeout : ℕ
  pub sequence : ℕ
  pub session_map : List (ℕ × SessionInfo D)
  pub timeout_callback : List ℕ
  pub timer : Timer ℕ

-- A uint32_t as the int that SetTimeout takes.
abbrev pub to_int : ℕ → ℤ
to_int n = if ltb n (2 ^ 31) then pos n else negsuc (2 ^ 32 - 1 - n)

module _ {D : Type 0} where
  -- m_stSessionMap: find, insert (which keeps an entry that is there), erase, and an assignment to
  -- what stands for a key.
  unfoldable pub find : ℕ → List (ℕ × SessionInfo D) → Option (SessionInfo D)
  find k [] = none
  find k ((j, info) ∷ m) = if j == k then some info else find k m

  unfoldable pub insert : ℕ → SessionInfo D → List (ℕ × SessionInfo D) → List (ℕ × SessionInfo D)
  insert k info m = elim (find k m) [ none ↦ (k, info) ∷ m | some _ ↦ m ]

  unfoldable pub erase : ℕ → List (ℕ × SessionInfo D) → List (ℕ × SessionInfo D)
  erase k [] = []
  erase k ((j, info) ∷ m) = if j == k then erase k m else (j, info) ∷ erase k m

  unfoldable pub set_timer : ℕ → ℕ → List (ℕ × SessionInfo D) → List (ℕ × SessionInfo D)
  set_timer k id [] = []
  set_timer k id ((j, info) ∷ m) =
      if j == k then (j, record info { timer_id = id }) ∷ m else (j, info) ∷ set_timer k id m

  -- Session(), with SESSION_TIMEOUT.
  pub session : Timer ℕ → Session D
  session timer = record {
    session_timeout = 200;
    sequence = 0;
    session_map = [];
    timeout_callback = [];
    timer = timer;
  }

  -- GetSessionData.
  unfoldable pub get_session_data : ℕ → Session D → Option D
  get_session_data token s = elim (find token s.session_map) [
    | none ↦ none
    | some info ↦ some info.session_data
  ]

  -- Allocate, with the data of the constructor where no pointer is passed: the state and the token.
  -- The timer id of a new SessionInfo is what the memory holds, `garbage`.
  unfoldable pub allocate : ℕ → ℕ → ℕ → D → Session D → Session D × ℕ
  allocate interval now garbage payload s =
      let token = u32 (s.sequence + 1) in
      let info : SessionInfo D = record {
        session_data = payload;
        sequence = token;
        timer_id = garbage;
      } in
      let (timer, id) = set_timeout interval now (to_int s.session_timeout) token s.timer in
      (
        record s {
          sequence = token;
          session_map = set_timer token id (insert token info s.session_map);
          timer = timer;
        },
        token,
      )

  -- Delete.
  unfoldable pub delete : ℕ → Session D → Session D
  delete token s = elim (find token s.session_map) [
    | none ↦ s
    | some info ↦ record s {
      session_map = erase token s.session_map;
      timer = clear info.timer_id s.timer;
    }
  ]

  -- SetSessionTimeout, GetSessionTimeout and RegisterCallback.
  pub set_session_timeout : ℕ → Session D → Session D
  set_session_timeout timeout s = record s { session_timeout = timeout }

  abbrev pub get_session_timeout : Session D → ℕ
  get_session_timeout s = s.session_timeout

  pub register_callback : ℕ → Session D → Session D
  register_callback c s = record s { timeout_callback = s.timeout_callback ++ c ∷ [] }

  -- The loop over the callbacks, each with its argument, until one throws: what is called, and
  -- whether one has thrown.
  unfoldable pub call_back : (ℕ → D → Bool) → D → List ℕ → List (ℕ × D) × Bool
  call_back throws payload [] = ([], false)
  call_back throws payload (c ∷ cs) =
      let (rest, thrown) = call_back throws payload cs in
      if throws c payload then ((c, payload) ∷ [], true) else ((c, payload) ∷ rest, thrown)

  -- OnSessionTimeout for the session of the token: the state, the callbacks that are called with their
  -- argument, and whether it throws.
  unfoldable pub on_session_timeout :
      (ℕ → D → Bool) → ℕ → Session D → Session D × List (ℕ × D) × Bool
  on_session_timeout throws token s = elim (find token s.session_map) [
    | none ↦ (s, [], false)
    | some info ↦
        let (called, thrown) = call_back throws info.session_data s.timeout_callback in
        if thrown
        then (s, called, true)
        else (record s { session_map = erase info.sequence s.session_map }, called, false)
  ]
