-- ===== src/EventScheduler/Rounds.antt =====
-- The order of the calls of a round of Dispatch (include/EventScheduler.hpp).
use libsimplesvr.Base.{
  ℕ, ◌/◌, ◌%◌, ◌≡◌, ◌⊎◌, refl, ap, inl, inr, Bool, true, false, List, [], ◌∷◌, ◌++◌, map,
  Bool-cases, All, arith,
}
use libsimplesvr.EventScheduler.{
  EventScheduler, Called, callback, on_error, on_readable, on_writeable, call_list, handler,
  has_bit, Ready, event, times_out, fails, first_calls, dispatch_round,
}

-- The calls that a callback list makes where none throws.
abbrev pub all_calls : List ℕ → List Called
all_calls cs = map callback cs

-- No call of the list throws.
abbrev pub Quiet : (Called → Bool) → List Called → Type 0
Quiet throws = All λ c. throws c ≡ false

-- All of `whole` is called, and none throws.
abbrev pub IsWhole : (Called → Bool) → List Called → List Called → Type 0
IsWhole throws whole called = (called ≡ whole) × Quiet throws whole

-- `called` is `whole` up to the first call that throws, that call included.
pub record IsStopped (throws : Called → Bool) (whole called : List Called) : Type 0 where
  pub before : List Called
  pub thrower : Called
  pub skipped : List Called
  pub asked : whole ≡ before ++ (thrower ∷ skipped)
  pub made : called ≡ before ++ (thrower ∷ [])
  pub quiet : Quiet throws before
  pub thrown : throws thrower ≡ true

-- A list that is called in order, up to the first call that throws.
abbrev pub IsUpTo : (Called → Bool) → List Called → List Called → Type 0
IsUpTo throws whole called = IsWhole throws whole called ⊎ IsStopped throws whole called

-- What a round is to call before the loop callbacks: for an event with EPOLLERR (the bit 3) OnError,
-- for any other with EPOLLIN (the bit 0) OnReadable, for any other with EPOLLOUT (the bit 2)
-- OnWriteable, and else nothing; after a timeout the idle callbacks; after an error nothing.
abbrev pub IsFront : {S : Type 0} → Ready → EventScheduler S → List Called → Type 0
IsFront (event ptr events) s whole =
    ((events / 8 % 2 ≡ 1) × (whole ≡ on_error ptr ∷ []))
    ⊎ ((events / 8 % 2 ≡ 0) × (events % 2 ≡ 1) × (whole ≡ on_readable ptr ∷ []))
    ⊎ ((events / 8 % 2 ≡ 0)
        × (events % 2 ≡ 0)
        × (events / 4 % 2 ≡ 1)
        × (whole ≡ on_writeable ptr ∷ []))
    ⊎ ((events / 8 % 2 ≡ 0) × (events % 2 ≡ 0) × (events / 4 % 2 ≡ 0) × (whole ≡ []))
IsFront times_out s whole = whole ≡ all_calls s.idle_callback_list
IsFront fails s whole = whole ≡ []

-- The front is called whole and then the loop callbacks up to the first that throws, or a call of the
-- front throws and is the last.
abbrev pub IsRound :
    {S : Type 0} → (Called → Bool) → Ready → EventScheduler S → List Called → Type 0
IsRound throws ready s calls =
    (whole : List Called) × IsFront ready s whole
    × ((Quiet throws whole
          × (looped : List Called) × IsUpTo throws (all_calls s.loop_callback_list) looped
          × (calls ≡ whole ++ looped))
        ⊎ IsStopped throws whole calls)

-- What `call_list` gives, with whether a call has thrown.
abbrev IsRun : (Called → Bool) → List Called → List Called × Bool → Type 0
IsRun throws whole r =
    ((r.1 ≡ false) × IsWhole throws whole r.0) ⊎ ((r.1 ≡ true) × IsStopped throws whole r.0)

call_list-IsRun :
    (throws : Called → Bool) (cs : List ℕ) → IsRun throws (all_calls cs) (call_list throws cs)
unfolding call_list
call_list-IsRun throws [] = inl (refl, (refl, tt))
call_list-IsRun throws (c ∷ cs) = elim (Bool-cases (throws (callback c))) [
  | inl t ↦ rw t (
      inr (
        refl,
        record {
          before = [];
          thrower = callback c;
          skipped = all_calls cs;
          asked = refl;
          made = refl;
          quiet = tt;
          thrown = t;
        },
      ))
  | inr t ↦ elim (call_list-IsRun throws cs) [
    | inl (f, (e, q)) ↦ rw (t, f) (inl (refl, (ap (λ xs. callback c ∷ xs) e, (refl, q))))
    | inr (f, s) ↦
        rw (t, f)
          (inr (
            refl,
            record {
              before = callback c ∷ s.before;
              thrower = s.thrower;
              skipped = s.skipped;
              asked = ap (λ xs. callback c ∷ xs) s.asked;
              made = ap (λ xs. callback c ∷ xs) s.made;
              quiet = (t, s.quiet);
              thrown = s.thrown;
            },
          ))
  ]
]

one-IsRun : (throws : Called → Bool) (c : Called) → IsRun throws (c ∷ []) (c ∷ [], throws c)
one-IsRun throws c = elim (Bool-cases (throws c)) [
  | inl t ↦ inr (
    t,
    record {
      before = [];
      thrower = c;
      skipped = [];
      asked = refl;
      made = refl;
      quiet = tt;
      thrown = t;
    },
  )
  | inr t ↦ inl (t, (refl, (t, tt)))
]

-- A handler makes one call or none.
handled-IsRun :
    (throws : Called → Bool) (called : List Called)
    → (called ≡ []) ⊎ ((c : Called) × (called ≡ c ∷ []))
    → IsRun throws called (called, elim called [ [] ↦ false | c ∷ _ ↦ throws c ])
handled-IsRun throws called (inl e) = rw e (inl (refl, (refl, tt)))
handled-IsRun throws called (inr (c, e)) = rw e (one-IsRun throws c)

handler-IsFront :
    {S : Type 0} (ptr events : ℕ) (s : EventScheduler S)
    → IsFront (event ptr events) s (handler ptr events)
handler-IsFront ptr events s = elim (Bool-cases (has_bit 8 events)) [
  | inl a ↦ rw a (inl (ground (arith, a), refl))
  | inr a ↦ elim (Bool-cases (has_bit 1 events)) [
    | inl b ↦ rw (a, b) (inr (inl (ground (arith, a), ground (arith, b), refl)))
    | inr b ↦ elim (Bool-cases (has_bit 4 events)) [
      | inl c ↦
          rw (a, b, c)
            (inr (inr (inl (ground (arith, a), ground (arith, b), ground (arith, c), refl))))
      | inr c ↦
          rw (a, b, c)
            (inr (inr (inr (ground (arith, a), ground (arith, b), ground (arith, c), refl))))
    ]
  ]
]

handler_one :
    (ptr events : ℕ) → (handler ptr events ≡ []) ⊎ ((c : Called) × (handler ptr events ≡ c ∷ []))
handler_one ptr events = elim (Bool-cases (has_bit 8 events)) [
  | inl a ↦ rw a (inr (_, refl))
  | inr a ↦ elim (Bool-cases (has_bit 1 events)) [
    | inl b ↦ rw (a, b) (inr (_, refl))
    | inr b ↦ elim (Bool-cases (has_bit 4 events)) [
      | inl c ↦ rw (a, b, c) (inr (_, refl))
      | inr c ↦ rw (a, b, c) (inl refl)
    ]
  ]
]

-- What is to be called, and that it is called up to the first call that throws.
abbrev Fronted :
    {S : Type 0} → (Called → Bool) → Ready → EventScheduler S → List Called × Bool → Type 0
Fronted throws ready s r = (whole : List Called) × IsFront ready s whole × IsRun throws whole r

first_calls-Fronted :
    {S : Type 0} (throws : Called → Bool) (ready : Ready) (s : EventScheduler S)
    → Fronted throws ready s (first_calls throws ready s)
unfolding first_calls
first_calls-Fronted throws (event ptr events) s = (
  handler ptr events,
  handler-IsFront ptr events s,
  handled-IsRun throws (handler ptr events) (handler_one ptr events),
)
first_calls-Fronted throws times_out s =
    (all_calls s.idle_callback_list, refl, call_list-IsRun throws s.idle_callback_list)
first_calls-Fronted throws fails s = ([], refl, inl (refl, (refl, tt)))

run-IsUpTo :
    (throws : Called → Bool) (whole : List Called) (r : List Called × Bool)
    → IsRun throws whole r
    → IsUpTo throws whole r.0
run-IsUpTo throws whole r (inl h) = inl h.1
run-IsUpTo throws whole r (inr h) = inr h.1

-- A round calls what the event asks for (OnError before OnReadable before OnWriteable) or the idle
-- callbacks, and then the loop callbacks, each list in order and up to the first call that throws, that
-- call included; the loop callbacks are called if and only if no call before has thrown.
pub dispatch_round-IsRound :
    {S : Type 0} (throws : Called → Bool) (ready : Ready) (s : EventScheduler S)
    → IsRound throws ready s (dispatch_round throws ready s)
unfolding dispatch_round
dispatch_round-IsRound throws ready s =
    let f = first_calls-Fronted throws ready s in
    let l =
      run-IsUpTo throws (all_calls s.loop_callback_list) (call_list throws s.loop_callback_list)
        (call_list-IsRun throws s.loop_callback_list) in
    elim (f.2) [
      | inl (t, (e, q)) ↦ rw t (
        f.0,
        f.1,
        inl (
          q,
          (call_list throws s.loop_callback_list).0,
          l,
          ap (λ xs. xs ++ (call_list throws s.loop_callback_list).0) e,
        ),
      )
      | inr (t, h) ↦ rw t (f.0, f.1, inr h)
    ]
