-- ===== src/Session/Tokens.antt =====
-- Allocate, Delete and OnSessionTimeout of include/Session.hpp against what each token stands for.
use libsimplesvr.Base.{
  ℕ, ◌+◌, ◌≡◌, ◌≢◌, refl, sym, ap, subst, ◌∙◌, inl, inr, Option, none, some, List, [], ◌∷◌, ◌++◌,
  map, All, Bool, true, false, ◌⊎◌, Bool-cases, Option-cases, u32,
}
use native.Mathlib.Decide.{ℕ_discrete}
use libsimplesvr.Timer.Ops.{set_timeout, clear}
use libsimplesvr.Session.{
  SessionInfo, Session, find, insert, erase, set_timer, get_session_data, allocate, delete,
  call_back, on_session_timeout, to_int,
}
use libsimplesvr.Session.Entries.{
  find-insert_same, find-insert_other, find-erase_same, find-erase_other, find-set_timer_same,
  find-set_timer_other,
}

module _ {D : Type 0} where
  abbrev pub sequence_of : ℕ → Option (SessionInfo D) → ℕ
  sequence_of k none = k
  sequence_of k (some info) = info.sequence

  -- Every session stands under its own sequence number.
  abbrev pub IsKeyed : Session D → Type 0
  IsKeyed s = (k : ℕ) → sequence_of k (find k s.session_map) ≡ k

  abbrev data_of : Option (SessionInfo D) → Option D
  data_of none = none
  data_of (some info) = some info.session_data

  get_session_data_lem :
      (k : ℕ) (s : Session D) → get_session_data k s ≡ data_of (find k s.session_map)
  unfolding get_session_data
  get_session_data_lem k s = elim (Option-cases (find k s.session_map)) [
    | inl e ↦ rw (e, get_session_data) refl
    | inr (info, e) ↦ rw (e, get_session_data) refl
  ]

  -- Allocate of a token that is free: the token stands for the data and for the timer that was set,
  -- and no other token is touched.
  pub allocate-find :
      (interval now garbage : ℕ) (payload : D) (s : Session D)
      → find (u32 (s.sequence + 1)) s.session_map ≡ none
      → let r = allocate interval now garbage payload s in
        let timer = set_timeout interval now (to_int s.session_timeout) r.1 s.timer in
        (find r.1 r.0.session_map
          ≡ some (record { session_data = payload; sequence = r.1; timer_id = timer.1 }))
        × (r.0.timer ≡ timer.0)
        × ((k : ℕ) → r.1 ≢ k → get_session_data k r.0 ≡ get_session_data k s)
  unfolding allocate
  allocate-find interval now garbage payload s free =
      let token = u32 (s.sequence + 1) in
      let info : SessionInfo D = record {
        session_data = payload;
        sequence = token;
        timer_id = garbage;
      } in
      (
        find-set_timer_same token _ info _ (find-insert_same token info s.session_map free),
        refl,
        λ k ne.
            get_session_data_lem k _
            ∙ ap data_of (
                find-set_timer_other k token _ _ ne
                ∙ find-insert_other k token info s.session_map ne)
            ∙ sym (get_session_data_lem k s),
      )

  -- Delete: the token stands for nothing, its timer is cleared, and no other token is touched.
  pub delete-find :
      (token : ℕ) (info : SessionInfo D) (s : Session D)
      → find token s.session_map ≡ some info
      → (get_session_data token (delete token s) ≡ none)
        × ((delete token s).timer ≡ clear info.timer_id s.timer)
        × ((k : ℕ) → token ≢ k → get_session_data k (delete token s) ≡ get_session_data k s)
  unfolding delete
  delete-find token info s e =
      rw (e, delete)
        (
          get_session_data_lem token _ ∙ ap data_of (find-erase_same token s.session_map),
          refl,
          λ k ne.
              get_session_data_lem k _
              ∙ ap data_of (find-erase_other k token s.session_map ne)
              ∙ sym (get_session_data_lem k s),
        )

  -- No callback of the list throws.
  abbrev pub Quiet : (ℕ → D → Bool) → D → List ℕ → Type 0
  Quiet throws payload = All λ c. throws c payload ≡ false

  abbrev pub with_data : D → List ℕ → List (ℕ × D)
  with_data payload = map λ c. (c, payload)

  -- A callback that throws, and the calls up to it.
  pub record IsStopped (throws : ℕ → D → Bool) (payload : D) (callbacks : List ℕ)
      (called : List (ℕ × D)) : Type 0 where
    pub before : List ℕ
    pub thrower : ℕ
    pub skipped : List ℕ
    pub asked : callbacks ≡ before ++ (thrower ∷ skipped)
    pub made : called ≡ with_data payload (before ++ (thrower ∷ []))
    pub quiet : Quiet throws payload before
    pub thrown : throws thrower payload ≡ true

  abbrev CalledBack : (ℕ → D → Bool) → D → List ℕ → List (ℕ × D) × Bool → Type 0
  CalledBack throws payload callbacks r =
      ((r.1 ≡ false) × (r.0 ≡ with_data payload callbacks) × Quiet throws payload callbacks)
      ⊎ ((r.1 ≡ true) × IsStopped throws payload callbacks r.0)

  call_back-CalledBack :
      (throws : ℕ → D → Bool) (payload : D) (callbacks : List ℕ)
      → CalledBack throws payload callbacks (call_back throws payload callbacks)
  unfolding call_back
  call_back-CalledBack throws payload [] = inl (refl, refl, tt)
  call_back-CalledBack throws payload (c ∷ cs) = elim (Bool-cases (throws c payload)) [
    | inl t ↦ rw t (
        inr (
          refl,
          record {
            before = [];
            thrower = c;
            skipped = cs;
            asked = refl;
            made = refl;
            quiet = tt;
            thrown = t;
          },
        ))
    | inr t ↦ elim (call_back-CalledBack throws payload cs) [
      | inl (f, e, q) ↦ rw (t, f) (inl (refl, ap (λ xs. (c, payload) ∷ xs) e, (refl, q)))
      | inr (f, s) ↦
          rw (t, f)
            (inr (
              refl,
              record {
                before = c ∷ s.before;
                thrower = s.thrower;
                skipped = s.skipped;
                asked = ap (λ xs. c ∷ xs) s.asked;
                made = ap (λ xs. (c, payload) ∷ xs) s.made;
                quiet = (t, s.quiet);
                thrown = s.thrown;
              },
            ))
    ]
  ]

  -- All callbacks were called and the session is gone, or one has thrown and the session is kept.
  abbrev pub TimedOut :
      (ℕ → D → Bool) → ℕ → D → Session D → Session D × List (ℕ × D) × Bool → Type 0
  TimedOut throws token payload s r =
      ((r.2 ≡ false)
        × (r.1 ≡ with_data payload s.timeout_callback)
        × Quiet throws payload s.timeout_callback
        × (get_session_data token r.0 ≡ none)
        × ((k : ℕ) → token ≢ k → get_session_data k r.0 ≡ get_session_data k s))
      ⊎ ((r.2 ≡ true) × IsStopped throws payload s.timeout_callback r.1 × (r.0 ≡ s))

  -- OnSessionTimeout of a session, where every session stands under its own number: every callback is
  -- called once with the session's data, in the order of registration, none throws, the token then
  -- stands for nothing and no other is touched; or a callback throws, those up to it have been called,
  -- and the session is kept.
  pub on_session_timeout-TimedOut :
      (throws : ℕ → D → Bool) (token : ℕ) (info : SessionInfo D) (s : Session D)
      → IsKeyed s
      → find token s.session_map ≡ some info
      → TimedOut throws token info.session_data s (on_session_timeout throws token s)
  unfolding on_session_timeout
  on_session_timeout-TimedOut throws token info s v e =
      let own : info.sequence ≡ token = sym (ap (sequence_of token) e) ∙ v token in
      elim (call_back-CalledBack throws info.session_data s.timeout_callback) [
        | inl (f, all, quiet) ↦
            simp (e, f, on_session_timeout, own)
              (inl (
                refl,
                all,
                quiet,
                get_session_data_lem token _ ∙ ap data_of (find-erase_same token s.session_map),
                λ k ne.
                    get_session_data_lem k _
                    ∙ ap data_of (find-erase_other k token s.session_map ne)
                    ∙ sym (get_session_data_lem k s),
              ))
        | inr (f, stopped) ↦ simp (e, f, on_session_timeout) (inr (refl, stopped, refl))
      ]

  insert_taken :
      (k : ℕ) (info old : SessionInfo D) (m : List (ℕ × SessionInfo D))
      → find k m ≡ some old
      → insert k info m ≡ m
  unfolding insert
  insert_taken k info old m e = rw (e, insert) refl

  -- A token that is in use when the sequence comes round to it: Allocate returns it, but it goes on
  -- standing for the data of the session that is there, and the timer is only added to.
  pub allocate_taken :
      (interval now garbage : ℕ) (payload : D) (old : SessionInfo D) (s : Session D)
      → find (u32 (s.sequence + 1)) s.session_map ≡ some old
      → let r = allocate interval now garbage payload s in
        let timer = set_timeout interval now (to_int s.session_timeout) r.1 s.timer in
        (get_session_data r.1 r.0 ≡ some old.session_data) × (r.0.timer ≡ timer.0)
  unfolding allocate
  allocate_taken interval now garbage payload old s e =
      let token = u32 (s.sequence + 1) in
      let info : SessionInfo D = record {
        session_data = payload;
        sequence = token;
        timer_id = garbage;
      } in
      let same = insert_taken token info old s.session_map e in
      (
        get_session_data_lem token _
            ∙ ap data_of (find-set_timer_same token _ old _ (ap (find token) same ∙ e)),
        refl,
      )

  erased-IsKeyed :
      (token : ℕ) (m : List (ℕ × SessionInfo D))
      → ((k : ℕ) → sequence_of k (find k m) ≡ k)
      → (k : ℕ) → sequence_of k (find k (erase token m)) ≡ k
  erased-IsKeyed token m v k = elim (ℕ_discrete token k) [
    | yes e ↦ ap (sequence_of k) (ap (λ t. find k (erase t m)) e ∙ find-erase_same k m)
    | no ne ↦ ap (sequence_of k) (find-erase_other k token m ne) ∙ v k
  ]

  allocated-IsKeyed :
      (token id : ℕ) (info : SessionInfo D) (m : List (ℕ × SessionInfo D))
      → info.sequence ≡ token
      → ((k : ℕ) → sequence_of k (find k m) ≡ k)
      → (k : ℕ) → sequence_of k (find k (set_timer token id (insert token info m))) ≡ k
  allocated-IsKeyed token id info m own v k = elim (ℕ_discrete token k) [
    | no ne ↦
        ap (sequence_of k)
          (find-set_timer_other k token id _ ne ∙ find-insert_other k token info m ne)
        ∙ v k
    | yes e ↦
        subst (λ j. sequence_of j (find j (set_timer token id (insert token info m))) ≡ j) e
          (elim (Option-cases (find token m)) [
            | inl f ↦
                ap (sequence_of token)
                  (find-set_timer_same token id info _ (find-insert_same token info m f))
                ∙ own
            | inr (old, f) ↦
                ap (sequence_of token) (
                  find-set_timer_same token id old _
                    (ap (find token) (insert_taken token info old m f) ∙ f))
                ∙ sym (ap (sequence_of token) f)
                ∙ v token
          ])
  ]

  -- Allocate, Delete and OnSessionTimeout keep every session under its own number.
  pub sessions-IsKeyed :
      (interval now garbage token : ℕ) (throws : ℕ → D → Bool) (payload : D) (s : Session D)
      → IsKeyed s
      → IsKeyed (allocate interval now garbage payload s).0
        × IsKeyed (delete token s)
        × IsKeyed (on_session_timeout throws token s).0
  unfolding allocate delete on_session_timeout
  sessions-IsKeyed interval now garbage token throws payload s v = (
    allocated-IsKeyed (u32 (s.sequence + 1)) _ _ s.session_map refl v,
    (elim (Option-cases (find token s.session_map)) [
      | inl e ↦ rw (e, delete) v
      | inr (info, e) ↦ rw (e, delete) (erased-IsKeyed token s.session_map v)
    ]),
    (elim (Option-cases (find token s.session_map)) [
      | inl e ↦ rw (e, on_session_timeout) v
      | inr (info, e) ↦
          elim (Bool-cases ((call_back throws info.session_data s.timeout_callback).1)) [
            | inl t ↦ rw (e, t, on_session_timeout) v
            | inr t ↦ rw (e, t, on_session_timeout) (erased-IsKeyed info.sequence s.session_map v)
          ]
    ]),
  )
