-- ===== src/Session/Entries.antt =====
-- The map of include/Session.hpp: what find gives after a change.
use libsimplesvr.Base.{
  ℕ, ◌≡◌, ◌≢◌, refl, ap, subst, inl, inr, true, false, none, some, List, [], ◌∷◌, ◌==◌,
  if◌then◌else◌, Bool-cases, Option-cases, arith,
}
use libsimplesvr.Session.{SessionInfo, find, insert, erase, set_timer}

module _ {D : Type 0} where
  pub find-insert_same :
      (k : ℕ) (info : SessionInfo D) (m : List (ℕ × SessionInfo D))
      → find k m ≡ none
      → find k (insert k info m) ≡ some info
  unfolding find insert
  find-insert_same k info m e = let t : (k == k) ≡ true = ground arith in rw (e, insert, t) refl

  pub find-insert_other :
      (j k : ℕ) (info : SessionInfo D) (m : List (ℕ × SessionInfo D))
      → k ≢ j
      → find j (insert k info m) ≡ find j m
  unfolding find insert
  find-insert_other j k info m ne = elim (Option-cases (find k m)) [
    | inl e ↦ let t : (k == j) ≡ false = ground arith in rw (e, insert, t) refl
    | inr (old, e) ↦ rw (e, insert) refl
  ]

  pub find-erase_same : (k : ℕ) (m : List (ℕ × SessionInfo D)) → find k (erase k m) ≡ none
  unfolding find erase
  find-erase_same k [] = refl
  find-erase_same k ((j, info) ∷ m) = elim (Bool-cases (j == k)) [
    | inl t ↦ rw t (find-erase_same k m)
    | inr t ↦ rw (t, t) (find-erase_same k m)
  ]

  pub find-erase_other :
      (j k : ℕ) (m : List (ℕ × SessionInfo D)) → k ≢ j → find j (erase k m) ≡ find j m
  unfolding find erase
  find-erase_other j k [] ne = refl
  find-erase_other j k ((i, info) ∷ m) ne = elim (Bool-cases (i == k)) [
    | inl t ↦ let u : (i == j) ≡ false = ground arith in rw (t, u) (find-erase_other j k m ne)
    | inr t ↦ rw (t, find-erase_other j k m ne) refl
  ]

  pub find-set_timer_same :
      (k id : ℕ) (info : SessionInfo D) (m : List (ℕ × SessionInfo D))
      → find k m ≡ some info
      → find k (set_timer k id m) ≡ some (record info { timer_id = id })
  unfolding find set_timer
  find-set_timer_same k id info [] e = cc
  find-set_timer_same k id info ((j, old) ∷ m) e = elim (Bool-cases (j == k)) [
    | inl t ↦
        rw (t, t)
          (ap (λ o. elim o [ none ↦ none | some i ↦ some (record i { timer_id = id }) ])
            (subst (λ b. (if b then some old else find k m) ≡ some info) t e))
    | inr t ↦
        rw (t, t)
          (find-set_timer_same k id info m
            (subst (λ b. (if b then some old else find k m) ≡ some info) t e))
  ]

  pub find-set_timer_other :
      (j k id : ℕ) (m : List (ℕ × SessionInfo D)) → k ≢ j → find j (set_timer k id m) ≡ find j m
  unfolding find set_timer
  find-set_timer_other j k id [] ne = refl
  find-set_timer_other j k id ((i, info) ∷ m) ne = elim (Bool-cases (i == k)) [
    | inl t ↦ let u : (i == j) ≡ false = ground arith in rw (t, u) refl
    | inr t ↦ rw (t, find-set_timer_other j k id m ne) refl
  ]
