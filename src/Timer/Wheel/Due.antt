-- ===== src/Timer/Wheel/Due.antt =====
-- The cascading in a round of CheckTimer (include/Timer.hpp): the windows that begin with the tick are
-- emptied into the finer vectors.
use libsimplesvr.Base.{
  ℕ, ◌+◌, ◌-◌, ◌/◌, ◌%◌, ◌^◌, ◌≤◌, ◌<◌, ◌≡◌, refl, arith, Bool-cases, inl, inr, ◌==◌,
}
use libsimplesvr.Timer.Wheel.{
  Timer, tvr_size, slot_of, cascade2, cascade3, cascade4, cascade5, cascade_all,
}
use libsimplesvr.Timer.Wheel.Invariant.{Slots, Inv, Windows}
use libsimplesvr.Timer.Wheel.Cascade.{cascade2-Inv, cascade3-Inv, cascade4-Inv, cascade5-Inv}

-- The first window of `unit` ticks that has not begun before the time `last`.
abbrev pub window : ℕ → ℕ → ℕ
window unit last = (last + unit - 1) / unit

-- The wheel between two ticks.
abbrev pub InvAt {ℓ} : {D : Type ℓ} → Timer D → Type 0
InvAt t =
    let last = t.last_timeval in
    Inv last (window (2 ^ 8) last) (window (2 ^ 14) last) (window (2 ^ 20) last)
      (window (2 ^ 26) last) t

-- Every item that stands in the wheel is due at `n` or later.
pub record DueFrom {ℓ} {D : Type ℓ} (n : ℕ) (t : Timer D) : Type 0 where
  pub first : Slots (λ _ tv. n ≤ tv) t.vector1
  pub second : Slots (λ _ tv. n ≤ tv) t.vector2
  pub third : Slots (λ _ tv. n ≤ tv) t.vector3
  pub fourth : Slots (λ _ tv. n ≤ tv) t.vector4
  pub fifth : Slots (λ _ tv. n ≤ tv) t.vector5

module _ {ℓ} {D : Type ℓ} where
  pub Inv-cast :
      {last c2 c3 c4 c5 d2 d3 d4 d5 : ℕ} (t : Timer D)
      → c2 ≡ d2
      → c3 ≡ d3
      → c4 ≡ d4
      → c5 ≡ d5
      → Inv last c2 c3 c4 c5 t
      → Inv last d2 d3 d4 d5 t
  Inv-cast t e2 e3 e4 e5 v = rw (← e2, ← e3, ← e4, ← e5) v

  -- The windows that begin with the tick have been cascaded.
  abbrev pub Cascaded : ℕ → Timer D → Type 0
  Cascaded last t =
      Inv last (last / 2 ^ 8 + 1) (last / 2 ^ 14 + 1) (last / 2 ^ 20 + 1) (last / 2 ^ 26 + 1) t

  step2 :
      (last : ℕ) (t : Timer D)
      → last + 2 ^ 32 < 2 ^ 64
      → last % 2 ^ 8 ≡ 0
      → Inv last
          (window (2 ^ 8) last)
          (window (2 ^ 14) last)
          (window (2 ^ 20) last)
          (window (2 ^ 26) last)
          t
      → Inv last
          (last / 2 ^ 8 + 1)
          (window (2 ^ 14) last)
          (window (2 ^ 20) last)
          (window (2 ^ 26) last)
          (cascade2 (slot_of (2 ^ 8) last) t)
  step2 last t room begins v =
      let w : Windows last (window (2 ^ 8) last + 1) (window (2 ^ 14) last) (window (2 ^ 20) last)
          (window (2 ^ 26) last) =
        omega arith in
      Inv-cast _ (omega arith) refl refl refl (cascade2-Inv _ t (omega arith) w v)

  step3 :
      (last : ℕ) (t : Timer D)
      → last + 2 ^ 32 < 2 ^ 64
      → last % 2 ^ 14 ≡ 0
      → Inv last
          (last / 2 ^ 8 + 1)
          (window (2 ^ 14) last)
          (window (2 ^ 20) last)
          (window (2 ^ 26) last)
          t
      → Inv last
          (last / 2 ^ 8 + 1)
          (last / 2 ^ 14 + 1)
          (window (2 ^ 20) last)
          (window (2 ^ 26) last)
          (cascade3 (slot_of (2 ^ 14) last) t)
  step3 last t room begins v =
      let w : Windows last (last / 2 ^ 8 + 1) (window (2 ^ 14) last + 1) (window (2 ^ 20) last)
          (window (2 ^ 26) last) =
        omega arith in
      Inv-cast _ refl (omega arith) refl refl (cascade3-Inv _ t (omega arith) w v)

  step4 :
      (last : ℕ) (t : Timer D)
      → last + 2 ^ 32 < 2 ^ 64
      → last % 2 ^ 20 ≡ 0
      → Inv last
          (last / 2 ^ 8 + 1)
          (last / 2 ^ 14 + 1)
          (window (2 ^ 20) last)
          (window (2 ^ 26) last)
          t
      → Inv last
          (last / 2 ^ 8 + 1)
          (last / 2 ^ 14 + 1)
          (last / 2 ^ 20 + 1)
          (window (2 ^ 26) last)
          (cascade4 (slot_of (2 ^ 20) last) t)
  step4 last t room begins v =
      let w : Windows last (last / 2 ^ 8 + 1) (last / 2 ^ 14 + 1) (window (2 ^ 20) last + 1)
          (window (2 ^ 26) last) =
        omega arith in
      Inv-cast _ refl refl (omega arith) refl (cascade4-Inv _ t (omega arith) w v)

  step5 :
      (last : ℕ) (t : Timer D)
      → last + 2 ^ 32 < 2 ^ 64
      → last % 2 ^ 26 ≡ 0
      → Inv last (last / 2 ^ 8 + 1) (last / 2 ^ 14 + 1) (last / 2 ^ 20 + 1) (window (2 ^ 26) last) t
      → Inv last
          (last / 2 ^ 8 + 1)
          (last / 2 ^ 14 + 1)
          (last / 2 ^ 20 + 1)
          (last / 2 ^ 26 + 1)
          (cascade5 (slot_of (2 ^ 26) last) t)
  step5 last t room begins v =
      let w : Windows last (last / 2 ^ 8 + 1) (last / 2 ^ 14 + 1) (last / 2 ^ 20 + 1)
          (window (2 ^ 26) last + 1) =
        omega arith in
      Inv-cast _ refl refl refl (omega arith) (cascade5-Inv _ t (omega arith) w v)

  pub cascade_all-Cascaded :
      (t : Timer D)
      → t.last_timeval + 2 ^ 32 < 2 ^ 64
      → InvAt t
      → Cascaded t.last_timeval (cascade_all t)
  unfolding cascade_all
  cascade_all-Cascaded t room v = elim (Bool-cases (last % tvr_size == 0)) [
    | inr e ↦ rw e (Inv-cast t (ground arith) (ground arith) (ground arith) (ground arith) v)
    | inl e ↦
        let v2 = step2 last t room (ground arith) v in
        rw e (elim (Bool-cases (slot_of (2 ^ 8) last == 0)) [
          | inr e2 ↦ rw e2 (Inv-cast _ refl (ground arith) (ground arith) (ground arith) v2)
          | inl e2 ↦
              let v3 = step3 last _ room (ground arith) v2 in
              rw e2 (elim (Bool-cases (slot_of (2 ^ 14) last == 0)) [
                | inr e3 ↦ rw e3 (Inv-cast _ refl refl (ground arith) (ground arith) v3)
                | inl e3 ↦
                    let v4 = step4 last _ room (ground arith) v3 in
                    rw e3 (elim (Bool-cases (slot_of (2 ^ 20) last == 0)) [
                      | inr e4 ↦ rw e4 (Inv-cast _ refl refl refl (ground arith) v4)
                      | inl e4 ↦ rw e4 (step5 last _ room (ground arith) v4)
                    ])
              ])
        ])
  ]
    where
      last : ℕ
      last = t.last_timeval
