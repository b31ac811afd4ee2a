-- ===== src/Timer/Ops/Calls.antt =====
-- SetTimeout, Clear and Update of include/Timer.hpp keep the wheel's invariant, whenever they are
-- called, and add nothing to the chain that CheckTimer is walking.
use libsimplesvr.Base.{
  ℕ, ◌+◌, ◌^◌, ◌≤◌, ◌<◌, ◌≡◌, refl, List, [], ◌∷◌, ◌∙◌, arith, All, Bool-cases, Option-cases, inl,
  inr, ◌==◌, length, subst, sym,
}
use libsimplesvr.Base.Int.{ℤ, pos, negsuc}
use libsimplesvr.Timer.Wheel.{TimerItem, Timer, internal_add_timer_item}
use libsimplesvr.Timer.Wheel.Place.{add_push}
use libsimplesvr.Timer.Wheel.Invariant.{Inv, Windows, add-Inv}
use libsimplesvr.Timer.Wheel.Due.{InvAt, window}
use libsimplesvr.Timer.Wheel.Round.{IsDue}
use libsimplesvr.Timer.Ops.{
  remove, unlink, find, deadline, set_timeout, clear, update, Call, sets, clears, updates, call,
  calls,
}

pub deadline-lt : (interval now : ℕ) (timeout : ℤ) → deadline interval now timeout < 2 ^ 64
unfolding deadline
deadline-lt interval now (pos n) = omega arith
deadline-lt interval now (negsuc n) = omega arith

module _ {ℓ} {D : Type ℓ} where
  remove-All :
      (P : TimerItem D → Type 0) (a : ℕ) (xs : List (TimerItem D)) → All P xs → All P (remove a xs)
  unfolding remove
  remove-All P a [] h = tt
  remove-All P a (x ∷ xs) h = elim (Bool-cases (x.address == a)) [
    | inl e ↦ rw e h.1
    | inr e ↦ rw e (h.0, remove-All P a xs h.1)
  ]

  length-remove : (a : ℕ) (xs : List (TimerItem D)) → length (remove a xs) ≤ length xs
  unfolding remove
  length-remove a [] = omega arith
  length-remove a (x ∷ xs) = ground (arith, length-remove a xs)

  -- What a call leaves as it was, and what it keeps.
  pub record Kept (t u : Timer D) : Type 0 where
    pub inv : InvAt u
    pub time : u.last_timeval ≡ t.last_timeval
    pub due : (n : ℕ) → IsDue n t.firing → IsDue n u.firing
    pub shorter : length u.firing ≤ length t.firing

  pub Kept-refl : (t : Timer D) → InvAt t → Kept t t
  Kept-refl t v = record { inv = v; time = refl; due = λ n h. h; shorter = omega arith }

  pub Kept-trans : {s t u : Timer D} → Kept s t → Kept t u → Kept s u
  Kept-trans k l = record {
    inv = l.inv;
    time = l.time ∙ k.time;
    due = λ n h. l.due n (k.due n h);
    shorter = omega (arith, k.shorter, l.shorter);
  }

  unlink-Kept : (a : ℕ) (t : Timer D) → InvAt t → Kept t (unlink a t)
  unfolding unlink
  unlink-Kept a t v = record {
    inv = record {
      time = refl;
      first = λ i. remove-All _ a (t.vector1 i) (v.first i);
      second = λ i. remove-All _ a (t.vector2 i) (v.second i);
      third = λ i. remove-All _ a (t.vector3 i) (v.third i);
      fourth = λ i. remove-All _ a (t.vector4 i) (v.fourth i);
      fifth = λ i. remove-All _ a (t.vector5 i) (v.fifth i);
    };
    time = refl;
    due = λ n h. remove-All _ a t.firing h;
    shorter = length-remove a t.firing;
  }

  add-same :
      (item : TimerItem D) (t : Timer D)
      → ((internal_add_timer_item item t).last_timeval ≡ t.last_timeval)
        × ((internal_add_timer_item item t).firing ≡ t.firing)
  add-same item t =
      add_push (λ u. (u.last_timeval ≡ t.last_timeval) × (u.firing ≡ t.firing)) item t
        (λ i l. (refl, refl)) (λ i l. (refl, refl)) (λ i l. (refl, refl)) (λ i l. (refl, refl))
        (λ i l. (refl, refl))

  add-Kept :
      (item : TimerItem D) (t : Timer D)
      → t.last_timeval + 2 ^ 32 < 2 ^ 64
      → item.timeval < 2 ^ 64
      → InvAt t
      → Kept t (internal_add_timer_item item t)
  add-Kept item t room bound v =
      let last = t.last_timeval in
      let w : Windows last (window (2 ^ 8) last) (window (2 ^ 14) last) (window (2 ^ 20) last)
          (window (2 ^ 26) last) =
        omega arith in
      let same = add-same item t in
      let u = internal_add_timer_item item t in
      record {
        inv =
            subst
              (λ l.
                Inv l (window (2 ^ 8) l) (window (2 ^ 14) l) (window (2 ^ 20) l) (window (2 ^ 26) l)
                  u)
              (sym same.0) (add-Inv w item t bound v);
        time = same.0;
        due = λ n h. subst (IsDue n) (sym same.1) h;
        shorter = rw same.1 (omega arith);
      }

  -- The map and the counters play no part in the invariant.
  InvAt-rest :
      (t : Timer D) (id a : ℕ) (m : List (ℕ × TimerItem D))
      → InvAt t
      → InvAt (record t { last_timer_id = id; timer_data_map = m; next_address = a })
  InvAt-rest t id a m v = record {
    time = v.time;
    first = v.first;
    second = v.second;
    third = v.third;
    fourth = v.fourth;
    fifth = v.fifth;
  }

  Kept-rest :
      {t : Timer D} (u : Timer D) (id a : ℕ) (m : List (ℕ × TimerItem D))
      → Kept t u
      → Kept t (record u { last_timer_id = id; timer_data_map = m; next_address = a })
  Kept-rest u id a m k = record {
    inv = InvAt-rest u id a m k.inv;
    time = k.time;
    due = k.due;
    shorter = k.shorter;
  }

  set_timeout-Kept :
      (interval now : ℕ) (timeout : ℤ) (payload : D) (t : Timer D)
      → t.last_timeval + 2 ^ 32 < 2 ^ 64
      → InvAt t
      → Kept t (set_timeout interval now timeout payload t).0
  unfolding set_timeout
  set_timeout-Kept interval now timeout payload t room v = Kept-rest _ _ _ _ (
      Kept-trans (Kept-rest t _ t.next_address t.timer_data_map (Kept-refl t v)) (
        add-Kept _ _ room (deadline-lt interval now timeout)
          (InvAt-rest t _ t.next_address t.timer_data_map v)))

  clear-Kept : (id : ℕ) (t : Timer D) → InvAt t → Kept t (clear id t)
  unfolding clear
  clear-Kept id t v = elim (Option-cases (find id t.timer_data_map)) [
    | inl e ↦ rw (e, clear) (Kept-refl t v)
    | inr (item, e) ↦ rw (e, clear) (Kept-rest _ _ _ _ (unlink-Kept item.address t v))
  ]

  update-Kept :
      (interval now id : ℕ) (timeout : ℤ) (t : Timer D)
      → t.last_timeval + 2 ^ 32 < 2 ^ 64
      → InvAt t
      → Kept t (update interval now id timeout t)
  unfolding update unlink
  update-Kept interval now id timeout t room v = elim (Option-cases (find id t.timer_data_map)) [
    | inl e ↦ rw (e, update) (Kept-refl t v)
    | inr (item, e) ↦
        rw (e, update)
          (let k = Kept-rest _ t.last_timer_id t.next_address _ (unlink-Kept item.address t v) in
            Kept-trans k (add-Kept _ _ room (deadline-lt interval now timeout) k.inv))
  ]

module _ {ℓ} {D : Type ℓ} (interval : ℕ) (script : TimerItem D → Timer D → List (Call D)) where
  pub call-Kept :
      (c : Call D) (t : Timer D)
      → t.last_timeval + 2 ^ 32 < 2 ^ 64
      → InvAt t
      → Kept t (call interval script c t)
  unfolding call
  call-Kept (sets now timeout payload) t room v =
      set_timeout-Kept interval now timeout payload t room v
  call-Kept (clears id) t room v = clear-Kept id t v
  call-Kept (updates now id timeout) t room v = update-Kept interval now id timeout t room v

  -- Any sequence of SetTimeout, Clear and Update, on a wheel with its invariant and a clock in range,
  -- keeps the invariant and the clock, makes nothing in the chain due later, and the chain no longer.
  pub calls-Kept :
      (cs : List (Call D)) (t : Timer D)
      → t.last_timeval + 2 ^ 32 < 2 ^ 64
      → InvAt t
      → Kept t (calls interval script cs t)
  unfolding calls
  calls-Kept [] t room v = Kept-refl t v
  calls-Kept (c ∷ cs) t room v =
      let k = call-Kept c t room v in
      Kept-trans k (calls-Kept cs (call interval script c t) (omega (arith, k.time)) k.inv)
