-- ===== src/Timer/Wheel/Round.antt =====
-- A round of CheckTimer (include/Timer.hpp) as far as the detached chain: what is due at the
-- tick is in the chain, and all that is left is due later.
use libsimplesvr.Base.{
  ℕ, ◌+◌, ◌%◌, ◌^◌, ◌≤◌, ◌<◌, ◌≡◌, ◌≢◌, refl, List, arith, All, All-map_impl, inl, inr, subst, sym,
  u64,
}
use libsimplesvr.Timer.Wheel.{TimerItem, Timer, tvr_size, cascade_all, detach, advance}
use libsimplesvr.Timer.Wheel.Invariant.{InTick, Slots-empty}
use libsimplesvr.Timer.Wheel.Due.{InvAt, DueFrom, Inv-cast, Cascaded, cascade_all-Cascaded}

-- An item of another slot than the one that is walked is due after the tick.
next-tick : (last i tv : ℕ) → i ≢ last % tvr_size → InTick last i tv → InTick (last + 1) i tv
next-tick last i tv ne (inl (at, lo, hi)) = inl (at, omega arith, omega arith)
next-tick last i tv ne (inr (late, at)) = absurd (ne at)

due-tick : (last tv : ℕ) → InTick last (last % tvr_size) tv → tv ≤ last
due-tick last tv (inl (at, lo, hi)) = omega arith
due-tick last tv (inr (late, at)) = omega arith

not-due : (last i tv : ℕ) → i ≢ last % tvr_size → InTick last i tv → last + 1 ≤ tv
not-due last i tv ne (inl (at, lo, hi)) = omega arith
not-due last i tv ne (inr (late, at)) = absurd (ne at)

module _ {ℓ} {D : Type ℓ} where
  -- The rest of the tick: what stands in the slot that it walks is due, nothing else is.
  abbrev pub IsDue : ℕ → List (TimerItem D) → Type 0
  IsDue now = All λ item. item.timeval ≤ now

  detach-InvAt :
      (t : Timer D)
      → t.last_timeval + 2 ^ 32 < 2 ^ 64
      → Cascaded t.last_timeval t
      → InvAt (detach t)
  unfolding detach
  detach-InvAt t room v =
      let last = t.last_timeval in
      let next : u64 (last + 1) ≡ last + 1 = omega arith in
      rw next (
        Inv-cast _ (omega arith) (omega arith) (omega arith) (omega arith) (record {
          time = refl;
          first =
              Slots-empty (InTick last) (InTick (last + 1)) t.vector1 _ (next-tick last) v.first;
          second = v.second;
          third = v.third;
          fourth = v.fourth;
          fifth = v.fifth;
        }))

  detach-IsDue : (t : Timer D) → Cascaded t.last_timeval t → IsDue t.last_timeval (detach t).firing
  unfolding detach
  detach-IsDue t v =
      let last = t.last_timeval in
      All-map_impl _ _ (t.vector1 (last % tvr_size)) (λ item. due-tick last item.timeval)
        (v.first (last % tvr_size))

  detach-DueFrom :
      (t : Timer D) → Cascaded t.last_timeval t → DueFrom (t.last_timeval + 1) (detach t)
  unfolding detach
  detach-DueFrom t v =
      let last = t.last_timeval in
      record {
        first =
            Slots-empty (InTick last) (λ _ tv. last + 1 ≤ tv) t.vector1 _ (not-due last) v.first;
        second = λ i.
            All-map_impl _ _ (t.vector2 i) (λ item h. omega (arith, h.low, h.reached)) (v.second i);
        third = λ i.
            All-map_impl _ _ (t.vector3 i) (λ item h. omega (arith, h.low, h.reached)) (v.third i);
        fourth = λ i.
            All-map_impl _ _ (t.vector4 i) (λ item h. omega (arith, h.low, h.reached)) (v.fourth i);
        fifth = λ i.
            All-map_impl _ _ (t.vector5 i) (λ item h. omega (arith, h.low, h.reached)) (v.fifth i);
      }

  -- The wheel after a round from the time `last`.
  pub record Advanced (last : ℕ) (u : Timer D) : Type 0 where
    pub inv : InvAt u
    pub time : u.last_timeval ≡ last + 1
    pub due : IsDue last u.firing
    pub rest : DueFrom (last + 1) u

  detach-Advanced :
      (last : ℕ) (t : Timer D) → last + 2 ^ 32 < 2 ^ 64 → Cascaded last t → Advanced last (detach t)
  unfolding detach
  detach-Advanced last t room v =
      let back = λ (l : ℕ) (e : l ≡ last). subst (λ l. Cascaded l t) (sym e) v in
      let v' = back t.last_timeval v.time in
      let room' : t.last_timeval + 2 ^ 32 < 2 ^ 64 = omega (arith, v.time) in
      record {
        inv = detach-InvAt t room' v';
        time = omega (arith, v.time);
        due = subst (λ l. IsDue l (detach t).firing) v.time (detach-IsDue t v');
        rest = subst (λ l. DueFrom (l + 1) (detach t)) v.time (detach-DueFrom t v');
      }

  -- A round up to the callbacks, from a wheel with its invariant and a clock in range, keeps the
  -- invariant, moves the wheel by one tick, detaches only items that are due at the tick, and leaves
  -- only items that are due later.
  pub advance-Advanced :
      (t : Timer D)
      → t.last_timeval + 2 ^ 32 < 2 ^ 64
      → InvAt t
      → Advanced t.last_timeval (advance t)
  unfolding advance
  advance-Advanced t room v = detach-Advanced _ (cascade_all t) room (cascade_all-Cascaded t room v)
