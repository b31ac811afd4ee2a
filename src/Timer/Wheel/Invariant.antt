-- ===== src/Timer/Wheel/Invariant.antt =====
-- The timing wheel's invariant (include/Timer.hpp), and that adding an item keeps it.
use libsimplesvr.Base.{
  ℕ, ◌+◌, ◌*◌, ◌/◌, ◌%◌, ◌^◌, ◌≤◌, ◌<◌, ◌≡◌, ◌⊎◌, ◌≢◌, refl, inl, inr, List, [], ◌∷◌, arith, ◌==◌,
  Bool-cases, All, subst, ==_iff, All-map_impl,
}
use libsimplesvr.Base.Sums.{put}
use libsimplesvr.Timer.Wheel.{
  TimerItem, Timer, tvr_size, tvn_size, slot_of, internal_add_timer_item, re_add,
}
use libsimplesvr.Timer.Wheel.Place.{add_cases}

-- An item due at `tv` may stand in slot `i` of the first vector at the time `last`: it is in the
-- slot of its own tick, or it was late when it was added and is in the next slot to be walked.
abbrev pub InTick : ℕ → ℕ → ℕ → Type 0
InTick last i tv =
    ((tv % tvr_size ≡ i) × (last ≤ tv) × (tv < last + tvr_size))
    ⊎ ((tv < last) × (i ≡ last % tvr_size))

-- An item due at `tv` may stand in slot `i` of a coarser vector whose next window is `c`: the slot
-- is cascaded at some window `q` that comes up within a turn and starts no later than `tv`.
pub record InWindow (unit c i tv : ℕ) : Type 0 where
  pub q : ℕ
  pub slot : q % tvn_size ≡ i
  pub low : c ≤ q
  pub high : q < c + tvn_size
  pub reached : q * unit ≤ tv
  pub word : tv < 2 ^ 64

-- The next window of a vector, at the time `last`.
pub record NextWindow (unit last c : ℕ) : Type 0 where
  pub not_later : c ≤ last / unit + 1
  pub not_passed : last ≤ c * unit

module _ {ℓ} {D : Type ℓ} where
  -- Every slot's items satisfy a predicate of the slot and the due time.
  abbrev pub Slots : (ℕ → ℕ → Type 0) → (ℕ → List (TimerItem D)) → Type 0
  Slots P v = (i : ℕ) → All (λ item. P i item.timeval) (v i)

  pub Slots-put :
      (P : ℕ → ℕ → Type 0) (v : ℕ → List (TimerItem D)) (k : ℕ) (xs : List (TimerItem D))
      → Slots P v
      → All (λ item. P k item.timeval) xs
      → Slots P (put v k xs)
  Slots-put P v k xs s h i = elim (Bool-cases (k == i)) [
    | inl e ↦ rw e (subst (λ j. All (λ item. P j item.timeval) xs) ((==_iff k i).0 e) h)
    | inr e ↦ rw e (s i)
  ]

  -- A slot is emptied, and the predicate changes for the others.
  pub Slots-empty :
      (P Q : ℕ → ℕ → Type 0) (v : ℕ → List (TimerItem D)) (k : ℕ)
      → ((i tv : ℕ) → i ≢ k → P i tv → Q i tv)
      → Slots P v
      → Slots Q (put v k [])
  Slots-empty P Q v k f s i = elim (Bool-cases (k == i)) [
    | inl e ↦ rw e tt
    | inr e ↦ rw e (
        All-map_impl (λ item. P i item.timeval) (λ item. Q i item.timeval) (v i)
          (λ item. f i item.timeval (ground arith)) (s i))
  ]

-- The wheel at the time `last`, with the next windows of its four coarser vectors.
pub record Inv {ℓ} {D : Type ℓ} (last c2 c3 c4 c5 : ℕ) (t : Timer D) : Type 0 where
  pub time : t.last_timeval ≡ last
  pub first : Slots (InTick last) t.vector1
  pub second : Slots (InWindow (2 ^ 8) c2) t.vector2
  pub third : Slots (InWindow (2 ^ 14) c3) t.vector3
  pub fourth : Slots (InWindow (2 ^ 20) c4) t.vector4
  pub fifth : Slots (InWindow (2 ^ 26) c5) t.vector5

pub record Windows (last c2 c3 c4 c5 : ℕ) : Type 0 where
  pub room : last + 2 ^ 32 < 2 ^ 64
  pub window2 : NextWindow (2 ^ 8) last c2
  pub window3 : NextWindow (2 ^ 14) last c3
  pub window4 : NextWindow (2 ^ 20) last c4
  pub window5 : NextWindow (2 ^ 26) last c5

-- What an item due between one window and a turn ahead gets.
abbrev Fits : ℕ → Type 0
Fits unit =
    (last c tv tv' : ℕ)
    → NextWindow unit last c
    → last + unit ≤ tv
    → tv < last + unit * tvn_size
    → tv ≤ tv'
    → tv' < 2 ^ 64
    → InWindow unit c (slot_of unit tv) tv'

fits2 : Fits (2 ^ 8)
fits2 last c tv tv' w lo hi le wd = record {
  q = tv / 2 ^ 8;
  slot = refl;
  low = omega (arith, w.not_later);
  high = omega (arith, w.not_passed);
  reached = omega arith;
  word = wd;
}

fits3 : Fits (2 ^ 14)
fits3 last c tv tv' w lo hi le wd = record {
  q = tv / 2 ^ 14;
  slot = refl;
  low = omega (arith, w.not_later);
  high = omega (arith, w.not_passed);
  reached = omega arith;
  word = wd;
}

fits4 : Fits (2 ^ 20)
fits4 last c tv tv' w lo hi le wd = record {
  q = tv / 2 ^ 20;
  slot = refl;
  low = omega (arith, w.not_later);
  high = omega (arith, w.not_passed);
  reached = omega arith;
  word = wd;
}

fits5 : Fits (2 ^ 26)
fits5 last c tv tv' w lo hi le wd = record {
  q = tv / 2 ^ 26;
  slot = refl;
  low = omega (arith, w.not_later);
  high = omega (arith, w.not_passed);
  reached = omega arith;
  word = wd;
}

module _ {ℓ} {D : Type ℓ} {last c2 c3 c4 c5 : ℕ} (w : Windows last c2 c3 c4 c5) where
  pub add-Inv :
      (item : TimerItem D) (t : Timer D)
      → item.timeval < 2 ^ 64
      → Inv last c2 c3 c4 c5 t
      → Inv last c2 c3 c4 c5 (internal_add_timer_item item t)
  add-Inv item t bound v =
      let e = v.time in
      let due = item.timeval in
      add_cases (Inv last c2 c3 c4 c5) item t bound (rw e w.room)
        (λ l. record {
          time = v.time;
          second = v.second;
          third = v.third;
          fourth = v.fourth;
          fifth = v.fifth;
          first = Slots-put (InTick last) t.vector1 _ _ v.first (inr (rw e at l, rw e), v.first _);
        })
        (λ l h. record {
          time = v.time;
          second = v.second;
          third = v.third;
          fourth = v.fourth;
          fifth = v.fifth;
          first =
              Slots-put (InTick last) t.vector1 _ _ v.first
                (inl (refl, rw e at l, rw e at h), v.first _);
        })
        (λ l h. record {
          time = v.time;
          first = v.first;
          third = v.third;
          fourth = v.fourth;
          fifth = v.fifth;
          second = Slots-put (InWindow (2 ^ 8) c2) t.vector2 _ _ v.second (
            fits2 last c2 due due w.window2 (rw e at l) (rw e at h) (omega arith) bound,
            v.second _,
          );
        })
        (λ l h. record {
          time = v.time;
          first = v.first;
          second = v.second;
          fourth = v.fourth;
          fifth = v.fifth;
          third = Slots-put (InWindow (2 ^ 14) c3) t.vector3 _ _ v.third (
            fits3 last c3 due due w.window3 (rw e at l) (rw e at h) (omega arith) bound,
            v.third _,
          );
        })
        (λ l h. record {
          time = v.time;
          first = v.first;
          second = v.second;
          third = v.third;
          fifth = v.fifth;
          fourth = Slots-put (InWindow (2 ^ 20) c4) t.vector4 _ _ v.fourth (
            fits4 last c4 due due w.window4 (rw e at l) (rw e at h) (omega arith) bound,
            v.fourth _,
          );
        })
        (λ tv l h le. record {
          time = v.time;
          first = v.first;
          second = v.second;
          third = v.third;
          fourth = v.fourth;
          fifth =
              Slots-put (InWindow (2 ^ 26) c5) t.vector5 _ _ v.fifth
                (fits5 last c5 tv due w.window5 (rw e at l) (rw e at h) le bound, v.fifth _);
        })

  pub re_add-Inv :
      (xs : List (TimerItem D)) (t : Timer D)
      → All (λ item. item.timeval < 2 ^ 64) xs
      → Inv last c2 c3 c4 c5 t
      → Inv last c2 c3 c4 c5 (re_add xs t)
  unfolding re_add
  re_add-Inv [] t h v = v
  re_add-Inv (x ∷ xs) t h v = re_add-Inv xs (internal_add_timer_item x t) h.1 (add-Inv x t h.0 v)
