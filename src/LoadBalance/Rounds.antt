-- ===== src/LoadBalance/Rounds.antt =====
-- What Route of include/LoadBalance.hpp does to the points: it sets the quotas again, and takes one.
use libsimplesvr.Base.{
  ℕ, ◌+◌, ◌^◌, ◌<◌, ◌≡◌, refl, subst, inl, inr, Bool, true, false, ◌||◌, none, some, List, [], ◌∷◌,
  ltb, leb, ◌==◌, if◌then◌else◌, u32, sub32, map, All, arith, Bool-cases, Option-cases, Option,
}
use libsimplesvr.LoadBalance.{
  ServicePoint, LoadBalance, reset, adapted, renew, add_quotas, refresh, take_point, pick,
}
use libsimplesvr.LoadBalance.Totals.{quotas_left, IsPoint, Descending, IsBalanced}

add_quotas_lem :
    (t : ℕ) (ps : List ServicePoint) → t < 2 ^ 32 → add_quotas t ps ≡ u32 (t + quotas_left ps)
unfolding add_quotas
add_quotas_lem t [] h = omega arith
add_quotas_lem t (p ∷ ps) h =
    omega (arith, add_quotas_lem (u32 (t + p.real_quotas)) ps (omega arith))

reset-IsPoint : (p : ServicePoint) → IsPoint p → IsPoint (reset p)
unfolding reset adapted
reset-IsPoint p h = record {
  sends = omega arith;
  recvs = omega arith;
  max = h.max;
  real = h.real;
  current = ground (arith, h.max, h.current);
}

renew-IsPoint : (b : Bool) (p : ServicePoint) → IsPoint p → IsPoint (renew b p)
unfolding renew
renew-IsPoint true p h =
    let r = reset-IsPoint p h in
    record { sends = r.sends; recvs = r.recvs; max = r.max; current = r.current; real = r.current }
renew-IsPoint false p h = record {
  sends = h.sends;
  recvs = h.recvs;
  max = h.max;
  current = h.current;
  real = h.current;
}

renew-address : (b : Bool) (p : ServicePoint) → (renew b p).address ≡ p.address
unfolding renew reset
renew-address true p = refl
renew-address false p = refl

map-All :
    (P Q : ServicePoint → Type 0) (g : ServicePoint → ServicePoint) (ps : List ServicePoint)
    → ((p : ServicePoint) → P p → Q (g p))
    → All P ps
    → All Q (map g ps)
map-All P Q g [] k h = tt
map-All P Q g (p ∷ ps) k h = (k p h.0, map-All P Q g ps k h.1)

map-Descending :
    (g : ServicePoint → ServicePoint) (ps : List ServicePoint)
    → ((p : ServicePoint) → (g p).address ≡ p.address)
    → Descending ps
    → Descending (map g ps)
map-Descending g [] k d = tt
map-Descending g (p ∷ ps) k d =
    (map-All _ _ g ps (λ q h. rw (k p, k q) h) d.0, map-Descending g ps k d.1)

-- What the loop of Route leaves, where it takes a point.
pub record Taken (ps : List ServicePoint) (r : ℕ × List ServicePoint) : Type 0 where
  pub one_less : u32 (quotas_left r.1 + 1) ≡ u32 (quotas_left ps)
  pub points : All IsPoint ps → All IsPoint r.1
  pub below : (n : ℕ) → All (λ p. p.address < n) ps → All (λ p. p.address < n) r.1
  pub ordered : Descending ps → Descending r.1

abbrev pub TakenIfAny : List ServicePoint → Option (ℕ × List ServicePoint) → Type 0
TakenIfAny ps none = Unit
TakenIfAny ps (some r) = Taken ps r

take_point-Taken :
    (p : ServicePoint) (ps : List ServicePoint)
    → IsPoint p
    → Taken (p ∷ ps) (p.address, take_point p ∷ ps)
take_point-Taken p ps h = record {
  one_less = omega (arith, h.real);
  points = λ hs. (
    record {
      sends = omega arith;
      recvs = h.recvs;
      max = h.max;
      current = h.current;
      real = omega arith;
    },
    hs.1,
  );
  below = λ n hs. hs;
  ordered = λ d. d;
}

later-Taken :
    (p : ServicePoint) (ps : List ServicePoint) (a : ℕ) (ps' : List ServicePoint)
    → Taken ps (a, ps')
    → Taken (p ∷ ps) (a, p ∷ ps')
later-Taken p ps a ps' k = record {
  one_less = omega (arith, k.one_less);
  points = λ hs. (hs.0, k.points hs.1);
  below = λ n hs. (hs.0, k.below n hs.1);
  ordered = λ d. (k.below p.address d.0, k.ordered d.1);
}

pub pick-Taken : (seed : ℕ) (ps : List ServicePoint) → All IsPoint ps → TakenIfAny ps (pick seed ps)
unfolding pick
pick-Taken seed [] h = tt
pick-Taken seed (p ∷ ps) h = elim (Bool-cases (leb seed p.real_quotas)) [
  | inl t ↦ rw t (take_point-Taken p ps h.0)
  | inr t ↦ elim (Option-cases (pick (sub32 seed p.real_quotas) ps)) [
    | inl u ↦ rw (t, u) tt
    | inr ((a, ps'), u) ↦
        rw (t, u)
          (later-Taken p ps a ps'
            (subst (TakenIfAny ps) u (pick-Taken (sub32 seed p.real_quotas) ps h.1)))
  ]
]

pub refresh-IsBalanced : (now : ℕ) (lb : LoadBalance) → IsBalanced lb → IsBalanced (refresh now lb)
unfolding refresh
refresh-IsBalanced now lb v =
    let resets = ltb (lb.last_timestamp + 10) now in
    let again : IsBalanced (record {
      total_quotas = add_quotas 0 (map (renew resets) lb.services);
      last_timestamp = if resets then now else lb.last_timestamp;
      services = map (renew resets) lb.services;
    }) =
      record {
        total = omega (arith, add_quotas_lem 0 (map (renew resets) lb.services) (omega arith));
        points = map-All _ _ (renew resets) lb.services (renew-IsPoint resets) v.points;
        ordered = map-Descending (renew resets) lb.services (renew-address resets) v.ordered;
      } in
    elim (Bool-cases ((lb.total_quotas == 0) || resets)) [
      | inl t ↦ rw (t, refresh) again
      | inr t ↦ rw (t, refresh) v
    ]
