-- ===== src/LoadBalance/Balance.antt =====
-- Every call of include/LoadBalance.hpp keeps the total equal to the quotas that are left.
use libsimplesvr.Base.{
  ℕ, ◌+◌, ◌^◌, ◌<◌, ◌≡◌, refl, subst, inl, inr, Option, none, some, List, [], ◌∷◌, u32, All, arith,
  Option-cases,
}
use libsimplesvr.LoadBalance.{
  ServicePoint, LoadBalance, find_point, change_point, load_balance, clear, service_point,
  add_service_point, add_all, load_configure, refresh, pick, route, erase_service_point, failure,
  success,
}
use libsimplesvr.LoadBalance.Totals.{
  quotas_left, real_of, IsPoint, IsBalanced, weight-insert_point, weight-erase_point,
  weight-change_point, insert_point-All, erase_point-All, change_point-All, insert_point-Descending,
  erase_point-Descending, change_point-Descending,
}
use libsimplesvr.LoadBalance.Rounds.{Taken, TakenIfAny, pick-Taken, refresh-IsBalanced}

-- A call with its arguments.
pub data Call : Type 0 where
  clears : Call
  configures : ℕ → Option (List (ℕ × ℕ)) → Call
  adds : ℕ → ℕ → Call
  routes : (ℕ → ℕ) → ℕ → Call
  erases : ℕ → Call
  fails : ℕ → Call
  succeeds : ℕ → Call

unfoldable pub perform : Call → LoadBalance → LoadBalance
perform clears lb = clear lb
perform (configures now entries) lb = (load_configure now entries lb).1
perform (adds a quotas) lb = add_service_point a quotas lb
perform (routes roll now) lb = (route roll now lb).1
perform (erases a) lb = erase_service_point a lb
perform (fails a) lb = failure a lb
perform (succeeds a) lb = success a lb

-- Every entry has a quota of 32 bits and an address that the map does not have when it is added.
abbrev pub Fresh : List (ℕ × ℕ) → LoadBalance → Type 0
Fresh [] lb = Unit
Fresh ((a, quotas) ∷ entries) lb =
    (quotas < 2 ^ 32)
    × (find_point a lb.services ≡ none)
    × Fresh entries (add_service_point a quotas lb)

-- Only an address that the map does not have is added, with a quota of 32 bits; a configuration has
-- no address twice.
abbrev pub Admits : Call → LoadBalance → Type 0
Admits (adds a quotas) lb = (quotas < 2 ^ 32) × (find_point a lb.services ≡ none)
Admits (configures now (some entries)) lb = Fresh entries (clear lb)
Admits _ lb = Unit

find_point-real :
    (a : ℕ) (p : ServicePoint) (ps : List ServicePoint)
    → All IsPoint ps
    → find_point a ps ≡ some p
    → p.real_quotas < 2 ^ 32
unfolding find_point
find_point-real a p [] h e = cc
find_point-real a p (q ∷ ps) h e = ground (arith, h.0.real, find_point-real a p ps h.1)

weight-change_point_same :
    (a : ℕ) (g : ServicePoint → ServicePoint) (ps : List ServicePoint)
    → ((p : ServicePoint) → (g p).real_quotas ≡ p.real_quotas)
    → quotas_left (change_point a g ps) ≡ quotas_left ps
unfolding change_point
weight-change_point_same a g [] k = refl
weight-change_point_same a g (p ∷ ps) k = ground (arith, k p, weight-change_point_same a g ps k)

route-IsBalanced :
    (roll : ℕ → ℕ) (now : ℕ) (lb : LoadBalance) → IsBalanced lb → IsBalanced (route roll now lb).1
unfolding route
route-IsBalanced roll now lb v =
    let w = refresh-IsBalanced now lb v in
    let lb' = refresh now lb in
    let seed = roll (u32 (lb'.total_quotas + 1)) in
    let k = pick-Taken seed lb'.services w.points in
    elim (Option-cases (pick seed lb'.services)) [
      | inl u ↦ rw (u, route) w
      | inr ((a, ps'), u) ↦
          let k' : Taken lb'.services (a, ps') = subst (TakenIfAny lb'.services) u k in
          rw (u, route)
            (record {
              total = omega (arith, w.total, k'.one_less);
              points = k'.points w.points;
              ordered = k'.ordered w.ordered;
            })
    ]

added-IsBalanced :
    (a quotas : ℕ) (lb : LoadBalance)
    → quotas < 2 ^ 32
    → find_point a lb.services ≡ none
    → IsBalanced lb
    → IsBalanced (add_service_point a quotas lb)
unfolding add_service_point
added-IsBalanced a quotas lb small absent v = record {
  total =
      omega
        (arith, v.total, weight-insert_point real_of (service_point a quotas) lb.services absent);
  points =
      insert_point-All IsPoint _ lb.services
        (record {
          sends = omega arith;
          recvs = omega arith;
          max = small;
          current = small;
          real = small;
        })
        v.points;
  ordered = insert_point-Descending _ lb.services v.ordered;
}

add_all-IsBalanced :
    (entries : List (ℕ × ℕ)) (lb : LoadBalance)
    → Fresh entries lb
    → IsBalanced lb
    → IsBalanced (add_all entries lb)
unfolding add_all
add_all-IsBalanced [] lb h v = v
add_all-IsBalanced ((a, quotas) ∷ entries) lb h v =
    add_all-IsBalanced entries (add_service_point a quotas lb) h.2
      (added-IsBalanced a quotas lb h.0 h.1 v)

clear-IsBalanced : (lb : LoadBalance) → IsBalanced (clear lb)
unfolding clear
clear-IsBalanced lb = record { total = omega arith; points = tt; ordered = tt }

-- Any call keeps the total equal, modulo 2 ^ 32, to the sum of the quotas that are left, and the
-- points in the order of the map with counters of 32 bits; AddServicePoint is given an address that
-- the map does not have, and a quota of 32 bits, and LoadConfigure a file in which each address has one
-- line, with such a quota.
pub perform-IsBalanced :
    (c : Call) (lb : LoadBalance) → Admits c lb → IsBalanced lb → IsBalanced (perform c lb)
unfolding perform load_configure erase_service_point failure success
perform-IsBalanced clears lb h v = clear-IsBalanced lb
perform-IsBalanced (configures now none) lb h v = v
perform-IsBalanced (configures now (some entries)) lb h v =
    let w = add_all-IsBalanced entries (clear lb) h (clear-IsBalanced lb) in
    record { total = w.total; points = w.points; ordered = w.ordered }
perform-IsBalanced (adds a quotas) lb h v = added-IsBalanced a quotas lb h.0 h.1 v
perform-IsBalanced (routes roll now) lb h v = route-IsBalanced roll now lb v
perform-IsBalanced (erases a) lb h v = elim (Option-cases (find_point a lb.services)) [
  | inl u ↦ rw (u, erase_service_point) v
  | inr (p, u) ↦
      rw (u, erase_service_point)
        (record {
          total = omega (
            arith,
            v.total,
            weight-erase_point real_of a p lb.services u,
            find_point-real a p lb.services v.points u,
          );
          points = erase_point-All IsPoint a lb.services v.points;
          ordered = erase_point-Descending a lb.services v.ordered;
        })
]
perform-IsBalanced (fails a) lb h v = elim (Option-cases (find_point a lb.services)) [
  | inl u ↦ rw (u, failure) v
  | inr (p, u) ↦
      rw (u, failure)
        (record {
          total = omega (
            arith,
            v.total,
            weight-change_point real_of a (λ q. record q { real_quotas = 0; current_quotas = 1 }) p
                lb.services u,
            find_point-real a p lb.services v.points u,
          );
          points =
              change_point-All IsPoint a _ lb.services
                (λ q k. record {
                  sends = k.sends;
                  recvs = k.recvs;
                  max = k.max;
                  current = omega arith;
                  real = omega arith;
                })
                v.points;
          ordered = change_point-Descending a _ lb.services (λ q. refl) v.ordered;
        })
]
perform-IsBalanced (succeeds a) lb h v = record {
  total = omega (
    arith,
    v.total,
    weight-change_point_same a (λ q. record q { recv_count = u32 (q.recv_count + 1) }) lb.services
        (λ q. refl),
  );
  points =
      change_point-All IsPoint a _ lb.services
        (λ q k. record {
          sends = k.sends;
          recvs = omega arith;
          max = k.max;
          current = k.current;
          real = k.real;
        })
        v.points;
  ordered = change_point-Descending a _ lb.services (λ q. refl) v.ordered;
}

pub load_balance-IsBalanced : (before : ℕ) → IsBalanced (load_balance before)
unfolding load_balance
load_balance-IsBalanced before = record { total = refl; points = tt; ordered = tt }
