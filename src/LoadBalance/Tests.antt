-- ===== src/LoadBalance/Tests.antt =====
-- The load balancer of include/LoadBalance.hpp at concrete inputs.
use libsimplesvr.Base.{
  ℕ, suc, ◌+◌, ◌-◌, ◌*◌, ◌/◌, ◌^◌, ◌<◌, ◌≡◌, List, [], ◌∷◌, arith, refl, some, min,
}
use libsimplesvr.Base.Sums.{sum_below}
use libsimplesvr.LoadBalance.{
  ServicePoint, LoadBalance, service_point, load_balance, add_service_point, refresh, route, pick,
  insert_point, find_point,
}
use libsimplesvr.LoadBalance.Totals.{quotas_left, IsBalanced}
use libsimplesvr.LoadBalance.Balance.{
  adds, fails, perform, perform-IsBalanced, load_balance-IsBalanced,
}
use libsimplesvr.LoadBalance.Rounds.{refresh-IsBalanced}
use libsimplesvr.LoadBalance.Picks.{takes, share, takes-share, route-Served}
use libsimplesvr.LoadBalance.Policy.{recovered, recovered-quotas}

abbrev first : LoadBalance
first = perform (adds 40 3) (load_balance 0)

abbrev both : LoadBalance
both = perform (adds 30 2) first

both-IsBalanced : IsBalanced both
unfolding perform add_service_point insert_point load_balance find_point
both-IsBalanced =
    perform-IsBalanced (adds 30 2) first (omega arith, refl)
      (perform-IsBalanced (adds 40 3) (load_balance 0) (omega arith, refl)
        (load_balance-IsBalanced 0))

abbrev points : List ServicePoint
points = service_point 40 3 ∷ service_point 30 2 ∷ []

both-services : both.services ≡ points
unfolding perform add_service_point insert_point load_balance
both-services = refl

perform-IsBalanced_example : IsBalanced (perform (fails 30) both)
perform-IsBalanced_example = perform-IsBalanced (fails 30) both tt both-IsBalanced

takes-share_example :
    sum_below (quotas_left points) (λ i. takes 30 points (suc i)) ≡ share 30 points
takes-share_example = takes-share 30 points (omega arith)

abbrev roll : ℕ → ℕ
roll n = n / 2

both-fresh : refresh 5 both ≡ both
unfolding perform add_service_point insert_point load_balance refresh
both-fresh = refl

route-Served_example :
    (a : ℕ) × ((route roll 5 both).0 ≡ some a)
    × (0 < share a (refresh 5 both).services)
    × ((route roll 5 both).1.total_quotas + 1 ≡ (refresh 5 both).total_quotas)
    × (quotas_left (route roll 5 both).1.services ≡ (route roll 5 both).1.total_quotas)
unfolding perform add_service_point insert_point load_balance refresh
route-Served_example =
    route-Served roll 5 both (refresh-IsBalanced 5 both both-IsBalanced) (omega arith) (omega arith)
      (omega arith)

-- A point that sent a hundred and got ninety back.
abbrev busy : ServicePoint
busy = record (service_point 7 50) { send_count = 100; recv_count = 90 }

abbrev fallen : ServicePoint
fallen = record busy { current_quotas = 1 }

recovered-quotas_example : (recovered 8 3 fallen).current_quotas ≡ min 50 (1 + 3 * (50 / 5))
recovered-quotas_example =
    recovered-quotas 8 3 fallen (omega arith) (omega arith)
      (record { small = omega arith; limited = omega arith })

-- The seed is 0 while the first point has no quota left: it is taken, and its quota wraps.
abbrev spent : List ServicePoint
spent = record (service_point 40 3) { real_quotas = 0 } ∷ service_point 30 2 ∷ []

seed_of_0 :
    pick 0 spent
    ≡ some (
      40,
      record (service_point 40 3) { real_quotas = 2 ^ 32 - 1; send_count = 1 }
          ∷ service_point 30 2
          ∷ [],
    )
unfolding pick
seed_of_0 = refl

-- An address that is added twice counts twice in the total, and once in the map.
added_twice : (add_service_point 40 3 first).total_quotas ≡ 6
unfolding perform add_service_point insert_point load_balance
added_twice = refl

added_once : quotas_left (add_service_point 40 3 first).services ≡ 3
unfolding perform add_service_point insert_point load_balance
added_once = refl
