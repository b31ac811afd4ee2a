-- ===== src/LoadBalance/Picks.antt =====
-- Which point Route of include/LoadBalance.hpp takes: over the seeds, each as often as its quota.
use libsimplesvr.Base.{
  ℕ, suc, ◌+◌, ◌-◌, ◌*◌, ◌^◌, ◌<◌, ◌≤◌, ◌≡◌, refl, ap, ◌∙◌, inl, inr, true, false, none, some, List,
  [], ◌∷◌, leb, ◌==◌, if◌then◌else◌, u32, sub32, arith, Bool-cases, Option-cases, Option,
}
use libsimplesvr.Base.Sums.{
  weight, sum_below, sum_below-ext, sum_below_zero, sum_below-add, sum_below_const,
}
use libsimplesvr.LoadBalance.{ServicePoint, LoadBalance, refresh, take_point, pick, route}
use libsimplesvr.LoadBalance.Totals.{quotas_left, IsBalanced}

-- 1 where the address is the one, 0 where it is not.
abbrev pub is_one : ℕ → ℕ → ℕ
is_one a b = if b == a then 1 else 0

abbrev is_taken : ℕ → Option (ℕ × List ServicePoint) → ℕ
is_taken a none = 0
is_taken a (some (b, _)) = is_one a b

-- Whether the seed takes the address.
abbrev pub takes : ℕ → List ServicePoint → ℕ → ℕ
takes a ps seed = is_taken a (pick seed ps)

-- The quota that the address has left.
abbrev pub share : ℕ → List ServicePoint → ℕ
share a = weight (λ p. p.real_quotas * is_one a p.address)

takes_here :
    (a seed : ℕ) (p : ServicePoint) (ps : List ServicePoint)
    → seed ≤ p.real_quotas
    → takes a (p ∷ ps) seed ≡ is_one a p.address
unfolding pick
takes_here a seed p ps l = let e : leb seed p.real_quotas ≡ true = ground arith in rw e refl

takes_later :
    (a seed : ℕ) (p : ServicePoint) (ps : List ServicePoint)
    → p.real_quotas < seed
    → seed < 2 ^ 32
    → takes a (p ∷ ps) seed ≡ takes a ps (seed - p.real_quotas)
unfolding pick
takes_later a seed p ps l w =
    let e : leb seed p.real_quotas ≡ false = ground arith in
    let d : sub32 seed p.real_quotas ≡ seed - p.real_quotas = omega arith in
    elim (Option-cases (pick (seed - p.real_quotas) ps)) [
      | inl u ↦ rw (e, d, u) refl
      | inr ((b, ps'), u) ↦ rw (e, d, u) refl
    ]

-- Of the seeds from 1 to the sum of the quotas that are left, as many take an address as it has
-- quota left, where the sum has 32 bits.
pub takes-share :
    (a : ℕ) (ps : List ServicePoint)
    → quotas_left ps < 2 ^ 32
    → sum_below (quotas_left ps) (λ i. takes a ps (suc i)) ≡ share a ps
takes-share a [] small = sum_below_zero 0 (λ i. takes a [] (suc i)) (λ i l. absurd (omega arith))
takes-share a (p ∷ ps) small =
    let r = p.real_quotas in
    let n = quotas_left ps in
    let f : ℕ → ℕ = λ i. takes a (p ∷ ps) (suc i) in
    let here =
      sum_below_const r (is_one a p.address) f (λ i l. takes_here a (suc i) p ps (omega arith)) in
    let later =
      sum_below-ext n (λ i. f (i + r)) (λ i. takes a ps (suc i))
        (λ i l.
          takes_later a (suc (i + r)) p ps (omega arith) (omega arith)
          ∙ ap (takes a ps) (omega arith)) in
    let e : r + n ≡ n + r = omega arith in
    rw e (omega (arith, sum_below-add r n f, here, later, takes-share a ps (omega arith)))

-- A seed of 32 bits beyond the sum of the quotas that are left takes no point.
pub pick_beyond :
    (seed : ℕ) (ps : List ServicePoint)
    → quotas_left ps < seed
    → seed < 2 ^ 32
    → pick seed ps ≡ none
unfolding pick
pick_beyond seed [] l w = refl
pick_beyond seed (p ∷ ps) l w =
    let e : leb seed p.real_quotas ≡ false = ground arith in
    rw (e, pick_beyond (sub32 seed p.real_quotas) ps (omega arith) (omega arith))

-- A seed from 1 to the quotas that are left takes a point that has quota left.
pub record Served (ps : List ServicePoint) (o : Option (ℕ × List ServicePoint)) : Type 0 where
  pub address : ℕ
  pub after : List ServicePoint
  pub taken : o ≡ some (address, after)
  pub had_quota : 0 < share address ps
  pub one_less : quotas_left after + 1 ≡ quotas_left ps

pub pick-Served :
    (seed : ℕ) (ps : List ServicePoint)
    → 0 < seed
    → seed ≤ quotas_left ps
    → quotas_left ps < 2 ^ 32
    → Served ps (pick seed ps)
unfolding pick
pick-Served seed [] l m w = absurd (omega arith)
pick-Served seed (p ∷ ps) l m w = elim (Bool-cases (leb seed p.real_quotas)) [
  | inl t ↦ rw t (record {
    address = p.address;
    after = take_point p ∷ ps;
    taken = refl;
    had_quota = (let one : is_one p.address p.address ≡ 1 = ground arith in rw one (ground arith));
    one_less = ground arith;
  })
  | inr t ↦
      let r =
        pick-Served (sub32 seed p.real_quotas) ps (ground arith) (ground arith) (omega arith) in
      rw t (record {
        address = r.address;
        after = p ∷ r.after;
        taken = rw r.taken refl;
        had_quota = omega (arith, r.had_quota);
        one_less = omega (arith, r.one_less);
      })
]

-- A Route whose seed is from 1 to the total, which is balanced and where the sum of the quotas has 32
-- bits: it stores an address that had quota left, and takes one from the total, which is then the
-- sum of the quotas that are left.
pub route-Served :
    (roll : ℕ → ℕ) (now : ℕ) (lb : LoadBalance)
    → let lb' = refresh now lb in
      IsBalanced lb'
      → quotas_left lb'.services < 2 ^ 32
      → 0 < roll (u32 (lb'.total_quotas + 1))
      → roll (u32 (lb'.total_quotas + 1)) ≤ lb'.total_quotas
      → (a : ℕ) × ((route roll now lb).0 ≡ some a)
        × (0 < share a lb'.services)
        × ((route roll now lb).1.total_quotas + 1 ≡ lb'.total_quotas)
        × (quotas_left (route roll now lb).1.services ≡ (route roll now lb).1.total_quotas)
unfolding route
route-Served roll now lb v w l m =
    let lb' = refresh now lb in
    let r =
      pick-Served (roll (u32 (lb'.total_quotas + 1))) lb'.services l (omega (arith, v.total)) w in
    rw (r.taken, route)
      (
        r.address,
        refl,
        r.had_quota,
        omega (arith, v.total, r.one_less),
        omega (arith, v.total, r.one_less),
      )
