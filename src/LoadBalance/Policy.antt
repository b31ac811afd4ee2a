-- ===== src/LoadBalance/Policy.antt =====
-- RoutePolicy::Reset of include/LoadBalance.hpp.
use libsimplesvr.Base.{
  ℕ, zero, suc, ◌+◌, ◌-◌, ◌*◌, ◌/◌, ◌^◌, ◌<◌, ◌≤◌, ◌≡◌, ◌⊎◌, refl, ap, inl, inr, true, false, ltb,
  ◌==◌, u32, sub32, arith, Bool-cases, min,
}
use libsimplesvr.LoadBalance.{ServicePoint, grown, adapted, reset}

-- A quota of 31 bits, which no sum of Reset takes out of a uint32_t.
pub record IsSmall (p : ServicePoint) : Type 0 where
  pub small : p.max_quotas < 2 ^ 31
  pub limited : p.current_quotas ≤ p.max_quotas

-- A period in which nothing was lost, and one in which all that was sent was lost.
abbrev pub served : ℕ → ServicePoint → ServicePoint
served n p = record p { send_count = n; recv_count = n }

module _ (p : ServicePoint) where
  grown5 : IsSmall p → grown 5 p ≡ min p.max_quotas (p.current_quotas + p.max_quotas / 5)
  grown5 small =
      let e : u32 (p.current_quotas + p.max_quotas / 5) ≡ p.current_quotas + p.max_quotas / 5 =
        omega (arith, small.small, small.limited) in
      ground arith

  grown20 : IsSmall p → grown 20 p ≡ min p.max_quotas (p.current_quotas + p.max_quotas / 20)
  grown20 small =
      let e : u32 (p.current_quotas + p.max_quotas / 20) ≡ p.current_quotas + p.max_quotas / 20 =
        omega (arith, small.small, small.limited) in
      ground arith

  abbrev lost : ℕ
  lost = sub32 p.send_count p.recv_count

  reset_lossy : 0 < p.send_count → 3 * p.send_count < 100 * lost → (reset p).current_quotas ≡ 1
  unfolding reset adapted
  reset_lossy some_sent h = ground arith

  reset_lossless :
      0 < p.send_count
      → IsSmall p
      → 10000 * lost < 5 * p.send_count
      → (reset p).current_quotas ≡ min p.max_quotas (p.current_quotas + p.max_quotas / 5)
  unfolding reset adapted
  reset_lossless some_sent small h =
      let z : (p.send_count == 0) ≡ false = ground arith in
      let a : ltb (3 * p.send_count) (100 * lost) ≡ false = ground arith in
      let b : ltb (10000 * lost) (5 * p.send_count) ≡ true = ground arith in
      rw (z, a, b) (grown5 small)

  reset_between :
      0 < p.send_count
      → IsSmall p
      → 100 * lost ≤ 3 * p.send_count
      → 5 * p.send_count ≤ 10000 * lost
      → (reset p).current_quotas ≡ min p.max_quotas (p.current_quotas + p.max_quotas / 20)
  unfolding reset adapted
  reset_between some_sent small h g =
      let z : (p.send_count == 0) ≡ false = ground arith in
      let a : ltb (3 * p.send_count) (100 * lost) ≡ false = ground arith in
      let b : ltb (10000 * lost) (5 * p.send_count) ≡ false = ground arith in
      rw (z, a, b) (grown20 small)

  reset_counts : (reset p).send_count + (reset p).recv_count ≡ 0
  unfolding reset
  reset_counts = refl

  -- A period in which something was sent and no more was received: with more than 3 percent lost
  -- the quota becomes 1, with less than 0.05 percent it grows by a fifth of the maximum, and in
  -- between by a twentieth, but not beyond the maximum; the counts are 0 after. The maximum has 31
  -- bits and the quota is not beyond it before.
  pub reset_branches :
      0 < p.send_count
      → p.send_count < 2 ^ 32
      → p.recv_count ≤ p.send_count
      → IsSmall p
      → let missing = p.send_count - p.recv_count in
        let q = (reset p).current_quotas in
        (((3 * p.send_count < 100 * missing) × (q ≡ 1))
          ⊎ ((10000 * missing < 5 * p.send_count)
              × (q ≡ min p.max_quotas (p.current_quotas + p.max_quotas / 5)))
          ⊎ ((100 * missing ≤ 3 * p.send_count)
              × (5 * p.send_count ≤ 10000 * missing)
              × (q ≡ min p.max_quotas (p.current_quotas + p.max_quotas / 20))))
        × ((reset p).send_count + (reset p).recv_count ≡ 0)
  reset_branches some_sent word le small =
      let e : lost ≡ p.send_count - p.recv_count = omega arith in
      (
        elim (Bool-cases (ltb (3 * p.send_count) (100 * lost))) [
          | inl t ↦ inl (ground arith, reset_lossy some_sent (ground arith))
          | inr t ↦ elim (Bool-cases (ltb (10000 * lost) (5 * p.send_count))) [
            | inl u ↦ inr (inl (ground arith, reset_lossless some_sent small (ground arith)))
            | inr u ↦ inr (
                inr (
                  ground arith,
                  ground arith,
                  reset_between some_sent small (ground arith) (ground arith),
                ))
          ]
        ],
        reset_counts,
      )

-- The periods without loss after a quota has fallen.
unfoldable pub recovered : ℕ → ℕ → ServicePoint → ServicePoint
recovered n zero p = p
recovered n (suc k) p = reset (served n (recovered n k p))

recovered-max : (n k : ℕ) (p : ServicePoint) → (recovered n k p).max_quotas ≡ p.max_quotas
unfolding recovered reset
recovered-max n zero p = refl
recovered-max n (suc k) p = recovered-max n k p

-- After `k` periods in which something was sent and nothing lost, the quota has grown by `k` times a
-- fifth of the maximum, rounded down, or is the maximum; the maximum has 31 bits and the quota was not
-- beyond it.
pub recovered-quotas :
    (n k : ℕ) (p : ServicePoint)
    → 0 < n
    → n < 2 ^ 32
    → IsSmall p
    → (recovered n k p).current_quotas
      ≡ min p.max_quotas (p.current_quotas + k * (p.max_quotas / 5))
unfolding recovered
recovered-quotas n zero p some_sent word small = omega (arith, small.limited)
recovered-quotas n (suc k) p some_sent word small =
    let q = recovered n k p in
    let m = recovered-max n k p in
    let ih = recovered-quotas n k p some_sent word small in
    let e : suc k * (p.max_quotas / 5) ≡ p.max_quotas / 5 + k * (p.max_quotas / 5) = ground arith in
    let small' : IsSmall (served n q) = record {
      small = omega (arith, m, small.small);
      limited = omega (arith, m, ih);
    } in
    let r = reset_lossless (served n q) some_sent small' (omega arith) in
    let f : q.max_quotas / 5 ≡ p.max_quotas / 5 = ap (λ x. x / 5) m in omega (arith, r, ih, m, e, f)

-- A quota that is not beyond its maximum, which is below 5, stays as it is, however many periods
-- there are in which something was sent and nothing lost.
pub recovered_stuck :
    (n k : ℕ) (p : ServicePoint)
    → 0 < n
    → n < 2 ^ 32
    → p.max_quotas < 5
    → p.current_quotas ≤ p.max_quotas
    → (recovered n k p).current_quotas ≡ p.current_quotas
recovered_stuck n k p some_sent word low le =
    let z : p.max_quotas / 5 ≡ 0 = omega arith in
    let e : k * (p.max_quotas / 5) ≡ 0 = rw z (ground arith) in
    omega (
      arith,
      e,
      recovered-quotas n k p some_sent word (record { small = omega arith; limited = le }),
    )
