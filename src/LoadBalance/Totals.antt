-- ===== src/LoadBalance/Totals.antt =====
-- The total of include/LoadBalance.hpp against the points of its map, under every call.
use libsimplesvr.Base.{
  ℕ, ◌+◌, ◌^◌, ◌<◌, ◌≡◌, sym, subst, inl, inr, none, some, List, [], ◌∷◌, ltb, ◌==◌, u32, All,
  All-map_impl, arith, Bool-cases,
}
use libsimplesvr.Base.Sums.{weight}
use libsimplesvr.LoadBalance.{
  ServicePoint, LoadBalance, find_point, insert_point, erase_point, change_point,
}

abbrev pub real_of : ServicePoint → ℕ
real_of p = p.real_quotas

-- The quotas that are left, as a number that does not wrap.
abbrev pub quotas_left : List ServicePoint → ℕ
quotas_left = weight real_of

-- Counters of 32 bits.
pub record IsPoint (p : ServicePoint) : Type 0 where
  pub sends : p.send_count < 2 ^ 32
  pub recvs : p.recv_count < 2 ^ 32
  pub max : p.max_quotas < 2 ^ 32
  pub current : p.current_quotas < 2 ^ 32
  pub real : p.real_quotas < 2 ^ 32

-- The order of the map, which keeps one point for each address.
abbrev pub Descending : List ServicePoint → Type 0
Descending [] = Unit {0}
Descending (p ∷ ps) = All (λ q. q.address < p.address) ps × Descending ps

pub record IsBalanced (lb : LoadBalance) : Type 0 where
  pub total : lb.total_quotas ≡ u32 (quotas_left lb.services)
  pub points : All IsPoint lb.services
  pub ordered : Descending lb.services

module _ (f : ServicePoint → ℕ) where
  pub weight-insert_point :
      (q : ServicePoint) (ps : List ServicePoint)
      → find_point q.address ps ≡ none
      → weight f (insert_point q ps) ≡ weight f ps + f q
  unfolding find_point insert_point
  weight-insert_point q [] e = omega arith
  weight-insert_point q (p ∷ ps) e = ground (arith, weight-insert_point q ps)

  pub weight-erase_point :
      (a : ℕ) (p : ServicePoint) (ps : List ServicePoint)
      → find_point a ps ≡ some p
      → weight f (erase_point a ps) + f p ≡ weight f ps
  unfolding find_point erase_point
  weight-erase_point a p [] e = cc
  weight-erase_point a p (q ∷ ps) e = ground (arith, weight-erase_point a p ps)

  pub weight-change_point :
      (a : ℕ) (g : ServicePoint → ServicePoint) (p : ServicePoint) (ps : List ServicePoint)
      → find_point a ps ≡ some p
      → weight f (change_point a g ps) + f p ≡ weight f ps + f (g p)
  unfolding find_point change_point
  weight-change_point a g p [] e = cc
  weight-change_point a g p (q ∷ ps) e = ground (arith, weight-change_point a g p ps)

module _ (P : ServicePoint → Type 0) where
  pub insert_point-All :
      (q : ServicePoint) (ps : List ServicePoint) → P q → All P ps → All P (insert_point q ps)
  unfolding insert_point
  insert_point-All q [] h hs = (h, hs)
  insert_point-All q (p ∷ ps) h hs = elim (Bool-cases (ltb p.address q.address)) [
    | inl t ↦ rw t (h, hs)
    | inr t ↦ elim (Bool-cases (p.address == q.address)) [
      | inl u ↦ rw (t, u) hs
      | inr u ↦ rw (t, u) (hs.0, insert_point-All q ps h hs.1)
    ]
  ]

  pub erase_point-All : (a : ℕ) (ps : List ServicePoint) → All P ps → All P (erase_point a ps)
  unfolding erase_point
  erase_point-All a [] hs = hs
  erase_point-All a (p ∷ ps) hs = elim (Bool-cases (p.address == a)) [
    | inl t ↦ rw t hs.1
    | inr t ↦ rw t (hs.0, erase_point-All a ps hs.1)
  ]

  pub change_point-All :
      (a : ℕ) (g : ServicePoint → ServicePoint) (ps : List ServicePoint)
      → ((p : ServicePoint) → P p → P (g p))
      → All P ps
      → All P (change_point a g ps)
  unfolding change_point
  change_point-All a g [] k hs = hs
  change_point-All a g (p ∷ ps) k hs = elim (Bool-cases (p.address == a)) [
    | inl t ↦ rw t (k p hs.0, hs.1)
    | inr t ↦ rw t (hs.0, change_point-All a g ps k hs.1)
  ]

pub insert_point-Descending :
    (q : ServicePoint) (ps : List ServicePoint) → Descending ps → Descending (insert_point q ps)
unfolding insert_point
insert_point-Descending q [] d = (tt, tt)
insert_point-Descending q (p ∷ ps) d = elim (Bool-cases (ltb p.address q.address)) [
  | inl t ↦ rw t ((ground arith, All-map_impl _ _ ps (λ r h. ground arith) d.0), d)
  | inr t ↦ elim (Bool-cases (p.address == q.address)) [
    | inl u ↦ rw (t, u) d
    | inr u ↦
        rw (t, u) (insert_point-All _ q ps (ground arith) d.0, insert_point-Descending q ps d.1)
  ]
]

pub erase_point-Descending :
    (a : ℕ) (ps : List ServicePoint) → Descending ps → Descending (erase_point a ps)
unfolding erase_point
erase_point-Descending a [] d = d
erase_point-Descending a (p ∷ ps) d = elim (Bool-cases (p.address == a)) [
  | inl t ↦ rw t d.1
  | inr t ↦ rw t (erase_point-All _ a ps d.0, erase_point-Descending a ps d.1)
]

pub change_point-Descending :
    (a : ℕ) (g : ServicePoint → ServicePoint) (ps : List ServicePoint)
    → ((p : ServicePoint) → (g p).address ≡ p.address)
    → Descending ps
    → Descending (change_point a g ps)
unfolding change_point
change_point-Descending a g [] k d = d
change_point-Descending a g (p ∷ ps) k d = elim (Bool-cases (p.address == a)) [
  | inl t ↦ rw t (subst (λ n. All (λ q. q.address < n) ps) (sym (k p)) d.0, d.1)
  | inr t ↦
      rw t (change_point-All _ a g ps (λ q h. rw (k q) h) d.0, change_point-Descending a g ps k d.1)
]
