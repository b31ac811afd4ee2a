-- ===== src/ConnectionPool/Keep.antt =====
-- What holds of the connections of include/ConnectionPool.hpp between its calls.
use native.Mathlib.Decide.{ℕ_discrete}
use libsimplesvr.Base.{
  ℕ, ◌+◌, ◌^◌, ◌≤◌, ◌<◌, ◌≡◌, ◌≢◌, inl, inr, refl, sym, ap, subst, ◌∙◌, Bool, true, false, Option,
  none, some, List, [], ◌∷◌, All, ltb, ◌==◌, arith, Bool-cases,
}
use libsimplesvr.Base.Sums.{put, sum_below, sum_below-put}
use libsimplesvr.ConnectionPool.{ConnectionInfo, ConnectionPool, Result, returns, faults}

abbrev pub Infos : Type 0
Infos = ℕ → Option ConnectionInfo

-- A connection that is not deleted counts 1.
abbrev pub live : Option ConnectionInfo → ℕ
live none = 0
live (some info) = 1

-- A connection of the address that is not deleted and not in use.
abbrev pub IsIdle : Infos → ℕ → ℕ → Type 0
IsIdle infos address id =
    (info : ConnectionInfo) × (infos id ≡ some info)
    × (info.address ≡ address)
    × (info.active ≡ false)

abbrev pub Others : ℕ → List ℕ → Type 0
Others id = All λ j. j ≢ id

abbrev pub Distinct : List ℕ → Type 0
Distinct [] = Unit
Distinct (id ∷ ids) = Others id ids × Distinct ids

-- The count is that of the connections that are not deleted; what was not given by `new` is none; and
-- the list of an address holds connections of that address that are not in use, each once.
pub record IsPool (p : ConnectionPool) : Type 0 where
  pub counted : sum_below p.next_info (λ i. live (p.infos i)) ≡ p.connection_count
  pub word : p.connection_count < 2 ^ 32
  pub limit : p.max_connection < 2 ^ 32
  pub unused : (i : ℕ) → p.next_info ≤ i → p.infos i ≡ none
  pub idle :
      (address : ℕ) (ids : List ℕ)
      → p.connection_map address ≡ some ids
      → All (IsIdle p.infos address) ids × Distinct ids

abbrev pub Keeps : {A : Type 0} → Result A → Type 0
Keeps (returns a p) = IsPool p
Keeps faults = ⊥

pub put_same {ℓ} : {A : Type ℓ} (v : ℕ → A) (i : ℕ) (x : A) → put v i x i ≡ x
put_same v i x = let t : (i == i) ≡ true = ground arith in rw t refl

pub put_other {ℓ} : {A : Type ℓ} (v : ℕ → A) (i j : ℕ) (x : A) → j ≢ i → put v i x j ≡ v j
put_other v i j x ne = let t : (i == j) ≡ false = ground arith in rw t refl

-- A change at a number that is in no list leaves what is idle.
pub idle-put :
    (infos : Infos) (address id : ℕ) (x : Option ConnectionInfo) (ids : List ℕ)
    → All (IsIdle infos address) ids
    → Others id ids
    → All (IsIdle (put infos id x) address) ids
idle-put infos address id x [] h o = tt
idle-put infos address id x (j ∷ ids) h o = (
  (h.0.0, put_other infos id j x o.0 ∙ h.0.1, h.0.2, h.0.3),
  idle-put infos address id x ids h.1 o.1,
)

-- A connection of another address, or one that is in use, is in no list of the address.
pub idle-Others :
    (infos : Infos) (address id : ℕ) (ids : List ℕ)
    → ((info : ConnectionInfo)
        → infos id ≡ some info
        → info.address ≡ address
        → info.active ≡ false
        → ⊥)
    → All (IsIdle infos address) ids
    → Others id ids
idle-Others infos address id [] absent h = tt
idle-Others infos address id (j ∷ ids) absent h = (
  (λ e. absent h.0.0 (subst (λ k. infos k ≡ some h.0.0) e h.0.1) h.0.2 h.0.3),
  idle-Others infos address id ids absent h.1,
)

-- The number of connections after a change at one number.
pub live-put :
    (n id : ℕ) (infos : Infos) (x : Option ConnectionInfo)
    → id < n
    → sum_below n (λ i. live (put infos id x i)) + live (infos id)
      ≡ sum_below n (λ i. live (infos i)) + live x
live-put n id infos x l =
    subst
      (λ v.
        sum_below n (λ i. live (put infos id x i)) + live (infos id)
        ≡ sum_below n (λ i. live (infos i)) + live v)
      (put_same infos id x)
      (sum_below-put n id (λ i. live (infos i)) (λ i. live (put infos id x i)) l
        (λ j ne. ap live (put_other infos id j x ne)))

pub known :
    (p : ConnectionPool)
    → IsPool p
    → (id : ℕ) (info : ConnectionInfo) → p.infos id ≡ some info
    → id < p.next_info
known p k id info e = elim (Bool-cases (ltb id p.next_info)) [
  | inl t ↦ ground (arith, t)
  | inr t ↦ absurd (let none_ = k.unused id (ground (arith, t)) in ground (arith, none_, e))
]

address_of : Option ConnectionInfo → ℕ
address_of none = 0
address_of (some info) = info.address

active_of : Option ConnectionInfo → Bool
active_of none = false
active_of (some info) = info.active

pub same_active :
    (infos : Infos) (id : ℕ) (a b : ConnectionInfo)
    → infos id ≡ some a
    → infos id ≡ some b
    → a.active ≡ b.active
unfolding active_of
same_active infos id a b e e' = ap active_of (sym e ∙ e')

pub same_address :
    (infos : Infos) (id : ℕ) (a b : ConnectionInfo)
    → infos id ≡ some a
    → infos id ≡ some b
    → a.address ≡ b.address
unfolding address_of
same_address infos id a b e e' = ap address_of (sym e ∙ e')

-- The lists of a pool after a change at a number that is in none of them.
abbrev pub Lists : Infos → (ℕ → Option (List ℕ)) → Type 0
Lists infos map =
    (address : ℕ) (ids : List ℕ)
    → map address ≡ some ids
    → All (IsIdle infos address) ids × Distinct ids

pub absent_Lists :
    (p : ConnectionPool) (k : IsPool p) (id : ℕ) (x : Option ConnectionInfo)
    → ((info : ConnectionInfo) → p.infos id ≡ some info → info.active ≡ true)
    → Lists (put p.infos id x) p.connection_map
unfolding active_of
absent_Lists p k id x used address ids m =
    let h = k.idle address ids m in
    (
      idle-put p.infos address id x ids h.0 (
          idle-Others p.infos address id ids
            (λ info e a f. let t = used info e in ground (arith, t, f)) h.0),
      h.1,
    )

-- A change at a connection, and at the list of its address.
module _ (p : ConnectionPool) (k : IsPool p) (id : ℕ) (info : ConnectionInfo)
    (e : p.infos id ≡ some info) where
  pub changed_Lists :
      (x : Option ConnectionInfo) (ids' : List ℕ)
      → All (IsIdle (put p.infos id x) info.address) ids'
      → Distinct ids'
      → Lists (put p.infos id x) (put p.connection_map info.address (some ids'))
  unfolding address_of
  changed_Lists x ids' h d address ids m = elim (ℕ_discrete address info.address) [
    | yes q ↦
        let m' : some ids' ≡ some ids =
          sym (put_same p.connection_map info.address (some ids'))
          ∙ ap (put p.connection_map info.address (some ids')) (sym q)
          ∙ m in
        let ids_e : ids' ≡ ids = ap (λ o. elim o [ none ↦ [] | some l ↦ l ]) m' in
        subst (λ a. All (IsIdle (put p.infos id x) a) ids × Distinct ids) (sym q)
          (subst (λ l. All (IsIdle (put p.infos id x) info.address) l × Distinct l) ids_e (h, d))
    | no ne ↦
        let old =
          k.idle address ids
            (sym (put_other p.connection_map info.address address (some ids') ne) ∙ m) in
        (
          idle-put p.infos address id x ids old.0 (
              idle-Others p.infos address id ids
                (λ info' e' a f. ne (sym a ∙ ap address_of (sym e' ∙ e))) old.0),
          old.1,
        )
  ]

  -- The number of connections where one stays, or goes.
  pub count_stays :
      (info' : ConnectionInfo)
      → sum_below p.next_info (λ i. live (put p.infos id (some info') i)) ≡ p.connection_count
  count_stays info' =
      let l = known p k id info e in
      let one : live (p.infos id) ≡ 1 = rw e refl in
      omega (arith, live-put p.next_info id p.infos (some info') l, one, k.counted)

  pub count_goes :
      (sum_below p.next_info (λ i. live (put p.infos id none i)) + 1 ≡ p.connection_count)
  count_goes =
      let l = known p k id info e in
      let one : live (p.infos id) ≡ 1 = rw e refl in
      omega (arith, live-put p.next_info id p.infos none l, one, k.counted)

  pub unused_put : (x : Option ConnectionInfo) (i : ℕ) → p.next_info ≤ i → put p.infos id x i ≡ none
  unused_put x i h =
      let l = known p k id info e in
      put_other p.infos id i x (λ q. absurd (omega (arith, q, l, h))) ∙ k.unused i h
