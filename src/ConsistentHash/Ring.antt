-- ===== src/ConsistentHash/Ring.antt =====
-- The ordered map of include/ConsistentHash.hpp: what find, insert, erase and lower_bound give, and
-- that the order makes the entries unique.
use libsimplesvr.Base.{
  ℕ, ◌<◌, ◌≤◌, ◌≡◌, ◌⊎◌, refl, sym, ap, ap₂, subst, ◌∙◌, inl, inr, true, false, Option, none, some,
  [], ◌∷◌, ltb, leb, ◌==◌, if◌then◌else◌, All, All-map_impl, arith, Bool-cases, Option-cases,
}
use libsimplesvr.ConsistentHash.{Entries, find, insert, erase, lower_bound}

abbrev pub Above : ℕ → Entries → Type 0
Above k = All λ e. k < e.0

abbrev pub Ascending : Entries → Type 0
Ascending [] = Unit {0}
Ascending ((k, p) ∷ r) = Above k r × Ascending r

insert-Above : (i k p : ℕ) (r : Entries) → i < k → Above i r → Above i (insert k p r)
unfolding insert
insert-Above i k p [] l h = (l, tt)
insert-Above i k p ((j, q) ∷ r) l h = elim (Bool-cases (ltb k j)) [
  | inl t ↦ rw t (l, h)
  | inr t ↦ elim (Bool-cases (k == j)) [
    | inl u ↦ rw (t, u) h
    | inr u ↦ rw (t, u) (h.0, insert-Above i k p r l h.1)
  ]
]

pub insert-Ascending : (k p : ℕ) (r : Entries) → Ascending r → Ascending (insert k p r)
unfolding insert
insert-Ascending k p [] d = (tt, tt)
insert-Ascending k p ((j, q) ∷ r) d = elim (Bool-cases (ltb k j)) [
  | inl t ↦ rw t ((ground arith, All-map_impl _ _ r (λ e l. ground arith) d.0), d)
  | inr t ↦ elim (Bool-cases (k == j)) [
    | inl u ↦ rw (t, u) d
    | inr u ↦ rw (t, u) (insert-Above j k p r (ground arith) d.0, insert-Ascending k p r d.1)
  ]
]

erase-Above : (i k : ℕ) (r : Entries) → Above i r → Above i (erase k r)
unfolding erase
erase-Above i k [] h = tt
erase-Above i k ((j, q) ∷ r) h = elim (Bool-cases (j == k)) [
  | inl t ↦ rw t h.1
  | inr t ↦ rw t (h.0, erase-Above i k r h.1)
]

pub erase-Ascending : (k : ℕ) (r : Entries) → Ascending r → Ascending (erase k r)
unfolding erase
erase-Ascending k [] d = tt
erase-Ascending k ((j, q) ∷ r) d = elim (Bool-cases (j == k)) [
  | inl t ↦ rw t d.1
  | inr t ↦ rw t (erase-Above j k r d.0, erase-Ascending k r d.1)
]

pub find-Above : (i j : ℕ) (r : Entries) → j ≤ i → Above i r → find j r ≡ none
unfolding find
find-Above i j [] l h = refl
find-Above i j ((k, p) ∷ r) l h =
    let e : (k == j) ≡ false = ground (arith, h.0) in rw e (find-Above i j r l h.1)

-- An entry that is there wins over the new one.
abbrev pub or_else : Option ℕ → Option ℕ → Option ℕ
or_else none o = o
or_else (some p) o = some p

pub or_else-none : (o : Option ℕ) → or_else o none ≡ o
or_else-none none = refl
or_else-none (some p) = refl

pub find-insert :
    (j k p : ℕ) (r : Entries)
    → Ascending r
    → find j (insert k p r) ≡ or_else (find j r) (if k == j then some p else none)
unfolding find insert
find-insert j k p [] d = refl
find-insert j k p ((i, q) ∷ r) d = elim (Bool-cases (ltb k i)) [
  | inl t ↦ elim (Bool-cases (k == j)) [
    | inl u ↦
        let e : (i == j) ≡ false = ground arith in
        rw (t, u, e, find-Above i j r (ground arith) d.0) refl
    | inr u ↦
        rw (t, u)
          (elim (Option-cases (if i == j then some q else find j r)) [
            | inl v ↦ rw v refl
            | inr (x, v) ↦ rw v refl
          ])
  ]
  | inr t ↦ elim (Bool-cases (k == i)) [
    | inl u ↦ elim (Bool-cases (i == j)) [
      | inl v ↦ rw (t, u, v) refl
      | inr v ↦
          let e : (k == j) ≡ false = ground arith in rw (t, u, v, e) (sym (or_else-none (find j r)))
    ]
    | inr u ↦ elim (Bool-cases (i == j)) [
      | inl v ↦ rw (t, u, v) refl
      | inr v ↦ rw (t, u, v) (find-insert j k p r d.1)
    ]
  ]
]

pub find-erase :
    (j k : ℕ) (r : Entries) → Ascending r → find j (erase k r) ≡ (if k == j then none else find j r)
unfolding find erase
find-erase j k [] d = ground arith
find-erase j k ((i, q) ∷ r) d = elim (Bool-cases (i == k)) [
  | inl t ↦ elim (Bool-cases (k == j)) [
    | inl u ↦ rw (t, u) (find-Above i j r (ground arith) d.0)
    | inr u ↦ let e : (i == j) ≡ false = ground arith in rw (t, u, e) refl
  ]
  | inr t ↦ elim (Bool-cases (i == j)) [
    | inl u ↦ let e : (k == j) ≡ false = ground arith in rw (t, u, e) refl
    | inr u ↦ rw (t, u) (find-erase j k r d.1)
  ]
]

-- In the order of the keys, the entries are what find gives.
find_head : (k p : ℕ) (r : Entries) → find k ((k, p) ∷ r) ≡ some p
unfolding find
find_head k p r = let e : (k == k) ≡ true = ground arith in rw e refl

not_some : {A : Type 0} (o : Option ℕ) (p : ℕ) → o ≡ none → o ≡ some p → A
not_some o p e f = absurd (no (sym e ∙ f))
  where
    no : {p : ℕ} → none ≡ some p → ⊥
    no e = cc

tail_find :
    (k p j : ℕ) (r s : Entries)
    → Above k r
    → Above k s
    → ((j : ℕ) → find j ((k, p) ∷ r) ≡ find j ((k, p) ∷ s))
    → find j r ≡ find j s
unfolding find
tail_find k p j r s hr hs same = elim (Bool-cases (k == j)) [
  | inl t ↦ find-Above k j r (ground arith) hr ∙ sym (find-Above k j s (ground arith) hs)
  | inr t ↦
      subst (λ b. (if b then some p else find j r) ≡ (if b then some p else find j s)) t (same j)
]

pub find_ext : (r s : Entries) → Ascending r → Ascending s → ((j : ℕ) → find j r ≡ find j s) → r ≡ s
find_ext [] [] dr ds same = refl
find_ext [] ((k, p) ∷ s) dr ds same =
    not_some (find k []) p (find-Above k k [] (omega arith) tt) (same k ∙ find_head k p s)
find_ext ((k, p) ∷ r) [] dr ds same =
    not_some (find k []) p (find-Above k k [] (omega arith) tt) (sym (same k) ∙ find_head k p r)
find_ext ((k, p) ∷ r) ((j, q) ∷ s) dr ds same = elim (three k j) [
  | inl l ↦
      not_some (find k ((j, q) ∷ s)) p
        (find-Above k k ((j, q) ∷ s) (omega arith)
          (l, All-map_impl _ _ s (λ e h. omega arith) ds.0))
        (sym (same k) ∙ find_head k p r)
  | inr (inl l) ↦
      not_some (find j ((k, p) ∷ r)) q
        (find-Above j j ((k, p) ∷ r) (omega arith)
          (l, All-map_impl _ _ r (λ e h. omega arith) dr.0))
        (same j ∙ find_head j q s)
  | inr (inr e) ↦
      subst
        (λ i.
          Ascending ((i, q) ∷ s)
          → ((m : ℕ) → find m ((k, p) ∷ r) ≡ find m ((i, q) ∷ s))
          → ((k, p) ∷ r) ≡ ((i, q) ∷ s))
        e
        (λ ds same.
          let pq : p ≡ q = value_ext (sym (find_head k p r) ∙ same k ∙ find_head k q s) in
          ap₂ (λ x t. (k, x) ∷ t) pq
            (find_ext r s dr.1 ds.1 (λ m.
              tail_find k p m r s dr.0 ds.0
                (λ n. same n ∙ ap (λ x. find n ((k, x) ∷ s)) (sym pq)))))
        ds same
]
  where
    value_ext : {p q : ℕ} → some p ≡ some q → p ≡ q
    value_ext e = ap (λ o. elim o [ none ↦ 0 | some x ↦ x ]) e

    three : (k j : ℕ) → (k < j) ⊎ (j < k) ⊎ (k ≡ j)
    three k j = ground arith

-- The first entry at the key or after it.
pub record IsFirst (k : ℕ) (r : Entries) (e : ℕ × ℕ) : Type 0 where
  pub there : find e.0 r ≡ some e.1
  pub after : k ≤ e.0
  pub least : (j p : ℕ) → find j r ≡ some p → k ≤ j → e.0 ≤ j

abbrev pub IsBound : ℕ → Entries → Option (ℕ × ℕ) → Type 0
IsBound k r (some e) = IsFirst k r e
IsBound k r none = (j p : ℕ) → find j r ≡ some p → j < k

find_from : (i q j p : ℕ) (r : Entries) → Above i r → find j ((i, q) ∷ r) ≡ some p → i ≤ j
find_from i q j p r h e = elim (Bool-cases (leb i j)) [
  | inl t ↦ ground arith
  | inr t ↦
      not_some (find j ((i, q) ∷ r)) p
        (find-Above j j ((i, q) ∷ r) (omega arith)
          (ground arith, All-map_impl _ _ r (λ x l. ground arith) h))
        e
]

later :
    (k i q : ℕ) (r : Entries) (o : Option (ℕ × ℕ))
    → i < k
    → Above i r
    → IsBound k r o
    → IsBound k ((i, q) ∷ r) o
unfolding find
later k i q r none l h b = λ j p e. elim (Bool-cases (i == j)) [
  | inl t ↦ ground arith
  | inr t ↦ b j p (subst (λ c. (if c then some q else find j r) ≡ some p) t e)
]
later k i q r (some e) l h b = record {
  there = (let f : (i == e.0) ≡ false = ground (arith, b.after) in rw f b.there);
  after = b.after;
  least = λ j p f m.
      let g : (i == j) ≡ false = ground arith in
      b.least j p (subst (λ c. (if c then some q else find j r) ≡ some p) g f) m;
}

pub lower_bound-IsBound : (k : ℕ) (r : Entries) → Ascending r → IsBound k r (lower_bound k r)
unfolding lower_bound find
lower_bound-IsBound k [] d = λ j p e. cc
lower_bound-IsBound k ((i, q) ∷ r) d = elim (Bool-cases (leb k i)) [
  | inl t ↦ rw t (record {
    there = find_head i q r;
    after = ground arith;
    least = λ j p e l. find_from i q j p r d.0 e;
  })
  | inr t ↦ rw t (later k i q r (lower_bound k r) (ground arith) d.0 (lower_bound-IsBound k r d.1))
]
