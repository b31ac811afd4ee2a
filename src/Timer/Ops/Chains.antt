-- ===== src/Timer/Ops/Chains.antt =====
-- The pointers of a slot's items (include/Timer.hpp) as a list that can be cut.
use libsimplesvr.Base.{
  ℕ, ◌≡◌, ◌≢◌, refl, sym, ap, subst, ◌∙◌, Option, none, some, List, [], ◌∷◌, ◌++◌, All,
}
use libsimplesvr.Timer.Wheel.{TimerItem}
use libsimplesvr.Timer.Ops.Links.{Node, Links}

pub some-injective : {a b : ℕ} → Path (Option ℕ) (some a) (some b) → a ≡ b
some-injective {a} e = ap (λ o. elim o [ none ↦ a | some c ↦ c ]) e

module _ {ℓ} {D : Type ℓ} where
  -- No item of the list has the address.
  abbrev pub Absent : ℕ → List (TimerItem D) → Type 0
  Absent a = All λ x. x.address ≢ a

  abbrev pub Distinct : List (TimerItem D) → Type 0
  Distinct [] = Unit
  Distinct (x ∷ xs) = Absent x.address xs × Distinct xs

  -- The pointers `cur`, and on from there, are the list, in the slot `i`, behind the item `prev`; `last`
  -- is the last item and `end` its NextItem.
  abbrev pub Segment :
      Links → ℕ → Option ℕ → Option ℕ → List (TimerItem D) → Option ℕ → Option ℕ → Type 0
  Segment h i prev cur [] last end = (last ≡ prev) × (end ≡ cur)
  Segment h i prev cur (x ∷ xs) last end =
      (cur ≡ some x.address)
      × (next : Option ℕ) × (h.node x.address
          ≡ some (record { prev_item = prev; next_item = next; base = some i }))
      × Segment h i (some x.address) next xs last end

  -- The slot `i` has the items of the list, in its order, and no other.
  abbrev pub Holds : Links → ℕ → List (TimerItem D) → Type 0
  Holds h i xs = ((last : Option ℕ) × Segment h i none (h.slot i) xs last none) × Distinct xs

  -- What other items point to does not matter.
  pub frame :
      (h h' : Links) (i : ℕ) (prev cur : Option ℕ) (xs : List (TimerItem D)) (last end : Option ℕ)
      → All (λ x. h'.node x.address ≡ h.node x.address) xs
      → Segment h i prev cur xs last end
      → Segment h' i prev cur xs last end
  frame h h' i prev cur [] last end same s = s
  frame h h' i prev cur (x ∷ xs) last end same (e, next, n, s) =
      (e, next, same.0 ∙ n, frame h h' i (some x.address) next xs last end same.1 s)

  -- A segment is cut at an item.
  abbrev pub Cut :
      Links
      → ℕ
      → Option ℕ
      → Option ℕ
      → List (TimerItem D)
      → TimerItem D
      → List (TimerItem D)
      → Type 0
  Cut h i prev cur before item after =
      (last : Option ℕ) × (next : Option ℕ) × (end : Option ℕ) × Segment h i prev cur before last
        (some item.address)
      × (h.node item.address ≡ some (record { prev_item = last; next_item = next; base = some i }))
      × Segment h i (some item.address) next after end none

  pub cut :
      (h : Links) (i : ℕ) (prev cur : Option ℕ) (before : List (TimerItem D)) (item : TimerItem D)
      (after : List (TimerItem D)) (end : Option ℕ)
      → Segment h i prev cur (before ++ (item ∷ after)) end none
      → Cut h i prev cur before item after
  cut h i prev cur [] item after end (e, next, n, s) = (prev, next, end, (refl, sym e), n, s)
  cut h i prev cur (x ∷ before) item after end (e, next, n, s) =
      let c = cut h i (some x.address) next before item after end s in
      (c.0, c.1, c.2, (e, next, n, c.3), c.4, c.5)

  -- Two segments, one behind the other.
  pub join :
      (h : Links) (i : ℕ) (prev cur : Option ℕ) (before after : List (TimerItem D))
      (last next end : Option ℕ)
      → Segment h i prev cur before last next
      → Segment h i last next after end none
      → Segment h i prev cur (before ++ after) end none
  join h i prev cur [] after last next end (e, e') s =
      subst (λ p. Segment h i p cur after end none) e
        (subst (λ c. Segment h i last c after end none) e' s)
  join h i prev cur (x ∷ before) after last next end (e, n, m, s) s' =
      (e, n, m, join h i (some x.address) n before after last next end s s')

  -- The last item of a segment is one of its items.
  pub last_other :
      (h : Links) (i a : ℕ) (prev cur : Option ℕ) (x : TimerItem D) (xs : List (TimerItem D))
      (last end : Option ℕ)
      → Segment h i prev cur (x ∷ xs) last end
      → Absent a (x ∷ xs)
      → last ≢ some a
  last_other h i a prev cur x [] last end (e, next, n, s) ne q = ne.0 (some-injective (sym s.0 ∙ q))
  last_other h i a prev cur x (y ∷ ys) last end (e, next, n, s) ne q =
      last_other h i a (some x.address) next y ys last end s ne.1 q

  pub last_node :
      (h : Links) (i : ℕ) (prev cur : Option ℕ) (x : TimerItem D) (xs : List (TimerItem D))
      (last end : Option ℕ)
      → Segment h i prev cur (x ∷ xs) last end
      → (a : ℕ) × (n : Node) × (last ≡ some a) × (h.node a ≡ some n) × (n.base ≡ some i)
  last_node h i prev cur x [] last end (e, next, n, s) = (x.address, _, s.0, n, refl)
  last_node h i prev cur x (y ∷ ys) last end (e, next, n, s) =
      last_node h i (some x.address) next y ys last end s

  -- Another NextItem of the last item.
  pub relast :
      (h h' : Links) (i : ℕ) (prev cur : Option ℕ) (x : TimerItem D) (xs : List (TimerItem D))
      (last end end' : Option ℕ)
      → Distinct (x ∷ xs)
      → ((a : ℕ) → last ≢ some a → h'.node a ≡ h.node a)
      → ((a : ℕ) (n : Node)
          → last ≡ some a
          → h.node a ≡ some n
          → h'.node a ≡ some (record n { next_item = end' }))
      → Segment h i prev cur (x ∷ xs) last end
      → Segment h' i prev cur (x ∷ xs) last end'
  relast h h' i prev cur x [] last end end' d same new (e, next, n, s) =
      (e, end', new x.address _ s.0 n, (s.0, refl))
  relast h h' i prev cur x (y ∷ ys) last end end' d same new (e, next, n, s) = (
    e,
    next,
    same x.address (last_other h i x.address (some x.address) next y ys last end s d.0) ∙ n,
    relast h h' i (some x.address) next y ys last end end' d.1 same new s,
  )

  pub Absent-split :
      (a : ℕ) (xs ys : List (TimerItem D)) → Absent a (xs ++ ys) → Absent a xs × Absent a ys
  Absent-split a [] ys h = (tt, h)
  Absent-split a (x ∷ xs) ys h = let r = Absent-split a xs ys h.1 in ((h.0, r.0), r.1)

  pub Absent-join :
      (a : ℕ) (xs ys : List (TimerItem D)) → Absent a xs → Absent a ys → Absent a (xs ++ ys)
  Absent-join a [] ys h k = k
  Absent-join a (x ∷ xs) ys h k = (h.0, Absent-join a xs ys h.1 k)

  -- No item of the second list is in the first.
  abbrev pub Apart : List (TimerItem D) → List (TimerItem D) → Type 0
  Apart before = All λ y. Absent y.address before

  Apart-nil : (ys : List (TimerItem D)) → Apart [] ys
  Apart-nil [] = tt
  Apart-nil (y ∷ ys) = (tt, Apart-nil ys)

  Apart-cons :
      (x : TimerItem D) (before ys : List (TimerItem D))
      → Absent x.address ys
      → Apart before ys
      → Apart (x ∷ before) ys
  Apart-cons x before [] h k = tt
  Apart-cons x before (y ∷ ys) h k = (((λ e. h.0 (sym e)), k.0), Apart-cons x before ys h.1 k.1)

  pub distinct_split :
      (before : List (TimerItem D)) (item : TimerItem D) (after : List (TimerItem D))
      → Distinct (before ++ (item ∷ after))
      → Distinct before
        × Absent item.address before
        × Absent item.address after
        × Distinct after
        × Apart before after
        × Distinct (before ++ after)
  distinct_split [] item after d = (tt, tt, d.0, d.1, Apart-nil after, d.1)
  distinct_split (x ∷ before) item after d =
      let r = distinct_split before item after d.1 in
      let a = Absent-split x.address before (item ∷ after) d.0 in
      (
        (a.0, r.0),
        ((λ e. a.1.0 (sym e)), r.1),
        r.2,
        r.3,
        Apart-cons x before after a.1.1 r.4,
        (Absent-join x.address before after a.0 a.1.1, r.5),
      )
