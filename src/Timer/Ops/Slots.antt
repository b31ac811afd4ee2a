-- ===== src/Timer/Ops/Slots.antt =====
-- Clear of include/Timer.hpp on the pointers of all slots, against the lists of Timer/Wheel.
use native.Mathlib.Decide.{ℕ_discrete}
use libsimplesvr.Base.{
  ℕ, ◌≡◌, ◌≢◌, refl, sym, ap, subst, ◌∙◌, Bool, true, false, Option, none, some, List, [], ◌∷◌,
  ◌++◌, ◌==◌, arith,
}
use libsimplesvr.Base.Sums.{put}
use libsimplesvr.Timer.Wheel.{TimerItem}
use libsimplesvr.Timer.Ops.{remove}
use libsimplesvr.Timer.Ops.Links.{Node, Links, unlink_item, clear_item}
use libsimplesvr.Timer.Ops.Chains.{
  some-injective, Absent, Segment, Holds, frame, cut, Absent-join, distinct_split,
}
use libsimplesvr.Timer.Ops.Unlink.{
  Elsewhere, put_same, put_other, Elsewhere-put, Elsewhere-then, same_all, relink_next_lem,
  relink_prev_lem,
}

pub none-not_some : {n : Node} → Path (Option Node) none (some n) → ⊥
none-not_some e = ground (arith, ap (λ o. elim o as (λ _. Bool) [ none ↦ true | some z ↦ false ]) e)

module _ {ℓ} {D : Type ℓ} where
  pub Elsewhere-Segment :
      (i j : ℕ) (h h' : Links) (prev cur : Option ℕ) (xs : List (TimerItem D)) (last end : Option ℕ)
      → j ≢ i
      → Elsewhere i h h'
      → Segment h j prev cur xs last end
      → Segment h' j prev cur xs last end
  Elsewhere-Segment i j h h' prev cur [] last end ne e s = s
  Elsewhere-Segment i j h h' prev cur (x ∷ xs) last end ne e (c, next, n, s) = (
    c,
    next,
    e.nodes x.address _ n (λ q. ne (some-injective q)) ∙ n,
    Elsewhere-Segment i j h h' (some x.address) next xs last end ne e s,
  )

  pub Elsewhere-Holds :
      (i j : ℕ) (h h' : Links) (xs : List (TimerItem D))
      → j ≢ i
      → Elsewhere i h h'
      → Holds h j xs
      → Holds h' j xs
  Elsewhere-Holds i j h h' xs ne e ((last, s), d) = (
    (
      last,
      subst (λ q. Segment h' j none q xs last none) (sym (e.slots j ne))
          (Elsewhere-Segment i j h h' none (h.slot j) xs last none ne e s),
    ),
    d,
  )

  -- An item of one slot is in no other.
  Elsewhere-Absent :
      (i j a : ℕ) (h : Links) (n : Node) (prev cur : Option ℕ) (xs : List (TimerItem D))
      (last end : Option ℕ)
      → j ≢ i
      → h.node a ≡ some n
      → n.base ≡ some i
      → Segment h j prev cur xs last end
      → Absent a xs
  Elsewhere-Absent i j a h n prev cur [] last end ne e b s = tt
  Elsewhere-Absent i j a h n prev cur (x ∷ xs) last end ne e b (c, next, m, s) = (
    (λ q. ne (
        some-injective
          (ap (λ o. elim o [ none ↦ none | some z ↦ z.base ]) (sym m ∙ ap h.node q ∙ e) ∙ b))),
    Elsewhere-Absent i j a h n (some x.address) next xs last end ne e b s,
  )

  remove-Absent : (a : ℕ) (xs : List (TimerItem D)) → Absent a xs → remove a xs ≡ xs
  unfolding remove
  remove-Absent a [] h = refl
  remove-Absent a (x ∷ xs) h =
      let t : (x.address == a) ≡ false = ground (arith, h.0) in
      rw t (ap (λ q. x ∷ q) (remove-Absent a xs h.1))

  remove_here :
      (before : List (TimerItem D)) (item : TimerItem D) (after : List (TimerItem D))
      → Absent item.address before
      → remove item.address (before ++ (item ∷ after)) ≡ before ++ after
  unfolding remove
  remove_here [] item after h =
      let t : (item.address == item.address) ≡ true = ground arith in rw t refl
  remove_here (x ∷ before) item after h =
      let t : (x.address == item.address) ≡ false = ground (arith, h.0) in
      rw t (ap (λ q. x ∷ q) (remove_here before item after h.1))

  -- In a slot with the item, the pointers are those of the list without it.
  abbrev Cleared :
      Links → ℕ → List (TimerItem D) → TimerItem D → List (TimerItem D) → Option Links → Type 0
  Cleared h i before item after r =
      (h' : Links) × (r ≡ some h')
      × Elsewhere i h h'
      × (h'.node item.address ≡ none)
      × Holds h' i (before ++ after)

  clear_item-Cleared :
      (h : Links) (i : ℕ) (before : List (TimerItem D)) (item : TimerItem D)
      (after : List (TimerItem D))
      → Holds h i (before ++ (item ∷ after))
      → Cleared h i before item after (clear_item item.address h)
  unfolding clear_item unlink_item
  clear_item-Cleared h i before item after (s, d) =
      let c = cut h i none (h.slot i) before item after s.0 s.1 in
      let p = distinct_split before item after d in
      let one =
        relink_next_lem h i none (h.slot i) before item after c.0 c.1 c.2 p.2 p.3 p.4 c.3 c.4 c.5 in
      let h₁ = one.0 in
      let front : Segment h₁ i none (h₁.slot i) before c.0 (some item.address) =
        subst (λ q. Segment h₁ i none q before c.0 (some item.address)) (ap (λ f. f i) (sym one.3))
          one.4 in
      let two =
        relink_prev_lem h₁ i before item after c.0 c.1 one.6 p.0 p.1 p.4 front one.5 one.7 in
      let h₂ = two.0 in
      let h₃ : Links = record h₂ { node = put h₂.node item.address none } in
      let gone = Absent-join item.address before after p.1 p.2 in
      (
        h₃,
        rw (clear_item, unlink_item, one.1, two.1) refl,
        Elsewhere-then i h h₂ h₃ (Elsewhere-then i h h₁ h₂ one.2 two.2)
            (Elsewhere-put i item.address two.3.0 none h₂ two.3.1 two.3.2),
        put_same h₂.node item.address none,
        (
          (
            two.4,
            frame h₂ h₃ i none (h₂.slot i) (before ++ after) two.4 none
                (same_all h₂ h₃ item.address (before ++ after)
                  (λ b ne. put_other h₂.node item.address b none ne) gone)
                two.5,
          ),
          p.5,
        ),
      )

  -- Clear of an item that a slot has, where the pointers of every slot are a list with no item twice:
  -- no access to an item that is deleted is made, the item is deleted, and the pointers of every slot
  -- are its list as `unlink` leaves it, without the item.
  pub clear_item-remove :
      (h : Links) (lists : ℕ → List (TimerItem D)) (i : ℕ) (before : List (TimerItem D))
      (item : TimerItem D) (after : List (TimerItem D))
      → ((j : ℕ) → Holds h j (lists j))
      → lists i ≡ before ++ (item ∷ after)
      → (h' : Links) × (clear_item item.address h ≡ some h')
        × (h'.node item.address ≡ none)
        × ((j : ℕ) → Holds h' j (remove item.address (lists j)))
  clear_item-remove h lists i before item after all e =
      let own : Holds h i (before ++ (item ∷ after)) = subst (Holds h i) e (all i) in
      let c = cut h i none (h.slot i) before item after own.0.0 own.0.1 in
      let p = distinct_split before item after own.1 in
      let r = clear_item-Cleared h i before item after own in
      let here : remove item.address (lists i) ≡ before ++ after =
        ap (remove item.address) e ∙ remove_here before item after p.1 in
      (
        r.0,
        r.1,
        r.3,
        λ j. elim (ℕ_discrete j i) [
          | yes q ↦
              subst (λ k. Holds r.0 k (remove item.address (lists k))) (sym q)
                (subst (Holds r.0 i) (sym here) r.4)
          | no ne ↦
              let s = all j in
              let gone =
                Elsewhere-Absent i j item.address h _ none (h.slot j) (lists j) s.0.0 none ne c.4
                  refl s.0.1 in
              subst (Holds r.0 j) (sym (remove-Absent item.address (lists j) gone))
                (Elsewhere-Holds i j h r.0 (lists j) ne r.2 s)
        ],
      )

  -- An address that no item has is in no slot.
  pub new-Absent :
      (h : Links) (j a : ℕ) (prev cur : Option ℕ) (xs : List (TimerItem D)) (last end : Option ℕ)
      → h.node a ≡ none
      → Segment h j prev cur xs last end
      → Absent a xs
  new-Absent h j a prev cur [] last end e s = tt
  new-Absent h j a prev cur (x ∷ xs) last end e (c, next, n, s) = (
    (λ q. none-not_some (sym e ∙ ap h.node (sym q) ∙ n)),
    new-Absent h j a (some x.address) next xs last end e s,
  )
