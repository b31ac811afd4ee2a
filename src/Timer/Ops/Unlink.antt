-- ===== src/Timer/Ops/Unlink.antt =====
-- Clear of include/Timer.hpp takes one item out of the list that the pointers of its slot are.
use native.Mathlib.Decide.{ℕ_discrete}
use libsimplesvr.Base.{
  ℕ, ◌≡◌, ◌≢◌, refl, sym, ap, subst, ◌∙◌, true, false, Option, none, some, List, [], ◌∷◌, ◌++◌,
  ◌==◌, All-map_impl, All, arith,
}
use libsimplesvr.Base.Sums.{put}
use libsimplesvr.Timer.Wheel.{TimerItem}
use libsimplesvr.Timer.Ops.Links.{
  Node, Links, set_prev, set_next, set_slot, relink_next, relink_prev,
}
use libsimplesvr.Timer.Ops.Chains.{
  some-injective, Absent, Distinct, Segment, frame, join, last_other, last_node, relast, Apart,
}

-- A pointer that is set in one item, and what that leaves.
pub put_same : (f : ℕ → Option Node) (a : ℕ) (v : Option Node) → put f a v a ≡ v
put_same f a v = let t : (a == a) ≡ true = ground arith in rw t refl

pub put_other : (f : ℕ → Option Node) (a b : ℕ) (v : Option Node) → a ≢ b → put f a v b ≡ f b
put_other f a b v ne = let t : (a == b) ≡ false = ground arith in rw t refl

-- Items of other slots, and other slots, stay as they are.
pub record Elsewhere (i : ℕ) (h h' : Links) : Type 0 where
  pub nodes : (a : ℕ) (n : Node) → h.node a ≡ some n → n.base ≢ some i → h'.node a ≡ h.node a
  pub slots : (j : ℕ) → j ≢ i → h'.slot j ≡ h.slot j

pub Elsewhere-put :
    (i a : ℕ) (n : Node) (v : Option Node) (h : Links)
    → h.node a ≡ some n
    → n.base ≡ some i
    → Elsewhere i h (record h { node = put h.node a v })
Elsewhere-put i a n v h e b = record {
  nodes = λ c m k other. elim (ℕ_discrete a c) [
    | yes q ↦ absurd (
        other
          (ap (λ o. elim o [ none ↦ none | some z ↦ z.base ]) (sym k ∙ ap h.node (sym q) ∙ e) ∙ b))
    | no ne ↦ put_other h.node a c v ne
  ];
  slots = λ j ne. refl;
}

pub Elsewhere-then :
    (i : ℕ) (h h' h'' : Links) → Elsewhere i h h' → Elsewhere i h' h'' → Elsewhere i h h''
Elsewhere-then i h h' h'' e e' = record {
  nodes = λ a n k other. let q = e.nodes a n k other in e'.nodes a n (q ∙ k) other ∙ q;
  slots = λ j ne. e'.slots j ne ∙ e.slots j ne;
}

Elsewhere-refl : (i : ℕ) (h : Links) → Elsewhere i h h
Elsewhere-refl i h = record { nodes = λ a n e o. refl; slots = λ j ne. refl }

pub Elsewhere-slot :
    (i : ℕ) (q : Option ℕ) (h : Links) → Elsewhere i h (record h { slot = put h.slot i q })
Elsewhere-slot i q h = record {
  nodes = λ a n e o. refl;
  slots =
      λ j ne. let t : (i == j) ≡ false = ground (arith, (λ (e : i ≡ j). ne (sym e))) in rw t refl;
}

pub set_prev_lem :
    (a : ℕ) (p : Option ℕ) (n : Node) (h : Links)
    → h.node a ≡ some n
    → set_prev a p h ≡ some (record h { node = put h.node a (some (record n { prev_item = p })) })
unfolding set_prev
set_prev_lem a p n h e = rw (e, set_prev) refl

set_next_lem :
    (a : ℕ) (q : Option ℕ) (n : Node) (h : Links)
    → h.node a ≡ some n
    → set_next a q h ≡ some (record h { node = put h.node a (some (record n { next_item = q })) })
unfolding set_next
set_next_lem a q n h e = rw (e, set_next) refl

set_next_node :
    (a c : ℕ) (q : Option ℕ) (n k : Node) (h : Links)
    → h.node a ≡ some n
    → a ≡ c
    → h.node c ≡ some k
    → put h.node a (some (record n { next_item = q })) c ≡ some (record k { next_item = q })
set_next_node a c q n k h e s e' =
    subst
      (λ b. put h.node a (some (record n { next_item = q })) b ≡ some (record n { next_item = q }))
      s (put_same h.node a _)
    ∙ ap (λ o. elim o [ none ↦ none | some z ↦ some (record z { next_item = q }) ])
        (sym e ∙ ap h.node s ∙ e')

module _ {ℓ} {D : Type ℓ} where
  -- The item behind the one at `item` points to the item before it.
  abbrev pub Behind :
      Links
      → ℕ
      → Option ℕ
      → Option ℕ
      → List (TimerItem D)
      → TimerItem D
      → List (TimerItem D)
      → Option ℕ
      → Option ℕ
      → Option Links
      → Type 0
  Behind h i prev cur before item after last next r =
      (h' : Links) × (r ≡ some h')
      × Elsewhere i h h'
      × (h'.slot ≡ h.slot)
      × Segment h' i prev cur before last (some item.address)
      × (h'.node item.address ≡ some (record { prev_item = last; next_item = next; base = some i }))
      × (end : Option ℕ) × Segment h' i last next after end none

  pub same_all :
      (h h' : Links) (a : ℕ) (xs : List (TimerItem D))
      → ((b : ℕ) → a ≢ b → h'.node b ≡ h.node b)
      → Absent a xs
      → All (λ x. h'.node x.address ≡ h.node x.address) xs
  same_all h h' a [] same ne = tt
  same_all h h' a (x ∷ xs) same ne =
      (same x.address (λ e. ne.0 (sym e)), same_all h h' a xs same ne.1)

  pub relink_next_lem :
      (h : Links) (i : ℕ) (prev cur : Option ℕ) (before : List (TimerItem D)) (item : TimerItem D)
      (after : List (TimerItem D)) (last next end : Option ℕ)
      → Absent item.address after
      → Distinct after
      → Apart before after
      → Segment h i prev cur before last (some item.address)
      → h.node item.address ≡ some (record { prev_item = last; next_item = next; base = some i })
      → Segment h i (some item.address) next after end none
      → Behind h i prev cur before item after last next (relink_next item.address h)
  unfolding relink_next
  relink_next_lem h i prev cur before item [] last next end out d apart s n (e, e') =
      (h, rw (n, ← e', relink_next) refl, Elsewhere-refl i h, refl, s, n, last, (refl, e'))
  relink_next_lem h i prev cur before item (y ∷ after) last next end out d apart s n
        (e, next', m, s') =
      let h' : Links = record h {
        node =
            put h.node y.address
              (some (record { prev_item = last; next_item = next'; base = some i }));
      } in
      let same : (b : ℕ) → y.address ≢ b → h'.node b ≡ h.node b =
        λ b ne. put_other h.node y.address b _ ne in
      (
        h',
        rw (n, e, relink_next) (set_prev_lem y.address last _ h m),
        Elsewhere-put i y.address _ _ h m refl,
        refl,
        frame h h' i prev cur before last (some item.address)
            (same_all h h' y.address before same apart.0) s,
        same item.address out.0 ∙ n,
        end,
        (
          e,
          next',
          put_same h.node y.address _,
          frame h h' i (some y.address) next' after end none
              (same_all h h' y.address after same d.0) s',
        ),
      )

  -- The item before the one at `item`, or the slot, points to the item behind it.
  abbrev pub Passed :
      Links → ℕ → List (TimerItem D) → TimerItem D → List (TimerItem D) → Option Links → Type 0
  Passed h i before item after r =
      (h' : Links) × (r ≡ some h')
      × Elsewhere i h h'
      × ((n : Node) × (h'.node item.address ≡ some n) × (n.base ≡ some i))
      × (last : Option ℕ) × Segment h' i none (h'.slot i) (before ++ after) last none

  all_refl :
      (h : Links) (xs : List (TimerItem D)) → All (λ x. h.node x.address ≡ h.node x.address) xs
  all_refl h [] = tt
  all_refl h (x ∷ xs) = (refl, all_refl h xs)

  relink_prev_item :
      (h : Links) (i : ℕ) (x : TimerItem D) (before : List (TimerItem D)) (item : TimerItem D)
      (after : List (TimerItem D)) (last next end : Option ℕ) (a : ℕ) (m : Node)
      → Distinct (x ∷ before)
      → Absent item.address (x ∷ before)
      → Apart (x ∷ before) after
      → Segment h i none (h.slot i) (x ∷ before) last (some item.address)
      → h.node item.address ≡ some (record { prev_item = last; next_item = next; base = some i })
      → Segment h i last next after end none
      → last ≡ some a
      → h.node a ≡ some m
      → m.base ≡ some i
      → Passed h i (x ∷ before) item after (relink_prev item.address h)
  unfolding relink_prev
  relink_prev_item h i x before item after last next end a m d out apart s n s' la na ba =
      let h' : Links = record h { node = put h.node a (some (record m { next_item = next })) } in
      let other : (b : ℕ) → a ≢ b → h'.node b ≡ h.node b = λ b ne. put_other h.node a b _ ne in
      let absent : (b : ℕ) → Absent b (x ∷ before) → a ≢ b = λ b ab q.
        last_other h i b none (h.slot i) x before last (some item.address) s ab (la ∙ ap some q) in
      let front =
        relast h h' i none (h.slot i) x before last (some item.address) next d
          (λ b ne. other b (λ q. ne (la ∙ ap some q)))
          (λ c k q e. set_next_node a c next m k h na (some-injective (sym la ∙ q)) e) s in
      (
        h',
        rw (n, la, relink_prev) (set_next_lem a next m h na),
        Elsewhere-put i a m _ h na ba,
        (_, other item.address (absent item.address out) ∙ n, refl),
        end,
        join h' i none (h.slot i) (x ∷ before) after last next end front (
            frame h h' i last next after end none
              (All-map_impl _ _ after (λ y ab. other y.address (absent y.address ab)) apart) s'),
      )

  pub relink_prev_lem :
      (h : Links) (i : ℕ) (before : List (TimerItem D)) (item : TimerItem D)
      (after : List (TimerItem D)) (last next end : Option ℕ)
      → Distinct before
      → Absent item.address before
      → Apart before after
      → Segment h i none (h.slot i) before last (some item.address)
      → h.node item.address ≡ some (record { prev_item = last; next_item = next; base = some i })
      → Segment h i last next after end none
      → Passed h i before item after (relink_prev item.address h)
  unfolding relink_prev set_slot
  relink_prev_lem h i [] item after last next end d out apart (e, e') n s =
      let h' : Links = record h { slot = put h.slot i next } in
      let t : (i == i) ≡ true = ground arith in
      let at : h'.slot i ≡ next = rw t refl in
      (
        h',
        rw (n, e, relink_prev) refl,
        Elsewhere-slot i next h,
        (_, n, refl),
        end,
        frame h h' i none (h'.slot i) after end none (all_refl h after) (
            subst (λ q. Segment h i none q after end none) (sym at)
              (subst (λ q. Segment h i q next after end none) e s)),
      )
  relink_prev_lem h i (x ∷ before) item after last next end d out apart s n s' =
      let l = last_node h i none (h.slot i) x before last (some item.address) s in
      relink_prev_item h i x before item after last next end l.0 l.1 d out apart s n s' l.2 l.3 l.4
