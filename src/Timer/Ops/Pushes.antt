-- ===== src/Timer/Ops/Pushes.antt =====
-- InternalAddTimerItem of include/Timer.hpp puts a new item at the front of a slot's pointers.
use native.Mathlib.Decide.{ℕ_discrete}
use libsimplesvr.Base.{
  ℕ, ◌≡◌, ◌≢◌, refl, sym, ap, ◌∙◌, true, Option, none, some, List, [], ◌∷◌, ◌==◌, arith,
}
use libsimplesvr.Base.Sums.{put}
use libsimplesvr.Timer.Wheel.{TimerItem}
use libsimplesvr.Timer.Ops.Links.{Node, Links, push_item}
use libsimplesvr.Timer.Ops.Chains.{Holds, frame}
use libsimplesvr.Timer.Ops.Unlink.{
  Elsewhere, put_same, put_other, Elsewhere-put, Elsewhere-slot, Elsewhere-then, same_all,
  set_prev_lem,
}
use libsimplesvr.Timer.Ops.Slots.{none-not_some, Elsewhere-Holds, new-Absent}

Elsewhere-new :
    (i a : ℕ) (v : Option Node) (h : Links)
    → h.node a ≡ none
    → Elsewhere i h (record h { node = put h.node a v })
Elsewhere-new i a v h e = record {
  nodes = λ c m k other. elim (ℕ_discrete a c) [
    | yes q ↦ absurd (none-not_some (sym e ∙ ap h.node q ∙ k))
    | no ne ↦ put_other h.node a c v ne
  ];
  slots = λ j ne. refl;
}

slot_same : (f : ℕ → Option ℕ) (i : ℕ) (v : Option ℕ) → put f i v i ≡ v
slot_same f i v = let t : (i == i) ≡ true = ground arith in rw t refl

module _ {ℓ} {D : Type ℓ} where
  abbrev Pushed : Links → ℕ → TimerItem D → List (TimerItem D) → Option Links → Type 0
  Pushed h i item xs r = (h' : Links) × (r ≡ some h') × Elsewhere i h h' × Holds h' i (item ∷ xs)

  push_item-Pushed :
      (h : Links) (i : ℕ) (item : TimerItem D) (xs : List (TimerItem D))
      → h.node item.address ≡ none
      → Holds h i xs
      → Pushed h i item xs (push_item item.address i h)
  unfolding push_item
  push_item-Pushed h i item [] new ((last, (e, e')), d) =
      let a = item.address in
      let n : Node = record { prev_item = none; next_item = none; base = some i } in
      let h₁ : Links = record h { node = put h.node a (some n) } in
      let h' : Links = record h₁ { slot = put h.slot i (some a) } in
      (
        h',
        rw (← e', push_item) refl,
        Elsewhere-then i h h₁ h' (Elsewhere-new i a (some n) h new) (Elsewhere-slot i (some a) h₁),
        (
          (some a, (slot_same h.slot i (some a), none, put_same h.node a (some n), (refl, refl))),
          (tt, tt),
        ),
      )
  push_item-Pushed h i item (y ∷ ys) new ((last, (e, next, m, s)), d) =
      let a = item.address in
      let b = y.address in
      let n : Node = record { prev_item = none; next_item = some b; base = some i } in
      let k : Node = record { prev_item = some a; next_item = next; base = some i } in
      let h₁ : Links = record h { node = put h.node a (some n) } in
      let absent = new-Absent h i a none (h.slot i) (y ∷ ys) last none new (e, next, m, s) in
      let other : a ≢ b = λ q. absent.0 (sym q) in
      let m₁ : h₁.node b ≡ some (record { prev_item = none; next_item = next; base = some i }) =
        put_other h.node a b (some n) other ∙ m in
      let h₂ : Links = record h₁ { node = put h₁.node b (some k) } in
      let h' : Links = record h₂ { slot = put h.slot i (some a) } in
      let far = Elsewhere-new i a (some n) h new in
      let far' = Elsewhere-put i b _ (some k) h₁ m₁ refl in
      (
        h',
        rw (e, push_item) (rw (set_prev_lem b (some a) _ h₁ m₁) refl),
        Elsewhere-then i h h₂ h' (Elsewhere-then i h h₁ h₂ far far') (Elsewhere-slot i (some a) h₂),
        (
          (
            last,
            (
              slot_same h.slot i (some a),
              some b,
              put_other h₁.node b a (some k) (λ q. other (sym q)) ∙ put_same h.node a (some n),
              (
                refl,
                next,
                put_same h₁.node b (some k),
                frame h₁ h' i (some b) next ys last none
                    (same_all h₁ h' b ys (λ c ne. put_other h₁.node b c (some k) ne) d.0)
                    (frame h h₁ i (some b) next ys last none
                      (same_all h h₁ a ys (λ c ne. put_other h.node a c (some n) ne) absent.1) s),
              ),
            ),
          ),
          (absent, d),
        ),
      )

  -- InternalAddTimerItem of an item that no list has, in the slot `i`: no access to an item that is
  -- deleted is made, and the pointers of every slot are its list, in the slot `i` with the item at the
  -- front.
  pub push_item-Holds :
      (h : Links) (lists : ℕ → List (TimerItem D)) (i : ℕ) (item : TimerItem D)
      → h.node item.address ≡ none
      → ((j : ℕ) → Holds h j (lists j))
      → (h' : Links) × (push_item item.address i h ≡ some h')
        × Holds h' i (item ∷ lists i)
        × ((j : ℕ) → j ≢ i → Holds h' j (lists j))
  push_item-Holds h lists i item new all =
      let r = push_item-Pushed h i item (lists i) new (all i) in
      (r.0, r.1, r.3, λ j ne. Elsewhere-Holds i j h r.0 (lists j) ne r.2 (all j))
