-- ===== src/ConsistentHash/Nodes.antt =====
-- Insert, Delete and Hash of include/ConsistentHash.hpp against what each key is the entry of.
use libsimplesvr.Base.{
  ℕ, zero, suc, ◌-◌, ◌*◌, ◌<◌, ◌≡◌, refl, sym, ap, subst, ◌∙◌, inl, inr, Bool, true, false, ◌||◌,
  Option, none, some, List, [], ◌∷◌, ◌==◌, if◌then◌else◌, arith, Bool-cases, Option-cases,
}
use libsimplesvr.ConsistentHash.{
  Entries, find, lower_bound, ConsistentHash, next_key, first_key, insert_nodes, insert_point,
  erase_nodes, delete_point, hash,
}
use libsimplesvr.ConsistentHash.Ring.{
  or_else-none, Ascending, insert-Ascending, erase-Ascending, find-insert, find-erase, find_ext,
  or_else, IsFirst, IsBound, lower_bound-IsBound,
}

abbrev pub mem : ℕ → List ℕ → Bool
mem j [] = false
mem j (k ∷ ks) = (k == j) || mem j ks

either_else :
    (o : Option ℕ) (a b : Bool) (p : ℕ)
    → or_else (or_else o (if a then some p else none)) (if b then some p else none)
      ≡ or_else o (if a || b then some p else none)
either_else (some q) a b p = refl
either_else none true b p = refl
either_else none false b p = refl

either_none :
    (o : Option ℕ) (a b : Bool)
    → (if b then none else (if a then none else o)) ≡ (if a || b then none else o)
either_none o true true = refl
either_none o true false = refl
either_none o false b = refl

module _ {ℓ} {KeyT : Type ℓ} (virtual_size align_size : ℕ) (h : KeyT → ℕ) (h2 : ℕ → ℕ) where
  abbrev step : ℕ → ℕ
  step = next_key virtual_size align_size h h2

  -- The `n` keys after a key.
  unfoldable pub nodes : ℕ → ℕ → List ℕ
  nodes zero key = []
  nodes (suc n) key = step key ∷ nodes n (step key)

  -- The keys of a point with the quota.
  abbrev pub all_nodes : KeyT → ℕ → List ℕ
  all_nodes key quotas =
      let k = first_key virtual_size align_size h h2 key in k ∷ nodes (virtual_size * quotas - 1) k

  insert_nodes-Ascending :
      (n key p : ℕ) (r : Entries)
      → Ascending r
      → Ascending (insert_nodes virtual_size align_size h h2 n key p r)
  unfolding insert_nodes
  insert_nodes-Ascending zero key p r d = d
  insert_nodes-Ascending (suc n) key p r d =
      insert_nodes-Ascending n (step key) p _ (insert-Ascending (step key) p r d)

  erase_nodes-Ascending :
      (n key : ℕ) (r : Entries)
      → Ascending r
      → Ascending (erase_nodes virtual_size align_size h h2 n key r)
  unfolding erase_nodes
  erase_nodes-Ascending zero key r d = d
  erase_nodes-Ascending (suc n) key r d =
      erase_nodes-Ascending n (step key) _ (erase-Ascending (step key) r d)

  -- The entries that are there win; the others of the nodes are the point's.
  find-insert_nodes :
      (j n key p : ℕ) (r : Entries)
      → Ascending r
      → find j (insert_nodes virtual_size align_size h h2 n key p r)
        ≡ or_else (find j r) (if mem j (nodes n key) then some p else none)
  unfolding insert_nodes nodes
  find-insert_nodes j zero key p r d = sym (or_else-none (find j r))
  find-insert_nodes j (suc n) key p r d =
      find-insert_nodes j n (step key) p _ (insert-Ascending (step key) p r d)
      ∙ rw (find-insert j (step key) p r d)
          (either_else (find j r) (step key == j) (mem j (nodes n (step key))) p)

  find-erase_nodes :
      (j n key : ℕ) (r : Entries)
      → Ascending r
      → find j (erase_nodes virtual_size align_size h h2 n key r)
        ≡ (if mem j (nodes n key) then none else find j r)
  unfolding erase_nodes nodes
  find-erase_nodes j zero key r d = refl
  find-erase_nodes j (suc n) key r d =
      find-erase_nodes j n (step key) _ (erase-Ascending (step key) r d)
      ∙ rw (find-erase j (step key) r d)
          (either_none (find j r) (step key == j) (mem j (nodes n (step key))))

  -- After Insert into an ordered ring a key leads where it led before, and otherwise to the new
  -- point where it is one of its nodes.
  pub find-insert_point :
      (j quotas : ℕ) (key : KeyT) (ring : ConsistentHash)
      → Ascending ring.hash_ring
      → find j (insert_point virtual_size align_size h h2 key quotas ring).0.hash_ring
        ≡ or_else
            (find j ring.hash_ring)
            (if mem j (all_nodes key quotas) then some ring.next_point else none)
  unfolding insert_point
  find-insert_point j quotas key ring d =
      let k = first_key virtual_size align_size h h2 key in
      let n = virtual_size * quotas - 1 in
      let p = ring.next_point in
      find-insert_nodes j n k p _ (insert-Ascending k p ring.hash_ring d)
      ∙ rw (find-insert j k p ring.hash_ring d)
          (either_else (find j ring.hash_ring) (k == j) (mem j (nodes n k)) p)

  -- After Delete from an ordered ring a key leads nowhere where it is one of the nodes of the point
  -- with the quota 1, whichever point had it, and otherwise where it led before.
  pub find-delete_point :
      (j : ℕ) (key : KeyT) (ring : ConsistentHash)
      → Ascending ring.hash_ring
      → find j (delete_point virtual_size align_size h h2 key ring).hash_ring
        ≡ (if mem j (all_nodes key 1) then none else find j ring.hash_ring)
  unfolding delete_point
  find-delete_point j key ring d =
      let k = first_key virtual_size align_size h h2 key in
      let n = virtual_size - 1 in
      let e : virtual_size * 1 - 1 ≡ n = ground arith in
      rw e (
        find-erase_nodes j n k _ (erase-Ascending k ring.hash_ring d)
        ∙ rw (find-erase j k ring.hash_ring d)
            (either_none (find j ring.hash_ring) (k == j) (mem j (nodes n k))))

  -- Insert and Delete keep the ring in the order of its keys.
  pub points-Ascending :
      (quotas : ℕ) (key : KeyT) (ring : ConsistentHash)
      → Ascending ring.hash_ring
      → Ascending (insert_point virtual_size align_size h h2 key quotas ring).0.hash_ring
        × Ascending (delete_point virtual_size align_size h h2 key ring).hash_ring
  unfolding insert_point delete_point
  points-Ascending quotas key ring d =
      let k = first_key virtual_size align_size h h2 key in
      (
        insert_nodes-Ascending (virtual_size * quotas - 1) k ring.next_point _
            (insert-Ascending k ring.next_point ring.hash_ring d),
        erase_nodes-Ascending (virtual_size - 1) k _ (erase-Ascending k ring.hash_ring d),
      )

  -- The first node at the hash or after it, or none where all are before it.
  abbrev pub IsHashed : KeyT → ConsistentHash → Option ℕ → Type 0
  IsHashed key ring none = (j p : ℕ) → find j ring.hash_ring ≡ some p → j < h key
  IsHashed key ring (some p) = (k : ℕ) × IsFirst (h key) ring.hash_ring (k, p)

  -- On an ordered ring Hash gives the point of the first node at the key's hash or after it, and
  -- NULL exactly where all nodes are before it: it does not go round to the first one.
  pub hash-IsHashed :
      (key : KeyT) (ring : ConsistentHash)
      → Ascending ring.hash_ring
      → IsHashed key ring (hash virtual_size align_size h h2 key ring)
  unfolding hash
  hash-IsHashed key ring d =
      let b = lower_bound-IsBound (h key) ring.hash_ring d in
      elim (Option-cases (lower_bound (h key) ring.hash_ring)) [
        | inl e ↦ rw (e, hash) (subst (IsBound (h key) ring.hash_ring) e b)
        | inr ((k, p), e) ↦ rw (e, hash) (k, subst (IsBound (h key) ring.hash_ring) e b)
      ]

  -- Delete after Insert with the quota 1 restores an ordered ring that had none of the point's
  -- nodes.
  pub delete_point-insert_point :
      (key : KeyT) (ring : ConsistentHash)
      → Ascending ring.hash_ring
      → ((j : ℕ) → mem j (all_nodes key 1) ≡ true → find j ring.hash_ring ≡ none)
      → (delete_point virtual_size align_size h h2 key
          (insert_point virtual_size align_size h h2 key 1 ring).0).hash_ring
        ≡ ring.hash_ring
  delete_point-insert_point key ring d absent =
      let ring' = (insert_point virtual_size align_size h h2 key 1 ring).0 in
      let d' = (points-Ascending 1 key ring d).0 in
      find_ext _ _ (points-Ascending 1 key ring' d').1 d (λ j.
        find-delete_point j key ring' d'
        ∙ rw (find-insert_point j 1 key ring d) (elim (Bool-cases (mem j (all_nodes key 1))) [
          | inl t ↦ rw (t, absent j t) refl
          | inr t ↦ rw t (or_else-none (find j ring.hash_ring))
        ]))

  freed-insert_point :
      (quotas : ℕ) (key : KeyT) (ring : ConsistentHash)
      → (insert_point virtual_size align_size h h2 key quotas ring).0.freed ≡ ring.freed
  unfolding insert_point
  freed-insert_point quotas key ring = refl

  freed-delete_point :
      (key : KeyT) (ring : ConsistentHash) (p : ℕ)
      → find (first_key virtual_size align_size h h2 key) ring.hash_ring ≡ some p
      → (delete_point virtual_size align_size h h2 key ring).freed ≡ p ∷ ring.freed
  unfolding delete_point
  freed-delete_point key ring p e = rw (e, delete_point) refl

  -- On an ordered ring that has neither the first node of a key nor the node `j`: after Insert, of
  -- which `j` is a node, and Delete, where `j` is not a node of the quota 1, `j` still leads to the
  -- new point, which has been freed.
  pub delete_point_dangling :
      (j quotas : ℕ) (key : KeyT) (ring : ConsistentHash)
      → Ascending ring.hash_ring
      → find (first_key virtual_size align_size h h2 key) ring.hash_ring ≡ none
      → find j ring.hash_ring ≡ none
      → mem j (all_nodes key quotas) ≡ true
      → mem j (all_nodes key 1) ≡ false
      → let p = ring.next_point in
        let ring' =
          delete_point virtual_size align_size h h2 key
            (insert_point virtual_size align_size h h2 key quotas ring).0 in
        (find j ring'.hash_ring ≡ some p) × (ring'.freed ≡ p ∷ ring.freed)
  delete_point_dangling j quotas key ring d fresh absent on off =
      let k = first_key virtual_size align_size h h2 key in
      let ring' = (insert_point virtual_size align_size h h2 key quotas ring).0 in
      let d' = (points-Ascending quotas key ring d).0 in
      let self : (k == k) ≡ true = ground arith in
      let first : find k ring'.hash_ring ≡ some ring.next_point =
        find-insert_point k quotas key ring d ∙ rw (fresh, self) refl in
      (
        find-delete_point j key ring' d'
            ∙ rw off (find-insert_point j quotas key ring d ∙ rw (absent, on) refl),
        freed-delete_point key ring' ring.next_point first
            ∙ ap (λ xs. ring.next_point ∷ xs) (freed-insert_point quotas key ring),
      )
