-- ===== src/ConsistentHash.antt =====
-- include/ConsistentHash.hpp: the ring, and the nodes that a point has on it.
--
-- `m_stHashRing` is the list of its entries in the order of the keys. A `PointT` on the heap is its
-- number, which `new` never gives twice; `freed` holds those that were deleted. The hashes are
-- parameters: `h` for the type of the key, `h2` for uint64_t.
pub mod Ring
pub mod Nodes
mod Tests
use libsimplesvr.Base.{
  ℕ, zero, suc, ◌+◌, ◌-◌, ◌*◌, ◌/◌, Option, none, some, List, [], ◌∷◌, ltb, leb, ◌==◌,
  if◌then◌else◌,
}

abbrev pub Entries : Type 0
Entries = List (ℕ × ℕ)

-- std::map: find, insert (which keeps an entry that is there), erase and lower_bound.
unfoldable pub find : ℕ → Entries → Option ℕ
find k [] = none
find k ((j, p) ∷ r) = if j == k then some p else find k r

unfoldable pub insert : ℕ → ℕ → Entries → Entries
insert k p [] = (k, p) ∷ []
insert k p ((j, q) ∷ r) =
    let rest = insert k p r in
    if ltb k j then (k, p) ∷ (j, q) ∷ r else if k == j then (j, q) ∷ r else (j, q) ∷ rest

unfoldable pub erase : ℕ → Entries → Entries
erase k [] = []
erase k ((j, q) ∷ r) = if j == k then r else (j, q) ∷ erase k r

unfoldable pub lower_bound : ℕ → Entries → Option (ℕ × ℕ)
lower_bound k [] = none
lower_bound k ((j, p) ∷ r) = if leb k j then some (j, p) else lower_bound k r

pub record ConsistentHash : Type 0 where
  pub hash_ring : Entries
  pub next_point : ℕ
  pub freed : List ℕ

module _ {ℓ} {KeyT : Type ℓ} (virtual_size align_size : ℕ) (h : KeyT → ℕ) (h2 : ℕ → ℕ) where
  abbrev pub aligned : ℕ → ℕ
  aligned key = key / align_size * align_size

  abbrev pub first_key : KeyT → ℕ
  first_key key = aligned (h key)

  abbrev pub next_key : ℕ → ℕ
  next_key key = aligned (h2 key)

  -- The loop of Insert, from the node after `key`.
  unfoldable pub insert_nodes : ℕ → ℕ → ℕ → Entries → Entries
  insert_nodes zero key p r = r
  insert_nodes (suc n) key p r = insert_nodes n (next_key key) p (insert (next_key key) p r)

  -- Insert: the state, and the point of which the value's address is returned.
  unfoldable pub insert_point : KeyT → ℕ → ConsistentHash → ConsistentHash × ℕ
  insert_point key quotas ring =
      let p = ring.next_point in
      let k = first_key key in
      (
        record ring {
          hash_ring = insert_nodes (virtual_size * quotas - 1) k p (insert k p ring.hash_ring);
          next_point = suc p;
        },
        p,
      )

  -- The loop of Delete.
  unfoldable pub erase_nodes : ℕ → ℕ → Entries → Entries
  erase_nodes zero key r = r
  erase_nodes (suc n) key r = erase_nodes n (next_key key) (erase (next_key key) r)

  -- Delete.
  unfoldable pub delete_point : KeyT → ConsistentHash → ConsistentHash
  delete_point key ring =
      let k = first_key key in
      record ring {
        hash_ring = erase_nodes (virtual_size - 1) k (erase k ring.hash_ring);
        freed = elim (find k ring.hash_ring) [ none ↦ ring.freed | some p ↦ p ∷ ring.freed ];
      }

  -- Hash: the point of which the value's address is returned, or NULL.
  unfoldable pub hash : KeyT → ConsistentHash → Option ℕ
  hash key ring = elim (lower_bound (h key) ring.hash_ring) [ none ↦ none | some (k, p) ↦ some p ]
