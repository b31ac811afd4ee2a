-- ===== src/ConsistentHash/Tests.antt =====
-- The ring of include/ConsistentHash.hpp at concrete inputs, with three nodes for a point and
-- hashes that add.
use libsimplesvr.Base.{ℕ, ◌+◌, ◌%◌, ◌≡◌, [], ◌∷◌, arith, refl, some, none, true}
use libsimplesvr.ConsistentHash.{
  ConsistentHash, find, insert, lower_bound, insert_nodes, insert_point, delete_point, hash,
}
use libsimplesvr.ConsistentHash.Ring.{Ascending}
use libsimplesvr.ConsistentHash.Nodes.{
  nodes, mem, all_nodes, IsHashed, hash-IsHashed, delete_point-insert_point, delete_point_dangling,
}

abbrev h : ℕ → ℕ
h k = k + 5

abbrev h2 : ℕ → ℕ
h2 k = (k + 30) % 256

abbrev empty : ConsistentHash
empty = record { hash_ring = []; next_point = 0; freed = [] }

-- The nodes 1, 31 and 61 of the point 0, where an AlignSize of 1 leaves the keys as they are.
abbrev one : ConsistentHash
one = record { hash_ring = (6, 0) ∷ (36, 0) ∷ (66, 0) ∷ []; next_point = 1; freed = [] }

one_lem : (insert_point 3 1 h h2 1 1 empty).0 ≡ one
unfolding insert_point insert_nodes insert
one_lem = refl

one-Ascending : Ascending one.hash_ring
one-Ascending = ((omega arith, (omega arith, tt)), ((omega arith, tt), (tt, tt)))

hash-IsHashed_example : IsHashed 3 1 h h2 20 one (hash 3 1 h h2 20 one)
hash-IsHashed_example = hash-IsHashed 3 1 h h2 20 one one-Ascending

found : hash 3 1 h h2 20 one ≡ some 0
unfolding hash lower_bound
found = refl

past_the_end : hash 3 1 h h2 62 one ≡ none
unfolding hash lower_bound
past_the_end = refl

absent : (j : ℕ) → mem j (all_nodes 3 1 h h2 10 1) ≡ true → find j one.hash_ring ≡ none
unfolding nodes find
absent j e = ground arith

delete_point-insert_point_example :
    (delete_point 3 1 h h2 10 (insert_point 3 1 h h2 10 1 one).0).hash_ring ≡ one.hash_ring
delete_point-insert_point_example = delete_point-insert_point 3 1 h h2 10 one one-Ascending absent

-- The fourth node of a point with the quota 2.
delete_point_dangling_example :
    let ring' = delete_point 3 1 h h2 10 (insert_point 3 1 h h2 10 2 one).0 in
    (find 105 ring'.hash_ring ≡ some 1) × (ring'.freed ≡ 1 ∷ [])
unfolding nodes find
delete_point_dangling_example =
    delete_point_dangling 3 1 h h2 105 2 10 one one-Ascending refl refl refl refl
