-- ===== src/Binlog/Rank.antt =====
-- What a pass of the loops of Binlog::Next of src/Binlog.cc has left to do, and how reading a block
-- brings that down.
use native.Mathlib.Decide.{ℕ_discrete}
use libsimplesvr.Base.{
  ℕ, ◌+◌, ◌*◌, ◌-◌, ◌^◌, ◌≤◌, ◌<◌, ◌≡◌, ◌≢◌, refl, ◌⊎◌, subst, Bool, true, false, ◌&&◌, Option,
  some, List, ltb, leb, ◌==◌, if◌then◌else◌, inl, inr, u32, length, take, drop, min, length-take,
  length-drop, arith, Bool-cases, Option-cases,
}
use libsimplesvr.IoBuffer.Bytes.{Host}
use libsimplesvr.IoBuffer.Buffer.{IoBuffer, Outcome, returns, throws, faults, poke, io_buffer_over}
use libsimplesvr.Binlog.{
  Binlog, BlockHead, Head, Handle, unset, stale, live, block_magic, stat_size, get_size,
  get_block_head,
}
use libsimplesvr.Binlog.Iterators.{Iterator}
use libsimplesvr.Binlog.Reader.{
  Next, spent, Pass, again, done, Reads, block_start, read_file, checked, fill, read_block_head,
  skip,
}

-- No loop that ran out of fuel.
abbrev pub Ends : Next → Type 0
Ends spent = ⊥
Ends _ = Unit

-- The bytes of the file from a block's start on.
abbrev pub behind : Binlog → ℕ → ℕ
behind log index = get_size true log - block_start log index

-- What a pass has to do: parse, go to the next block, read the block again, read the block.
pub phase : ℕ → ℕ → ℕ → ℕ
phase size offset real =
    if ltb offset real
    then 1
    else if leb size offset
    then 0
    else if ltb 0 real && ltb real size
    then 2
    else 3

abbrev pub rank : Binlog → Iterator → ℕ
rank log it = 4 * behind log it.block_index + phase log.head.block_size it.offset it.real_size

-- The block that the iterator is at, and where the next one starts, are below 4 GiB, and no more than
-- a block was read.
pub record InRange (log : Binlog) (index real : ℕ) : Type 0 where
  pub below : log.head.data_offset + log.head.block_size * index + log.head.block_size < 2 ^ 32
  pub loaded : real ≤ log.head.block_size

abbrev pub Down : Binlog → ℕ → Pass → Type 0
Down log n (again it) = InRange log it.block_index it.real_size × (rank log it < n)
Down log n (done r) = Ends r

pub phase-le : (size offset real : ℕ) → phase size offset real ≤ 3
unfolding phase
phase-le size offset real = ground arith

read_file-length :
    (reads : Bool) (fd : Handle) (h : Head) (size at : ℕ) (bytes : List ℕ)
    → read_file reads fd size at ≡ some bytes
    → length bytes ≡ min size (get_size true (record { fd = fd; head = h }) - at)
unfolding read_file get_size stat_size
read_file-length true (live f) h size at bytes e =
    let e' : take size (drop at f.contents) ≡ bytes = ground (arith, e) in
    subst (λ bs. length bs ≡ min size (length f.contents - at)) e'
      (omega (arith, length-take size (drop at f.contents), length-drop at f.contents))
read_file-length true unset h size at bytes e = ground (arith, e)
read_file-length true stale h size at bytes e = ground (arith, e)
read_file-length false fd h size at bytes e = ground (arith, e)

pub outcomes :
    {A : Type 0} (o : Outcome A)
    → ((io : IoBuffer) × (o ≡ throws io))
      ⊎ ((o ≡ faults) ⊎ ((a : A) × (io : IoBuffer) × (o ≡ returns a io)))
outcomes (returns a io) = inr (inr (a, io, refl))
outcomes (throws io) = inl (io, refl)
outcomes faults = inr (inl refl)

pub stat_size_lem :
    (stats : Bool) (fd : Handle) (h : Head) (size : ℕ)
    → stat_size stats fd ≡ some size
    → get_size true (record { fd = fd; head = h }) ≡ size
unfolding get_size stat_size
stat_size_lem true (live f) h size e = ground (arith, e)
stat_size_lem true unset h size e = ground (arith, e)
stat_size_lem true stale h size e = ground (arith, e)
stat_size_lem false fd h size e = ground (arith, e)

not-== : (a b : ℕ) → a ≢ b → (a == b) ≡ false
not-== a b h = ground arith

-- Each phase.
module _ (size offset real : ℕ) where
  pub phase_parse : offset < real → phase size offset real ≡ 1
  unfolding phase
  phase_parse h = ground arith

  pub phase_reload : real ≤ offset → offset < size → 0 < real → phase size offset real ≡ 2
  unfolding phase
  phase_reload u w p = ground arith

  pub phase_load : offset < size → real ≡ 0 → phase size offset real ≡ 3
  unfolding phase
  phase_load w z = ground arith

  pub phase_loaded : 0 < real → phase size offset real ≤ 2
  unfolding phase
  phase_loaded p = ground arith

  pub phase_next : real ≤ offset → size ≤ offset → phase size offset real ≡ 0
  unfolding phase
  phase_next u f = ground arith

module _ (log : Binlog) (n : ℕ) where
  checked-Down :
      (it : Iterator) (rest : Iterator → Pass)
      → (8 ≤ it.real_size → it.real_size < 2 ^ 31 → Down log n (rest it))
      → Down log n (checked it rest)
  unfolding checked
  checked-Down it rest h = ground arith

  -- What pread has given is the block up to the file's end.
  pub fill-Down :
      (calls : Reads) (it : Iterator) (rest : Iterator → Pass)
      → log.head.block_size < 2 ^ 31
      → ((b : List ℕ) (real : ℕ)
          → 8 ≤ real
          → real ≡ min log.head.block_size (behind log it.block_index)
          → Down log n (rest (record it { block_buffer = some b; real_size = real })))
      → Down log n (fill calls log it rest)
  unfolding fill
  fill-Down calls it rest small h = elim (Option-cases (bytes)) [
    | inl e ↦
        rw (e, fill)
          (checked-Down (record it { real_size = 2 ^ 32 - 1 }) rest (λ lo hi. absurd (omega arith)))
    | inr (bs, e) ↦ elim (Option-cases it.block_buffer) [
      | inl e' ↦
          rw (e, e', fill)
            (elim (ℕ_discrete (length bs) 0) [
              | yes z ↦
                  rw z (
                    checked-Down (record it { real_size = 0 }) rest (λ lo hi. absurd (omega arith)))
              | no nz ↦ rw (not-== (length bs) 0 nz) (
                  checked-Down (record it { real_size = 2 ^ 32 - 1 }) rest
                    (λ lo hi. absurd (omega arith)))
            ])
      | inr (b, e') ↦ elim (Option-cases (poke 0 bs b)) [
        | inl e'' ↦ rw (e, e', e'', fill) tt
        | inr (b', e'') ↦
            rw (e, e', e'', fill)
              (checked-Down (record it { block_buffer = some b'; real_size = u32 (length bs) }) rest
                (λ lo hi.
                  let len =
                    read_file-length calls.reads log.fd log.head log.head.block_size
                      (block_start log it.block_index) bs e in
                  h b' (u32 (length bs)) lo (omega arith)))
      ]
    ]
  ]
    where
      bytes : Option (List ℕ)
      bytes = read_file calls.reads log.fd log.head.block_size (block_start log it.block_index)

  pub read_block_head-Down :
      (host : Host) (it : Iterator) (rest : Iterator → Pass)
      → ((h : BlockHead) → Down log n (rest (record it { block_head = h })))
      → Down log n (skip log it)
      → Down log n (read_block_head host log it rest)
  unfolding read_block_head
  read_block_head-Down host it rest h s =
      elim (outcomes
        (get_block_head host (io_buffer_over it.block_buffer it.real_size it.real_size))) [
          | inl (io, e) ↦ rw (e, read_block_head) tt
          | inr (inl e) ↦ rw (e, read_block_head) tt
          | inr (inr (bh, io, e)) ↦ (elim (Bool-cases (bh.magic == block_magic)) [
            | inl t ↦ rw (e, read_block_head, t) (h bh)
            | inr t ↦ rw (e, read_block_head, t) s
          ])
        ]
