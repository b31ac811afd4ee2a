-- ===== src/Binlog/Ends.antt =====
-- The loops of Binlog::Next of src/Binlog.cc end.
use libsimplesvr.Base.{
  ℕ, zero, suc, ◌+◌, ◌*◌, ◌^◌, ◌≤◌, ◌<◌, ◌≡◌, sym, subst, true, some, List, ltb, leb, ◌==◌, inl,
  inr, u32, drop, min, arith, Bool-cases, Option-cases,
}
use libsimplesvr.Base.Int.{pos}
use libsimplesvr.IoBuffer.Bytes.{Host}
use libsimplesvr.IoBuffer.Buffer.{IoBuffer, peek, read_seek, io_buffer_over}
use libsimplesvr.IoBuffer.Streams.{get_byte}
use libsimplesvr.Binlog.{Binlog, stat_size, get_size}
use libsimplesvr.Binlog.Writer.{end_magic, get_log_size}
use libsimplesvr.Binlog.Iterators.{Iterator}
use libsimplesvr.Binlog.Reader.{
  Pass, again, done, Reads, block_start, next_block, reload, load, refill, get_log_head, finish,
  parse_log, starts, parse, pass, loop, next, skip,
}
use libsimplesvr.Binlog.Rank.{
  Ends, behind, phase, rank, InRange, Down, phase-le, outcomes, stat_size_lem, phase_parse,
  phase_reload, phase_load, phase_loaded, phase_next, fill-Down, read_block_head-Down,
}

mul-le : (a b : ℕ) → 1 ≤ a → b ≤ a * b
mul-le zero b h = absurd (omega arith)
mul-le (suc a) b h = let e : suc a * b ≡ b + a * b = ground arith in omega (arith, e)

-- The next block's start.
pub next_start :
    (log : Binlog) (it : Iterator)
    → InRange log it.block_index it.real_size
    → 8 ≤ log.head.block_size
    → (u32 (it.block_index + 1) ≡ it.block_index + 1)
      × (block_start log (it.block_index + 1)
          ≡ block_start log it.block_index + log.head.block_size)
      × (block_start log it.block_index
          ≡ log.head.data_offset + log.head.block_size * it.block_index)
      × (log.head.block_size * (it.block_index + 1)
          ≡ log.head.block_size * it.block_index + log.head.block_size)
unfolding block_start
next_start log it room big =
    let l = mul-le log.head.block_size it.block_index (omega arith) in
    let e : log.head.block_size * (it.block_index + 1)
        ≡ log.head.block_size * it.block_index + log.head.block_size =
      ground arith in
    (omega (arith, room.below), omega (arith, e, room.below), omega (arith, room.below), e)

module _ (host : Host) (calls : Reads) (log : Binlog) (it : Iterator)
    (small : log.head.block_size < 2 ^ 31) (file : get_size true log + log.head.block_size ≤ 2 ^ 32)
    (room : InRange log it.block_index it.real_size) where
  -- The iterator at the next block, and in its block, with some of it read.
  moved :
      (offset real : ℕ)
      → 8 ≤ real
      → real ≡ min log.head.block_size (behind log (u32 (it.block_index + 1)))
      → InRange log (u32 (it.block_index + 1)) real
        × (4 * behind log (u32 (it.block_index + 1)) + phase log.head.block_size offset real
            < rank log it)
  moved offset real lo e =
      let n = next_start log it room (omega arith) in
      let e' : real ≡ min log.head.block_size (behind log (it.block_index + 1)) =
        subst (λ i. real ≡ min log.head.block_size (behind log i)) n.0 e in
      subst
        (λ i.
          InRange log i real
          × (4 * behind log i + phase log.head.block_size offset real < rank log it))
        (sym n.0)
        (
          record { below = omega (arith, n, file); loaded = omega arith },
          omega (arith, n, phase-le log.head.block_size offset real),
        )

  stayed :
      (offset real : ℕ)
      → real ≡ min log.head.block_size (behind log it.block_index)
      → phase log.head.block_size offset real < phase log.head.block_size it.offset it.real_size
      → InRange log it.block_index real
        × (4 * behind log it.block_index + phase log.head.block_size offset real < rank log it)
  stayed offset real e l = (record { below = room.below; loaded = omega arith }, omega arith)

  next_block-Down : Down log (rank log it) (next_block host calls log it)
  unfolding next_block
  next_block-Down = fill-Down log (rank log it) calls _ _ small λ b real lo e.
      read_block_head-Down log (rank log it) host _ _ (λ h. moved 8 real lo e)
        (moved log.head.block_size real lo e)

  reload-Down :
      it.real_size ≤ it.offset
      → it.offset < log.head.block_size
      → 0 < it.real_size
      → Down log (rank log it) (reload calls log it)
  unfolding reload
  reload-Down used within some_ =
      let size' = log.head.block_size in
      elim (Option-cases (stat_size calls.stats log.fd)) [
        | inl e ↦ rw (e, reload) tt
        | inr (size, e) ↦
            elim (Bool-cases (leb size (u32 (block_start log it.block_index + it.offset)))) [
              | inl t ↦ simp (e, t, reload) tt
              | inr t ↦
                  simp (e, t, reload)
                    (fill-Down log (rank log it) calls it again small λ b real lo e'.
                      stayed it.offset real e' (
                        omega (
                          arith,
                          phase_reload size' it.offset it.real_size used within some_,
                          phase_parse size' it.offset real (
                              let n = next_start log it room (omega arith) in
                              let whole = stat_size_lem calls.stats log.fd log.head size e in
                              let l : u32 (block_start log it.block_index + it.offset) < size =
                                ground arith in
                              omega (arith, n, room.below, whole, l, e')),
                        )))
            ]
      ]

  load-Down :
      it.offset < log.head.block_size
      → it.real_size ≡ 0
      → Down log (rank log it) (load host calls log it)
  unfolding load
  load-Down within empty = fill-Down log (rank log it) calls _ _ small λ b real lo e.
      read_block_head-Down log (rank log it) host _ _
        (λ h. stayed _ real e (omega (arith, before, phase_loaded size _ real (omega arith))))
        (stayed _ real e (omega (arith, before, phase_loaded size size real (omega arith))))
    where
      size : ℕ
      size = log.head.block_size

      before : phase size it.offset it.real_size ≡ 3
      before = phase_load size it.offset it.real_size within empty

  finish-Down :
      (n : ℕ) (io : IoBuffer)
      → Down log (rank log it) (skip log it)
      → Down log (rank log it) (finish host log it n io)
  unfolding finish
  finish-Down n io h = elim (outcomes (get_byte host (read_seek (pos n) io))) [
    | inl (io', e) ↦ rw (e, finish) tt
    | inr (inl e) ↦ rw (e, finish) tt
    | inr (inr (c, io', e)) ↦ elim (Bool-cases (c == end_magic)) [
      | inl t ↦ rw (e, finish, t) tt
      | inr t ↦ rw (e, finish, t) h
    ]
  ]

  parse_log-Down :
      (b : List ℕ) (size : ℕ)
      → Down log (rank log it) (skip log it)
      → Down log (rank log it) (parse_log host log it b size)
  unfolding parse_log
  parse_log-Down b size h = elim (Bool-cases (ltb size 6)) [
    | inl t ↦ rw (t, parse_log) h
    | inr t ↦
        elim (outcomes (get_log_head host (io_buffer_over (some (drop it.offset b)) size size))) [
          | inl (io', e) ↦ rw (t, e, parse_log) tt
          | inr (inl e) ↦ rw (t, e, parse_log) tt
          | inr (inr (n, io, e)) ↦ elim (Bool-cases (ltb size (get_log_size n))) [
            | inl t' ↦ rw (t, e, parse_log, t') h
            | inr t' ↦ rw (t, e, parse_log, t') (finish-Down n io h)
          ]
        ]
  ]

  parse-Down : it.offset < it.real_size → Down log (rank log it) (parse host log it)
  unfolding parse
  parse-Down h = elim (Option-cases it.block_buffer) [
    | inl e ↦ simp (e, parse) tt
    | inr (b, e) ↦ elim (Option-cases (peek it.offset 1 b)) [
      | inl e' ↦ simp (e, e', parse) tt
      | inr (first, e') ↦ elim (Bool-cases (starts first)) [
        | inl t ↦ simp (e, e', t, parse) (parse_log-Down b _ skipped)
        | inr t ↦ simp (e, e', t, parse) skipped
      ]
    ]
  ]
    where
      skipped : Down log (rank log it) (skip log it)
      skipped = (
        room,
        omega (
          arith,
          phase_parse log.head.block_size it.offset it.real_size h,
          phase_next log.head.block_size log.head.block_size it.real_size room.loaded (omega arith),
        ),
      )

  pass-Down : Down log (rank log it) (pass host calls log it)
  unfolding pass refill
  pass-Down = ground (arith, parse-Down, load-Down, reload-Down, next_block-Down)

module _ (host : Host) (log : Binlog) (small : log.head.block_size < 2 ^ 31)
    (file : get_size true log + log.head.block_size ≤ 2 ^ 32) where
  passes :
      (fuel : ℕ) (calls : ℕ → Reads) (n : ℕ) (p : Pass)
      → Down log n p
      → ((it : Iterator)
          → InRange log it.block_index it.real_size
          → rank log it < n
          → Ends (loop host fuel calls log it))
      → Ends (elim p [ again it' ↦ loop host fuel calls log it' | done r ↦ r ])
  passes fuel calls n (again it) d h = h it d.0 d.1
  passes fuel calls n (done r) d h = d

  loop-Ends :
      (fuel : ℕ) (calls : ℕ → Reads) (it : Iterator)
      → InRange log it.block_index it.real_size
      → rank log it < fuel
      → Ends (loop host fuel calls log it)
  unfolding loop
  loop-Ends zero calls it room h = absurd (omega arith)
  loop-Ends (suc fuel) calls it room h =
      passes fuel calls (rank log it) _ (pass-Down host (calls fuel) log it small file room)
        (λ it' room' l. loop-Ends fuel calls it' room' (omega arith))

  -- Next on an iterator that is at a block whose end is below 4 GiB, with no more than a block read,
  -- for blocks smaller than 2 GiB and a file that ends a block before 4 GiB: whatever the file holds
  -- and whichever of its calls fail, where a pread that succeeds gives all bytes that there are, 4 passes for each byte of the file and 4 more are enough for the
  -- loops to end.
  pub next-Ends :
      (calls : ℕ → Reads) (it : Iterator)
      → InRange log it.block_index it.real_size
      → Ends (next host (4 * (get_size true log + 1)) calls log it)
  unfolding next
  next-Ends calls it room = elim (Bool-cases (ltb it.block_size log.head.block_size)) [
    | inl t ↦ rw (t, next) tt
    | inr t ↦
        rw (t, next)
          (loop-Ends _ calls it room
            (omega (arith, phase-le log.head.block_size it.offset it.real_size)))
  ]
