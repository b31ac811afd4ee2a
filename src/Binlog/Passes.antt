-- ===== src/Binlog/Passes.antt =====
-- The passes of Binlog::Next of src/Binlog.cc over a file that Binlog::Write has written.
use libsimplesvr.Base.{
  ℕ, zero, suc, ◌+◌, ◌-◌, ◌^◌, ◌≤◌, ◌<◌, ◌≡◌, refl, sym, ap, ap₂, subst, ◌∙◌, true, false, some,
  List, [], ◌∷◌, ◌++◌, min, length, take, drop, length-append, length-drop, drop-drop, take-drop,
  take-append-drop, arith, ltb, leb, ◌==◌, u32, sub32,
}
use libsimplesvr.Base.Int.{pos}
use libsimplesvr.IoBuffer.Bytes.{Host}
use libsimplesvr.IoBuffer.Buffer.{peek, io_buffer_over}
use libsimplesvr.IoBuffer.Streams.{signed}
use libsimplesvr.Binlog.{Binlog}
use libsimplesvr.Binlog.Writer.{log_bytes, get_log_size}
use libsimplesvr.Binlog.Iterators.{Iterator}
use libsimplesvr.Binlog.Reader.{
  returned, again, done, Reads, block_start, finish, parse_log, starts, parse, pass, found,
}
use libsimplesvr.Binlog.Words.{length-log_bytes, get_log_head-returns}
use libsimplesvr.Binlog.Wire.{log_bytes-front, end_byte-returns}
use libsimplesvr.Binlog.Trail.{Stands, Stands-more, Padded}

-- The buffer holds the file's bytes from the block's start on, a block of them or what there is.
pub record Loaded (log : Binlog) (file : List ℕ) (it : Iterator) : Type 0 where
  pub memory : List ℕ
  pub held : it.block_buffer ≡ some memory
  pub sized : length memory ≡ log.head.block_size
  pub real : it.real_size ≡ min log.head.block_size (length file - block_start log it.block_index)
  pub same :
      take it.real_size memory
      ≡ take log.head.block_size (drop (block_start log it.block_index) file)

take-append_ge :
    (n : ℕ) (xs ys : List ℕ) → length xs ≤ n → take n (xs ++ ys) ≡ xs ++ take (n - length xs) ys
take-append_ge n [] ys h = ap (λ k. take k ys) (let e : n ≡ n - 0 = omega arith in e)
take-append_ge zero (x ∷ xs) ys h = absurd (omega arith)
take-append_ge (suc n) (x ∷ xs) ys h =
    ap (◌∷◌ x) (take-append_ge n xs ys (omega arith))
    ∙ ap (λ k. x ∷ (xs ++ take k ys))
        (let e : n - length xs ≡ suc n - suc (length xs) = omega arith in e)

module _ (log : Binlog) (file : List ℕ) (it : Iterator) (l : Loaded log file it) where
  -- What stands in the block stands in the buffer.
  pub window :
      (at : ℕ) (w : List ℕ)
      → at + length w ≤ log.head.block_size
      → 0 < length w
      → Stands (block_start log it.block_index + at) w file
      → Stands at w l.memory
  window at w fits some_ (rest, e) =
      subst (Stands at w)
        (ap (λ q. q ++ drop it.real_size l.memory) (sym l.same)
          ∙ take-append-drop it.real_size l.memory)
        (Stands-more at w part (drop it.real_size l.memory) some_ inside)
    where
      size : ℕ
      size = log.head.block_size

      start : ℕ
      start = block_start log it.block_index

      part : List ℕ
      part = take size (drop start file)

      inside : Stands at w part
      inside = (
        take (size - at - length w) rest,
        ap (λ n. drop at (take n (drop start file))) (omega (arith, fits))
            ∙ sym (take-drop (size - at) at (drop start file))
            ∙ ap (take (size - at)) (drop-drop at start file ∙ e)
            ∙ take-append_ge (size - at) w rest (omega arith),
      )

  -- What stands in the file is inside of what was read.
  pub read_in :
      (at : ℕ) (w : List ℕ)
      → at + length w ≤ log.head.block_size
      → 0 < length w
      → Stands (block_start log it.block_index + at) w file
      → at + length w ≤ it.real_size
  read_in at w fits some_ (rest, e) =
      let start = block_start log it.block_index in
      omega (arith, l.real, length-drop (start + at) file, ap length e, length-append w rest)

  pub real-le : it.real_size ≤ log.head.block_size
  real-le = omega (arith, l.real)

  module _ (host : Host) (calls : Reads) (m : List ℕ) (small : log.head.block_size < 2 ^ 31)
      (fits : it.offset + (6 + length m) ≤ log.head.block_size)
      (at : Stands (block_start log it.block_index + it.offset) (log_bytes host m) file) where
    here : Stands it.offset (log_bytes host m) l.memory
    here =
        window it.offset (log_bytes host m) (omega (arith, length-log_bytes host m))
          (omega (arith, length-log_bytes host m)) at

    inside : it.offset + (6 + length m) ≤ it.real_size
    inside = omega (
      arith,
      read_in it.offset (log_bytes host m) (omega (arith, length-log_bytes host m))
          (omega (arith, length-log_bytes host m)) at,
      length-log_bytes host m,
    )

    -- The iterator at the log that is returned.
    abbrev pub logged : Iterator
    logged = record (found log it (length m) 5) { offset = it.offset + (6 + length m) }

    finish_lem :
        (size : ℕ)
        → size + it.offset ≡ it.real_size
        → finish host log it
            (length m)
            (record (io_buffer_over (some (drop it.offset l.memory)) size size) {
              read_position = 5;
            })
          ≡ done (returned (pos (6 + length m)) logged)
    unfolding finish get_log_size signed
    finish_lem size e =
        let long = length-drop it.offset l.memory in
        let end =
          end_byte-returns host (drop it.offset l.memory) m here.0 size
            (omega (arith, long, l.sized)) (omega (arith, long, e, l.sized, real-le))
            (omega (arith, e, inside)) (omega arith) here.1 in
        let n : signed 32 (u32 (length m + 6)) ≡ pos (6 + length m) =
          let t : u32 (length m + 6) ≡ 6 + length m = omega arith in
          let t' : ltb (6 + length m) (2 ^ 31) ≡ true = ground arith in rw t (rw t' refl) in
        let o : u32 (it.offset + get_log_size (length m)) ≡ it.offset + (6 + length m) =
          omega arith in
        rw (end.1, finish)
          (ap₂ (λ r k. done (returned r (record (found log it (length m) 5) { offset = k }))) n o)

    parse_log_lem :
        (size : ℕ)
        → size + it.offset ≡ it.real_size
        → parse_log host log it l.memory size ≡ done (returned (pos (6 + length m)) logged)
    unfolding parse_log get_log_size
    parse_log_lem size e =
        let long = length-drop it.offset l.memory in
        let a : ltb size 6 ≡ false = ground (arith, inside) in
        let b : ltb size (u32 (6 + length m)) ≡ false = ground (arith, inside) in
        rw
          (
            a,
            get_log_head-returns host (drop it.offset l.memory) size 3 (length m)
                (m ++ (10 ∷ here.0)) (omega arith) (omega arith) (omega (arith, long, l.sized))
                (omega (arith, long, e, l.sized, real-le)) (omega (arith, e, inside))
                (here.1 ∙ log_bytes-front host m here.0 (omega arith)),
            parse_log,
            b,
          )
          (finish_lem size e)

    first_byte : peek it.offset 1 l.memory ≡ some (3 ∷ [])
    unfolding peek log_bytes
    first_byte =
        let t : leb (it.offset + 1) (length l.memory) ≡ true = ground (arith, l.sized) in
        rw t (ap some (ap (take 1) here.1))

    parse_lem : parse host log it ≡ parse_log host log it l.memory (sub32 it.real_size it.offset)
    unfolding parse starts
    parse_lem = simp (l.held, first_byte, parse) refl

    -- A log that stands at the offset is what the pass returns.
    pub pass_log : pass host calls log it ≡ done (returned (pos (6 + length m)) logged)
    unfolding pass
    pass_log =
        let t : leb it.real_size it.offset ≡ false = ground (arith, inside) in
        rw (t, parse_lem)
          (parse_log_lem (sub32 it.real_size it.offset) (omega (arith, inside, real-le)))

  -- A byte that starts no log makes the pass leave the block.
  pub pass_pad :
      (host : Host) (calls : Reads)
      → it.offset < log.head.block_size
      → log.head.block_size < 2 ^ 31
      → Padded (block_start log it.block_index + it.offset) file
      → pass host calls log it ≡ again (record it { offset = log.head.block_size })
  unfolding pass parse starts peek
  pass_pad host calls within small (b, ne, at) =
      let inside = read_in it.offset (b ∷ []) (omega arith) (omega arith) at in
      let here = window it.offset (b ∷ []) (omega arith) (omega arith) at in
      let t : leb it.real_size it.offset ≡ false = ground (arith, inside) in
      let t' : leb (it.offset + 1) (length l.memory) ≡ true = ground (arith, l.sized) in
      let first : take 1 (drop it.offset l.memory) ≡ b ∷ [] = ap (take 1) here.1 in
      let other : (b == 3) ≡ false = ground arith in
      simp (t, l.held, t', first, other, pass, parse, peek, starts) refl
