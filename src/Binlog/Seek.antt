-- ===== src/Binlog/Seek.antt =====
-- GetIterator(offset) of src/Binlog.cc, for the offset of a log that the file has.
use native.Mathlib.Nat.{
  mod-eq_of_lt, div-eq_of_lt, mul-add-div, add-mul-mod_self_left, le-mul_of_pos_right,
}
use libsimplesvr.Base.{
  ℕ, suc, ◌+◌, ◌-◌, ◌*◌, ◌/◌, ◌%◌, ◌^◌, ◌≤◌, ◌<◌, ◌≡◌, inl, inr, refl, sym, ap, subst, ◌∙◌, false,
  none, some, List, [], ◌∷◌, ◌++◌, length, length-append, length-drop, arith, ltb, ◌==◌, u32,
  if◌then◌else◌,
}
use libsimplesvr.Base.Int.{pos}
use libsimplesvr.IoBuffer.Bytes.{Host}
use libsimplesvr.Binlog.{returned, Binlog, BlockHead, File, live, block_head_size}
use libsimplesvr.Binlog.Writer.{Calls, log_bytes, write}
use libsimplesvr.Binlog.Iterators.{Iterator, get_iterator, get_iterator_at}
use libsimplesvr.Binlog.Reader.{again, Reads, block_start, pass}
use libsimplesvr.Binlog.Words.{block_head_bytes, length-block_head_bytes}
use libsimplesvr.Binlog.Trail.{Stands, Trail, ends, logs, turns}
use libsimplesvr.Binlog.Appends.{Ready, Working}
use libsimplesvr.Binlog.Records.{Recorded, write-Recorded}
use libsimplesvr.Binlog.Loads.{read-Loaded, pass_load}
use libsimplesvr.Binlog.Yields.{Reading, Yields, loop_again}
use libsimplesvr.Binlog.ReadBack.{Synced, loop_log, next-loop, trail-Yields}

-- A log of a trail is in a block that has a head.
abbrev pub Placed : Host → ℕ → List ℕ → ℕ → List ℕ → List (List ℕ) → Type 0
Placed host size file start m ys =
    (k : ℕ) × (now : ℕ) × (p : ℕ) × (o : ℕ) × (p ≡ start + size * k)
    × Stands p (block_head_bytes host now) file
    × (8 ≤ o)
    × (o + (6 + length m) ≤ size)
    × Stands (p + o) (log_bytes host m) file
    × Trail host size file p (o + (6 + length m)) ys

locate :
    (host : Host) (size : ℕ) (file : List ℕ) (start k now p o : ℕ) (xs : List (List ℕ)) (m : List ℕ)
    (ys : List (List ℕ))
    → p ≡ start + size * k
    → Stands p (block_head_bytes host now) file
    → Trail host size file p o (xs ++ (m ∷ ys))
    → Placed host size file start m ys
locate host size file start k now p o [] m ys e head (logs _ a b at t) =
    (k, now, p, o, e, head, a, b, at, t)
locate host size file start k now p o [] m ys e head (turns now' _ a pad b head' at t) =
    let q : size * suc k ≡ size * k + size = ground arith in
    (suc k, now', p + size, 8, omega (arith, e, q), head', omega arith, b, at, t)
locate host size file start k now p o (x ∷ xs) m ys e head (logs _ a b at t) =
    locate host size file start k now p _ xs m ys e head t
locate host size file start k now p o (x ∷ xs) m ys e head (turns now' _ a pad b head' at t) =
    let q : size * suc k ≡ size * k + size = ground arith in
    locate host size file start (suc k) now' (p + size) _ xs m ys (omega (arith, e, q)) head' t

head_inside :
    (host : Host) (now p : ℕ) (file : List ℕ)
    → Stands p (block_head_bytes host now) file
    → p + 8 ≤ length file
head_inside host now p file at = omega (
  arith,
  ap length at.1,
  length-append (block_head_bytes host now) at.0,
  length-block_head_bytes host now,
  length-drop p file,
)

module _ (host : Host) (log : Binlog) (f : File) (opened : log.fd ≡ live f)
    (small : log.head.block_size < 2 ^ 31) (big : 8 ≤ log.head.block_size)
    (whole : length f.contents + log.head.block_size ≤ 2 ^ 32) (fuel : ℕ) (calls : ℕ → Reads)
    (good : Reading calls) (b : List ℕ) (sized : length b ≡ log.head.block_size)
    (block_head : BlockHead) (log_offset : ℕ) where
  abbrev at_place : ℕ → ℕ → Iterator
  at_place k o = record {
    block_index = k;
    offset = o;
    block_size = log.head.block_size;
    block_buffer = some b;
    real_size = 0;
    block_head = block_head;
    log_buffer = none;
    log_size = 0;
    log_offset = log_offset;
  }

  -- The block of an offset, and the place in it.
  get_iterator_at_lem :
      (k o : ℕ)
      → o < log.head.block_size
      → k < 2 ^ 32
      → get_iterator_at
          (pos (log.head.data_offset + log.head.block_size * k + o))
          (some b)
          block_head
          log_offset
          log
        ≡ some (at_place k o)
  unfolding get_iterator_at get_iterator
  get_iterator_at_lem k o l w =
      let start = log.head.data_offset in
      let size = log.head.block_size in
      let t : ltb (start + size * k + o) start ≡ false = ground arith in
      let t' : (size == 0) ≡ false = ground arith in
      let d : start + size * k + o - start ≡ size * k + o = omega arith in
      let d' : size * k + o ≡ o + size * k = omega arith in
      let q : (size * k + o) / size ≡ k =
        mul-add-div (omega arith) k o
        ∙ ap (λ r. k + r) (div-eq_of_lt l)
        ∙ (let z : k + 0 ≡ k = omega arith in z) in
      let r : (size * k + o) % size ≡ o =
        ap (λ n. n % size) d' ∙ add-mul-mod_self_left o size k ∙ mod-eq_of_lt l in
      let v : u32 k ≡ k = mod-eq_of_lt w in simp (t, t', d, q, r, v, get_iterator_at)

  -- Next reads the block of the offset.
  place_Synced :
      (k now p o : ℕ)
      → p ≡ log.head.data_offset + log.head.block_size * k
      → Stands p (block_head_bytes host now) f.contents
      → 8 ≤ o
      → o < log.head.block_size
      → (it : Iterator) × (pass host (calls (suc (suc (suc fuel)))) log (at_place k o) ≡ again it)
        × Synced host log f opened small big whole it p o
  unfolding block_start
  place_Synced k now p o e at a l =
      let inside = head_inside host now p f.contents at in
      let c = calls (suc (suc (suc fuel))) in
      let reads = (good (suc (suc (suc fuel)))).1 in
      let start : block_start log k ≡ p =
        ap u32 (sym e) ∙ mod-eq_of_lt (omega (arith, inside, whole)) in
      let at' = subst (λ q. Stands q (block_head_bytes host now) f.contents) (sym start) at in
      let rl = read-Loaded host c log f (at_place k o) b opened reads refl sized small in
      let t : ltb o block_head_size ≡ false = ground arith in
      (
        _,
        pass_load host c log f (at_place k o) b opened reads refl sized small now big at' l refl,
        record {
          loaded = record {
            memory = rl.memory;
            held = rl.held;
            sized = rl.sized;
            real = rl.real;
            same = rl.same;
          };
          range = record {
            below = omega (arith, e, inside, whole);
            loaded = omega (arith, rl.real);
          };
          start = start;
          offset = ap (λ q. if q then block_head_size else o) t;
          size = refl;
        },
      )

  -- From the offset of a log that is in a block.
  Placed-Yields :
      (m : List ℕ) (ys : List (List ℕ))
      → (h : Placed host log.head.block_size f.contents log.head.data_offset m ys)
      → (it : Iterator) × (get_iterator_at (pos (h.2 + h.3)) (some b) block_head log_offset log
          ≡ some it)
        × Yields host log (suc (suc (suc (suc fuel)))) calls it (m ∷ ys)
  unfolding Yields
  Placed-Yields m ys (k, now, p, o, e, head, a, c, at, t) =
      let n = suc (suc (suc fuel)) in
      let s = place_Synced k now p o e head a (omega (arith, c)) in
      let y : k ≤ k * log.head.block_size = le-mul_of_pos_right k (omega arith) in
      let z : k * log.head.block_size ≡ log.head.block_size * k = ground arith in
      let w : k < 2 ^ 32 = omega (arith, e, whole, head_inside host now p f.contents head, y, z) in
      let h =
        loop_log host log f opened small big whole fuel calls s.0 p o m ys good s.2
          (logs m a c at t) in
      (
        at_place k o,
        ap (λ q. get_iterator_at (pos (q + o)) (some b) block_head log_offset log) e
            ∙ get_iterator_at_lem k o (omega (arith, c)) w,
        (
          h.0,
          next-loop host log f opened small big whole (suc n) calls (at_place k o) refl
              ∙ loop_again host n calls log (at_place k o) s.0 s.1
              ∙ h.3,
          h.4,
          trail-Yields host log f opened small big whole (suc fuel) calls h.0 h.1 h.2 ys good h.5
              h.6,
        ),
      )

trail_end :
    {host : Host} {size : ℕ} {file : List ℕ} {p o : ℕ}
    → Trail host size file p o []
    → p + o ≡ length file
trail_end (ends e a b) = e

-- The log at the end of a file is in a block that has a head.
last_place :
    (host : Host) (log : Binlog) (f : File) (ms : List (List ℕ)) (m : List ℕ)
    → Recorded host log.head f.contents (ms ++ (m ∷ []))
    → (h : Placed host log.head.block_size f.contents log.head.data_offset m []) × (h.2
          + h.3
          + (6 + length m)
        ≡ length f.contents)
last_place host log f ms m (inl (none_, e)) =
    absurd (omega (arith, ap length none_, length-append ms (m ∷ [])))
last_place host log f ms m (inr (now, at, t)) =
    let z : log.head.block_size * 0 ≡ 0 = ground arith in
    let h =
      locate host log.head.block_size f.contents log.head.data_offset 0 now log.head.data_offset 8
        ms m [] (omega (arith, z)) at t in
    let last = trail_end h.9 in (h, omega (arith, last))

-- After a Write of a log of at most the block's size less 14 bytes to a file that was made by CreateLog
-- and by writes of such logs, without O_APPEND and at its end, with system calls that succeed and take all, an iterator from GetIterator at the offset
-- that Write returned goes through the new log and nothing else. The blocks have less than 2 GiB, the
-- file ends three blocks before 4 GiB, the iterator's buffer is allocated, the calls of Next succeed,
-- and 4 passes or more are the fuel.
pub get_iterator_at-write :
    (host : Host) (calls : Calls) (m : List ℕ) (log : Binlog) (f : File) (ms : List (List ℕ))
    (fuel : ℕ) (reads : ℕ → Reads) (b : List ℕ) (block_head : BlockHead) (log_offset : ℕ)
    → Ready log f
    → Working calls log.head.block_size
    → 14 + length m ≤ log.head.block_size
    → log.head.block_size < 2 ^ 31
    → length f.contents + 3 * log.head.block_size ≤ 2 ^ 32
    → Recorded host log.head f.contents ms
    → Reading reads
    → length b ≡ log.head.block_size
    → (at : ℕ) × (log' : Binlog) × (it : Iterator) × (write host calls m log
        ≡ returned (pos at) log')
      × (get_iterator_at (pos at) (some b) block_head log_offset log' ≡ some it)
      × Yields host log' (suc (suc (suc (suc fuel)))) reads it (m ∷ [])
get_iterator_at-write host calls m log f ms fuel reads b block_head log_offset ready works fits
      small whole rec good sized =
    let w = write-Recorded host calls m log f ready works fits small ms rec in
    let log' : Binlog = record log { fd = live w.0 } in
    let h = last_place host log' w.0 ms m w.4 in
    let y =
      Placed-Yields host log' w.0 refl small (omega (arith, fits)) (omega (arith, whole, w.6)) fuel
        reads good b sized block_head log_offset m [] h.0 in
    let e : h.0.2 + h.0.3 ≡ w.1 = omega (arith, h.1, w.7) in
    (
      w.1,
      log',
      y.0,
      w.2,
      ap (λ n. get_iterator_at (pos n) (some b) block_head log_offset log') (sym e) ∙ y.1,
      y.2,
    )
