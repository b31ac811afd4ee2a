-- ===== src/Binlog/ReadBack.antt =====
-- Binlog::Next of src/Binlog.cc gives back what Binlog::Write has written.
use native.Mathlib.Decide.{ℕ_discrete}
use libsimplesvr.Base.{
  ℕ, suc, ◌+◌, ◌*◌, ◌^◌, ◌≤◌, ◌<◌, ◌≡◌, inl, inr, refl, sym, ap, ap₂, subst, ◌∙◌, true, false, none,
  some, List, [], ◌∷◌, length, length-append, length-drop, arith, ltb, u32,
}
use libsimplesvr.Base.Int.{pos}
use libsimplesvr.IoBuffer.Bytes.{Host}
use libsimplesvr.Binlog.{Binlog, BlockHead, File, live}
use libsimplesvr.Binlog.Writer.{log_bytes}
use libsimplesvr.Binlog.Iterators.{Iterator, get_iterator, get_log}
use libsimplesvr.Binlog.Reader.{returned, again, done, Reads, block_start, pass, loop, next}
use libsimplesvr.Binlog.Words.{block_head_bytes, length-block_head_bytes}
use libsimplesvr.Binlog.Trail.{Stands, Trail, ends, logs, turns}
use libsimplesvr.Binlog.Ends.{next_start}
use libsimplesvr.Binlog.Rank.{InRange}
use libsimplesvr.Binlog.Records.{Recorded}
use libsimplesvr.Binlog.Passes.{Loaded, logged, pass_log, pass_pad}
use libsimplesvr.Binlog.Loads.{read-Loaded, pass_load}
use libsimplesvr.Binlog.Fills.{entered, pass_next, pass_past, pass_short, pass_empty}
use libsimplesvr.Binlog.Yields.{Reading, Yields, get_log_lem, loop_again, loop_done}

module _ (host : Host) (log : Binlog) (f : File) (opened : log.fd ≡ live f)
    (small : log.head.block_size < 2 ^ 31) (big : 8 ≤ log.head.block_size)
    (whole : length f.contents + log.head.block_size ≤ 2 ^ 32) where
  -- The iterator has the block that starts at `p` in its buffer, and is at the offset `o` of it.
  pub record Synced (it : Iterator) (p o : ℕ) : Type 0 where
    pub loaded : Loaded log f.contents it
    pub range : InRange log it.block_index it.real_size
    pub start : block_start log it.block_index ≡ p
    pub offset : it.offset ≡ o
    pub size : it.block_size ≡ log.head.block_size

  -- The end of the file.
  pass_end :
      (calls : Reads) (it : Iterator) (p o : ℕ)
      → calls.stats ≡ true
      → calls.reads ≡ true
      → Synced it p o
      → p + o ≡ length f.contents
      → 8 ≤ o
      → o ≤ log.head.block_size
      → (it' : Iterator) × (pass host calls log it ≡ done (returned (pos 0) it'))
  pass_end calls it p o stats reads s e a b = elim (ℕ_discrete o log.head.block_size) [
    | yes q ↦ full q
    | no ne ↦ (it, part (omega (arith, ne)))
  ]
    where
      full :
          o ≡ log.head.block_size
          → (it' : Iterator) × (pass host calls log it ≡ done (returned (pos 0) it'))
      full q =
          let n = next_start log it s.range big in
          pass_past host calls log f it s.loaded.memory opened reads s.loaded.held s.loaded.sized
            small s.range.loaded (rw s.offset q) (rw n.0 (omega (arith, n, s.start, e, q)))

      part : o < log.head.block_size → pass host calls log it ≡ done (returned (pos 0) it)
      part l =
          pass_short host calls log f it opened stats small
            (omega (arith, s.offset, s.loaded.real, s.start, e)) (omega (arith, s.offset))
            (omega (arith, s.offset, s.loaded.real, s.start, e))
            (omega (arith, s.offset, s.start, e)) (omega (arith, s.offset, s.start, e, whole))

  here :
      (it : Iterator) (p o : ℕ) (w : List ℕ)
      → Synced it p o
      → Stands (p + o) w f.contents
      → Stands (block_start log it.block_index + it.offset) w f.contents
  here it p o w s =
      subst (λ n. Stands n w f.contents) (ap₂ (λ x y. x + y) (sym s.start) (sym s.offset))

  -- One log that stands at the offset.
  loop_here :
      (k : ℕ) (calls : ℕ → Reads) (it : Iterator) (p o : ℕ) (m : List ℕ)
      → Synced it p o
      → o + (6 + length m) ≤ log.head.block_size
      → Stands (p + o) (log_bytes host m) f.contents
      → (it' : Iterator) × (loop host (suc k) calls log it ≡ returned (pos (6 + length m)) it')
        × (get_log it' ≡ some m)
        × Synced it' p (o + (6 + length m))
  loop_here k calls it p o m s b at =
      let l = s.loaded in
      let fits : it.offset + (6 + length m) ≤ log.head.block_size = omega (arith, s.offset) in
      let at' = here it p o (log_bytes host m) s at in
      (
        logged log f.contents it l host (calls k) m small fits at',
        loop_done host k calls log it _
            (pass_log log f.contents it l host (calls k) m small fits at'),
        get_log_lem host log f it s.loaded (calls k) m small fits at',
        record {
          loaded = record {
            memory = l.memory;
            held = l.held;
            sized = l.sized;
            real = l.real;
            same = l.same;
          };
          range = s.range;
          start = s.start;
          offset = ap (λ n. n + (6 + length m)) s.offset;
          size = s.size;
        },
      )

  -- A log behind the next block's head.
  loop_turn :
      (k : ℕ) (calls : ℕ → Reads) (it : Iterator) (p now : ℕ) (m : List ℕ)
      → Reading calls
      → Synced it p log.head.block_size
      → 8 + (6 + length m) ≤ log.head.block_size
      → Stands (p + log.head.block_size) (block_head_bytes host now) f.contents
      → Stands (p + log.head.block_size + 8) (log_bytes host m) f.contents
      → (it' : Iterator) × (loop host (suc (suc k)) calls log it
          ≡ returned (pos (6 + length m)) it')
        × (get_log it' ≡ some m)
        × Synced it' (p + log.head.block_size) (8 + (6 + length m))
  loop_turn k calls it p now m good s b head at =
      let n = next_start log it s.range big in
      let head' : Stands (block_start log it.block_index + log.head.block_size)
          (block_head_bytes host now) f.contents =
        subst (λ q. Stands (q + log.head.block_size) (block_head_bytes host now) f.contents)
          (sym s.start) head in
      let it' =
        entered host (calls (suc k)) log f it s.loaded.memory opened (good (suc k)).1 s.loaded.held
          s.loaded.sized small s.range now big head' s.offset in
      let step =
        pass_next host (calls (suc k)) log f it s.loaded.memory opened (good (suc k)).1
          s.loaded.held s.loaded.sized small s.range now big head' s.offset in
      let rl =
        read-Loaded host (calls (suc k)) log f
          (record it { block_index = u32 (it.block_index + 1) }) s.loaded.memory opened
          (good (suc k)).1 s.loaded.held s.loaded.sized small in
      let more : p + log.head.block_size < length f.contents = omega (
        arith,
        ap length head.1,
        length-append (block_head_bytes host now) head.0,
        length-block_head_bytes host now,
        length-drop (p + log.head.block_size) f.contents,
      ) in
      let synced : Synced it' (p + log.head.block_size) 8 = record {
        loaded = record {
          memory = rl.memory;
          held = rl.held;
          sized = rl.sized;
          real = rl.real;
          same = rl.same;
        };
        range = record {
          below = rw n.0 (omega (arith, n, s.start, more, whole));
          loaded = omega (arith, rl.real);
        };
        start = ap (block_start log) n.0 ∙ n.1 ∙ ap (λ q. q + log.head.block_size) s.start;
        offset = refl;
        size = s.size;
      } in
      let rest = loop_here k calls it' (p + log.head.block_size) 8 m synced b at in
      (rest.0, loop_again host (suc k) calls log it it' step ∙ rest.1, rest.2, rest.3)

  -- The next log.
  pub loop_log :
      (k : ℕ) (calls : ℕ → Reads) (it : Iterator) (p o : ℕ) (m : List ℕ) (ms : List (List ℕ))
      → Reading calls
      → Synced it p o
      → Trail host log.head.block_size f.contents p o (m ∷ ms)
      → (it' : Iterator) × (p' : ℕ) × (o' : ℕ) × (loop host (suc (suc (suc k))) calls log it
          ≡ returned (pos (6 + length m)) it')
        × (get_log it' ≡ some m)
        × Synced it' p' o'
        × Trail host log.head.block_size f.contents p' o' ms
  loop_log k calls it p o m ms good s (logs _ a b at t) =
      let h = loop_here (suc (suc k)) calls it p o m s b at in (h.0, p, _, h.1, h.2, h.3, t)
  loop_log k calls it p o m ms good s (turns now _ a pad b head at t) = elim pad [
    | inl e ↦
        let h = loop_turn (suc k) calls it p now m good (subst (Synced it p) e s) b head at in
        (h.0, p + log.head.block_size, _, h.1, h.2, h.3, t)
    | inr (l, pad') ↦
        let it₁ : Iterator = record it { offset = log.head.block_size } in
        let step =
          pass_pad log f.contents it s.loaded host (calls (suc (suc k)))
            (omega (arith, s.offset, l)) small
            (pad'.0, pad'.1, here it p o (pad'.0 ∷ []) s pad'.2) in
        let s₁ : Synced it₁ p log.head.block_size = record {
          loaded = record {
            memory = s.loaded.memory;
            held = s.loaded.held;
            sized = s.loaded.sized;
            real = s.loaded.real;
            same = s.loaded.same;
          };
          range = s.range;
          start = s.start;
          offset = refl;
          size = s.size;
        } in
        let h = loop_turn k calls it₁ p now m good s₁ b head at in
        (
          h.0,
          p + log.head.block_size,
          _,
          loop_again host (suc (suc k)) calls log it it₁ step ∙ h.1,
          h.2,
          h.3,
          t,
        )
  ]

  pub next-loop :
      (fuel : ℕ) (calls : ℕ → Reads) (it : Iterator)
      → it.block_size ≡ log.head.block_size
      → next host fuel calls log it ≡ loop host fuel calls log it
  unfolding next
  next-loop fuel calls it e =
      let t : ltb it.block_size log.head.block_size ≡ false = ground arith in rw (t, next) refl

  pub trail-Yields :
      (k : ℕ) (calls : ℕ → Reads) (it : Iterator) (p o : ℕ) (ms : List (List ℕ))
      → Reading calls
      → Synced it p o
      → Trail host log.head.block_size f.contents p o ms
      → Yields host log (suc (suc (suc k))) calls it ms
  unfolding Yields
  trail-Yields k calls it p o [] good s (ends e a b) =
      let n = suc (suc k) in
      let h = pass_end (calls n) it p o (good n).0 (good n).1 s e a b in
      (h.0, next-loop (suc n) calls it s.size ∙ loop_done host n calls log it _ h.1)
  trail-Yields k calls it p o (m ∷ ms) good s t =
      let h = loop_log k calls it p o m ms good s t in
      (
        h.0,
        next-loop (suc (suc (suc k))) calls it s.size ∙ h.3,
        h.4,
        trail-Yields k calls h.0 h.1 h.2 ms good h.5 h.6,
      )

  -- The logs that a file holds, from its start.
  module _ (k : ℕ) (calls : ℕ → Reads) (good : Reading calls) (b : List ℕ)
      (sized : length b ≡ log.head.block_size) (block_head : BlockHead) (log_offset : ℕ) where
    abbrev iter : Iterator
    iter = record {
      block_index = 0;
      offset = 0;
      block_size = log.head.block_size;
      block_buffer = some b;
      real_size = 0;
      block_head = block_head;
      log_buffer = none;
      log_size = 0;
      log_offset = log_offset;
    }

    start_lem : log.head.data_offset ≤ length f.contents → block_start log 0 ≡ log.head.data_offset
    unfolding block_start
    start_lem h = let z : log.head.block_size * 0 ≡ 0 = ground arith in omega (arith, z, whole)

    first_Synced :
        (now : ℕ)
        → Stands log.head.data_offset (block_head_bytes host now) f.contents
        → (it' : Iterator) × (pass host (calls (suc (suc (suc k)))) log iter ≡ again it')
          × Synced it' log.head.data_offset 8
    first_Synced now at =
        let inside : log.head.data_offset + 8 ≤ length f.contents = omega (
          arith,
          ap length at.1,
          length-append (block_head_bytes host now) at.0,
          length-block_head_bytes host now,
          length-drop log.head.data_offset f.contents,
        ) in
        let e = start_lem (omega (arith, inside)) in
        let c = calls (suc (suc (suc k))) in
        let reads = (good (suc (suc (suc k)))).1 in
        let at' = subst (λ q. Stands q (block_head_bytes host now) f.contents) (sym e) at in
        let rl = read-Loaded host c log f iter b opened reads refl sized small in
        let z : log.head.block_size * 0 ≡ 0 = ground arith in
        (
          _,
          pass_load host c log f iter b opened reads refl sized small now big at' (omega arith)
              refl,
          record {
            loaded = record {
              memory = rl.memory;
              held = rl.held;
              sized = rl.sized;
              real = rl.real;
              same = rl.same;
            };
            range = record {
              below = omega (arith, z, inside, whole);
              loaded = omega (arith, rl.real);
            };
            start = e;
            offset = refl;
            size = refl;
          },
        )

    -- An iterator from GetIterator() over an open file of logs that Write has made goes through
    -- exactly these logs, in their order: each Next returns the size of the next one, whose bytes
    -- GetBuffer then gives, and behind the last one Next returns 0. The blocks have at least 8 bytes
    -- and less than 2 GiB, the file ends a block before 4 GiB, the iterator's buffer is allocated,
    -- the calls of Next succeed, and 4 passes or more are the fuel.
    pub Recorded-Yields :
        (ms : List (List ℕ))
        → Recorded host log.head f.contents ms
        → Yields host log
            (suc (suc (suc (suc k))))
            calls
            (get_iterator (some b) block_head log_offset log)
            ms
    unfolding Yields get_iterator
    Recorded-Yields ms (inl (none_, e)) =
        let n = suc (suc (suc k)) in
        let h =
          pass_empty host (calls n) log f iter b opened (good n).1 refl sized small refl
            (omega arith) (omega (arith, start_lem (omega (arith, e)), e)) in
        rw none_ (h.0, next-loop (suc n) calls iter refl ∙ loop_done host n calls log iter _ h.1)
    Recorded-Yields [] (inr (now, at, ends e a b')) =
        let n = suc (suc (suc k)) in
        let s = first_Synced now at in
        let h =
          pass_end (calls (suc (suc k))) s.0 log.head.data_offset 8 (good (suc (suc k))).0
            (good (suc (suc k))).1 s.2 e a b' in
        (
          h.0,
          next-loop (suc n) calls iter refl
              ∙ loop_again host n calls log iter s.0 s.1
              ∙ loop_done host (suc (suc k)) calls log s.0 _ h.1,
        )
    Recorded-Yields (m ∷ ms) (inr (now, at, t)) =
        let n = suc (suc (suc k)) in
        let s = first_Synced now at in
        let h = loop_log k calls s.0 log.head.data_offset 8 m ms good s.2 t in
        (
          h.0,
          next-loop (suc n) calls iter refl ∙ loop_again host n calls log iter s.0 s.1 ∙ h.3,
          h.4,
          trail-Yields (suc k) calls h.0 h.1 h.2 ms good h.5 h.6,
        )
