-- ===== src/Binlog/Records.antt =====
-- Binlog::Write of src/Binlog.cc adds a log to those that the file holds.
use mathlib.Core.List.{append_assoc}
use native.Mathlib.Decide.{ℕ_discrete}
use native.Mathlib.Nat.{add-mul-mod_self_left, mod-eq_of_lt}
use libsimplesvr.Base.{
  append_nil, ℕ, zero, suc, ◌+◌, ◌*◌, ◌-◌, ◌^◌, ◌≤◌, ◌<◌, ◌≡◌, ◌⊎◌, inl, inr, refl, sym, ap, subst,
  ◌∙◌, true, false, List, [], ◌∷◌, ◌++◌, length, drop, replicate, length-append, length-drop,
  drop-drop, drop-append_eq, drop-append, arith, ltb, leb, ◌==◌, u32,
}
use libsimplesvr.Base.Int.{pos}
use libsimplesvr.IoBuffer.Bytes.{Host}
use libsimplesvr.Binlog.{Binlog, File, Handle, Head, live, Result, returned, zeros}
use libsimplesvr.Binlog.Writer.{
  Calls, get_log_size, remain_size, log_bytes, start_block, seek_block, write_log, write,
}
use libsimplesvr.Binlog.Words.{block_head_bytes, length-log_bytes, length-block_head_bytes}
use libsimplesvr.Binlog.Wire.{with_block_head_lem}
use libsimplesvr.Binlog.Appends.{Ready, Working, emit-behind, length-zeros}
use libsimplesvr.Binlog.Trail.{Stands, Padded, Trail, ends, logs, turns, extend, Stands-more}

-- The file holds the logs: nothing behind its head, or blocks that have a head, with no log beyond its
-- block.
abbrev pub Recorded : Host → Head → List ℕ → List (List ℕ) → Type 0
Recorded host h file ms =
    ((ms ≡ []) × (length file ≡ h.data_offset))
    ⊎ ((now : ℕ) × Stands h.data_offset (block_head_bytes host now) file
        × Trail host h.block_size file h.data_offset 8 ms)

module _ (host : Host) (calls : Calls) (m : List ℕ) (log : Binlog) (f : File) (ready : Ready log f)
    (works : Working calls log.head.block_size) (fits : 14 + length m ≤ log.head.block_size)
    (small : log.head.block_size < 2 ^ 31) where
  -- The file with bytes behind a gap.
  abbrev longer : ℕ → List ℕ → File
  longer gap bytes = record {
    contents = f.contents ++ (zeros gap ++ bytes);
    position = length f.contents + gap + length bytes;
    append = false;
  }

  abbrev block_bytes : List ℕ
  block_bytes = block_head_bytes host calls.now ++ log_bytes host m

  -- The logs that were there, the new one, and the place that is returned.
  abbrev Wrote : List (List ℕ) → Result → Type 0
  Wrote ms r =
      (f' : File) × (at : ℕ) × (r ≡ returned (pos at) (record log { fd = live f' }))
      × Ready (record log { fd = live f' }) f'
      × Recorded host log.head f'.contents (ms ++ (m ∷ []))
      × Stands at (log_bytes host m) f'.contents
      × (length f'.contents ≤ length f.contents + 2 * log.head.block_size)
      × (at + (6 + length m) ≡ length f'.contents)

  behind :
      (gap : ℕ) (bytes : List ℕ)
      → drop (length f.contents + gap) (longer gap bytes).contents ≡ bytes
  behind gap bytes =
      ap (drop (length f.contents + gap)) (sym (append_assoc f.contents (zeros gap) bytes))
      ∙ drop-append_eq (length f.contents + gap) (f.contents ++ zeros gap) bytes
          (omega (arith, length-append f.contents (zeros gap), length-zeros gap))

  length-longer :
      (gap : ℕ) (bytes : List ℕ)
      → length (longer gap bytes).contents ≡ length f.contents + gap + length bytes
  length-longer gap bytes = omega (
    arith,
    length-append f.contents (zeros gap ++ bytes),
    length-append (zeros gap) bytes,
    length-zeros gap,
  )

  length-block_bytes : length block_bytes ≡ 14 + length m
  length-block_bytes = omega (
    arith,
    length-append (block_head_bytes host calls.now) (log_bytes host m),
    length-log_bytes host m,
    length-block_head_bytes host calls.now,
  )

  -- A new block behind the gap.
  head_Stands :
      (gap : ℕ)
      → Stands
          (length f.contents + gap)
          (block_head_bytes host calls.now)
          (longer gap block_bytes).contents
  head_Stands gap = (log_bytes host m, behind gap block_bytes)

  log_Stands :
      (gap : ℕ)
      → Stands (length f.contents + gap + 8) (log_bytes host m) (longer gap block_bytes).contents
  log_Stands gap = (
    [],
    sym (drop-drop 8 (length f.contents + gap) (longer gap block_bytes).contents)
        ∙ ap (drop 8) (behind gap block_bytes)
        ∙ drop-append_eq 8 (block_head_bytes host calls.now) (log_bytes host m)
            (sym (length-block_head_bytes host calls.now))
        ∙ sym (append_nil (log_bytes host m)),
  )

  block_Trail :
      (gap : ℕ)
      → Trail host log.head.block_size
          (longer gap block_bytes).contents
          (length f.contents + gap)
          (8 + (6 + length m))
          []
  block_Trail gap =
      ends (omega (arith, length-longer gap block_bytes, length-block_bytes)) (omega arith)
        (omega arith)

  start_block_lem :
      (handle : Handle) (position gap offset : ℕ)
      → position ≡ length f.contents + gap
      → start_block host calls m
          (record log { fd = handle })
          (record f { position = position })
          offset
        ≡ returned (pos (offset + 8)) (record log { fd = live (longer gap block_bytes) })
  unfolding start_block
  start_block_lem handle position gap offset e =
      with_block_head_lem host calls.now _ _
      ∙ emit-behind calls _ (record f { position = position }) gap (offset + 8) block_bytes
          log.head.block_size works ready.plain e (omega (arith, length-block_bytes))
          (omega (arith, length-block_bytes))

  -- What remains of the block at the end of the file.
  remain_lem :
      (k o : ℕ)
      → length f.contents ≡ log.head.data_offset + log.head.block_size * k + o
      → o < log.head.block_size
      → remain_size log.head (length f.contents) ≡ log.head.block_size - o
  unfolding remain_size
  remain_lem k o e l =
      let t : leb log.head.data_offset (length f.contents) ≡ true = ground arith in
      let d : length f.contents - log.head.data_offset ≡ o + log.head.block_size * k =
        omega arith in
      rw t (
        rw d (
          ap (λ r. log.head.block_size - r)
            (add-mul-mod_self_left o log.head.block_size k ∙ mod-eq_of_lt l)))

  guards :
      (r : Result)
      → write_log host calls m log f (remain_size log.head (length f.contents)) ≡ r
      → write host calls m log ≡ r
  unfolding write get_log_size
  guards r e =
      let a : ltb log.head.block_size (u32 (6 + length m)) ≡ false = ground arith in
      let b : (log.head.block_size == 0) ≡ false = ground arith in
      simp (ready.opened, works.stats, a, b, write) e

  log_size-gt : (gap : ℕ) → gap < 6 + length m → ltb gap (get_log_size (length m)) ≡ true
  unfolding get_log_size
  log_size-gt gap l = ground arith

  log_size-le : (gap : ℕ) → 6 + length m ≤ gap → ltb gap (get_log_size (length m)) ≡ false
  unfolding get_log_size
  log_size-le gap l = ground arith

  written :
      (gap at : ℕ) (bytes : List ℕ) (ms : List (List ℕ)) (r : Result)
      → r ≡ returned (pos at) (record log { fd = live (longer gap bytes) })
      → Recorded host log.head (longer gap bytes).contents (ms ++ (m ∷ []))
      → Stands at (log_bytes host m) (longer gap bytes).contents
      → gap + length bytes ≤ 2 * log.head.block_size
      → at + (6 + length m) ≡ length f.contents + gap + length bytes
      → Wrote ms r
  written gap at bytes ms r e rec s grown last = (
    longer gap bytes,
    at,
    e,
    record { opened = refl; plain = refl; at_end = omega (arith, length-longer gap bytes) },
    rec,
    s,
    omega (arith, length-longer gap bytes),
    omega (arith, last, length-longer gap bytes),
  )

  -- The log starts a block, at the file's end or behind the rest of a block.
  write-full :
      (ms : List (List ℕ))
      → remain_size log.head (length f.contents) ≡ log.head.block_size
      → Recorded host log.head (longer 0 block_bytes).contents (ms ++ (m ∷ []))
      → Wrote ms (write host calls m log)
  unfolding write_log
  write-full ms e rec =
      written 0 (length f.contents + 8) block_bytes ms _
        (guards _ (
          subst Goal (sym e) (
            rw test (
              start_block_lem log.fd f.position 0 (length f.contents)
                (omega (arith, ready.at_end))))))
        rec
        (subst (λ n. Stands (n + 8) (log_bytes host m) (longer 0 block_bytes).contents)
          (omega arith) (log_Stands 0))
        (omega (arith, length-block_bytes)) (omega (arith, length-block_bytes))
    where
      size : ℕ
      size = log.head.block_size

      test : (size == size) ≡ true
      test = ground arith

      Goal : ℕ → Type 0
      Goal g =
          write_log host calls m log f g
          ≡ returned (pos (length f.contents + 8)) (record log { fd = live (longer 0 block_bytes) })

  write-seek :
      (ms : List (List ℕ)) (gap : ℕ)
      → remain_size log.head (length f.contents) ≡ gap
      → gap < log.head.block_size
      → gap < 6 + length m
      → Recorded host log.head (longer gap block_bytes).contents (ms ++ (m ∷ []))
      → Wrote ms (write host calls m log)
  unfolding write_log seek_block
  write-seek ms gap e l l' rec =
      written gap (length f.contents + gap + 8) block_bytes ms _
        (guards _ (subst Goal (sym e) chosen)) rec (log_Stands gap)
        (omega (arith, length-block_bytes)) (omega (arith, length-block_bytes))
    where
      moved : File
      moved = record f { position = f.position + gap }

      Goal : ℕ → Type 0
      Goal g =
          write_log host calls m log f g
          ≡ returned (pos (length f.contents + gap + 8))
              (record log { fd = live (longer gap block_bytes) })

      first : (gap == log.head.block_size) ≡ false
      first = ground arith

      second : ltb gap (get_log_size (length m)) ≡ true
      second = log_size-gt gap l'

      chosen : Goal gap
      chosen =
          simp (first, second, works.seeks, write_log, seek_block)
            (start_block_lem (live moved) (f.position + gap) gap (length f.contents + gap)
              (omega (arith, ready.at_end)))

  write-behind :
      (ms : List (List ℕ)) (gap : ℕ)
      → remain_size log.head (length f.contents) ≡ gap
      → gap < log.head.block_size
      → 6 + length m ≤ gap
      → Recorded host log.head (longer 0 (log_bytes host m)).contents (ms ++ (m ∷ []))
      → Wrote ms (write host calls m log)
  unfolding write_log
  write-behind ms gap e l l' rec =
      written 0 (length f.contents) (log_bytes host m) ms _ (guards _ (subst Goal (sym e) chosen))
        rec
        (
          [],
          ap (λ n. drop n (longer 0 (log_bytes host m)).contents)
                (let z : length f.contents ≡ length f.contents + 0 = omega arith in z)
              ∙ behind 0 (log_bytes host m)
              ∙ sym (append_nil (log_bytes host m)),
        )
        (omega (arith, length-log_bytes host m)) (omega (arith, length-log_bytes host m))
    where
      Goal : ℕ → Type 0
      Goal g =
          write_log host calls m log f g
          ≡ returned (pos (length f.contents))
              (record log { fd = live (longer 0 (log_bytes host m)) })

      first : (gap == log.head.block_size) ≡ false
      first = ground arith

      second : ltb gap (get_log_size (length m)) ≡ false
      second = log_size-le gap l'

      chosen : Goal gap
      chosen =
          rw (first, second)
            (emit-behind calls log f 0 (length f.contents) (log_bytes host m) log.head.block_size
              works ready.plain (omega (arith, ready.at_end))
              (omega (arith, length-log_bytes host m)) (omega (arith, length-log_bytes host m)))

  remain_full :
      (k : ℕ)
      → length f.contents ≡ log.head.data_offset + log.head.block_size * k + log.head.block_size
      → remain_size log.head (length f.contents) ≡ log.head.block_size
  remain_full k e =
      let next : log.head.block_size * suc k ≡ log.head.block_size * k + log.head.block_size =
        ground arith in
      omega (arith, remain_lem (suc k) 0 (omega (arith, e, next)) (omega arith))

  remain-le :
      log.head.data_offset ≤ length f.contents
      → remain_size log.head (length f.contents) ≤ log.head.block_size
  unfolding remain_size
  remain-le h = ground arith

  -- The place at the file's end, in a block that starts at `p`.
  abbrev AtEnd : ℕ → ℕ → ℕ → Type 0
  AtEnd p o k =
      (p ≡ log.head.data_offset + log.head.block_size * k)
      × (p + o ≡ length f.contents)
      × (8 ≤ o)
      × (o ≤ log.head.block_size)

  turned :
      (p o gap : ℕ)
      → 8 ≤ o
      → length f.contents + gap ≡ p + log.head.block_size
      → (o ≡ log.head.block_size)
        ⊎ ((o < log.head.block_size) × Padded (p + o) (longer gap block_bytes).contents)
      → Trail host log.head.block_size (longer gap block_bytes).contents p o (m ∷ [])
  turned p o gap a e pad =
      subst
        (λ q.
          Stands q (block_head_bytes host calls.now) file
            × Stands (q + 8) (log_bytes host m) file
            × Trail host size file q (8 + (6 + length m)) []
          → Trail host size file p o (m ∷ []))
        (sym e) (λ h. turns calls.now m a pad (omega arith) h.0 h.1 h.2)
        (head_Stands gap, log_Stands gap, block_Trail gap)
    where
      size : ℕ
      size = log.head.block_size

      file : List ℕ
      file = (longer gap block_bytes).contents

  full_end :
      (p o k : ℕ)
      → remain_size log.head (length f.contents) ≡ log.head.block_size
      → AtEnd p o k
      → Trail host log.head.block_size (longer 0 block_bytes).contents p o (m ∷ [])
  full_end p o k e h =
      let o' : o ≡ log.head.block_size = elim (ℕ_discrete o log.head.block_size) [
        | yes q ↦ q
        | no ne ↦
            absurd (omega (arith, remain_lem k o (omega (arith, h)) (omega (arith, h, ne)), h))
      ] in
      turned p o 0 h.2 (omega (arith, h, o')) (inl o')

  short_end :
      (p o k gap : ℕ)
      → remain_size log.head (length f.contents) ≡ gap
      → gap < log.head.block_size
      → AtEnd p o k
      → (o < log.head.block_size) × (gap ≡ log.head.block_size - o)
  short_end p o k gap e l h = elim (ℕ_discrete o log.head.block_size) [
    | yes q ↦ absurd (omega (arith, remain_full k (omega (arith, h, q))))
    | no ne ↦
        let o' : o < log.head.block_size = omega (arith, h, ne) in
        (o', omega (arith, remain_lem k o (omega (arith, h)) o'))
  ]

  zero_first : (gap : ℕ) → 0 < gap → Padded (length f.contents) (longer gap block_bytes).contents
  unfolding zeros
  zero_first zero h = absurd (omega arith)
  zero_first (suc g) h = (
    0,
    (λ e. absurd (omega (arith, e))),
    (replicate g 0 ++ block_bytes, drop-append f.contents _),
  )

  -- The log at the end of a trail that is at the file's end.
  seek_end :
      (p o k gap : ℕ)
      → remain_size log.head (length f.contents) ≡ gap
      → gap < log.head.block_size
      → AtEnd p o k
      → Trail host log.head.block_size (longer gap block_bytes).contents p o (m ∷ [])
  seek_end p o k gap e l h =
      let s = short_end p o k gap e l h in
      turned p o gap h.2 (omega (arith, h, s)) (
        inr (
          s.0,
          subst (λ q. Padded q (longer gap block_bytes).contents) (sym h.1)
              (zero_first gap (omega (arith, s))),
        ))

  log_end :
      (p o k gap : ℕ)
      → remain_size log.head (length f.contents) ≡ gap
      → gap < log.head.block_size
      → 6 + length m ≤ gap
      → AtEnd p o k
      → Trail host log.head.block_size (longer 0 (log_bytes host m)).contents p o (m ∷ [])
  log_end p o k gap e l room h =
      let s = short_end p o k gap e l h in
      logs m h.2 (omega (arith, s))
        (
          [],
          ap (λ n. drop n (longer 0 (log_bytes host m)).contents) (omega (arith, h))
              ∙ behind 0 (log_bytes host m)
              ∙ sym (append_nil (log_bytes host m)),
        )
        (ends (omega (arith, h, length-longer 0 (log_bytes host m), length-log_bytes host m))
          (omega (arith, h)) (omega (arith, s)))

  -- The blocks of a file whose last block is added to.
  more_logs :
      (ms : List (List ℕ)) (now gap : ℕ) (bytes : List ℕ)
      → Stands log.head.data_offset (block_head_bytes host now) f.contents
      → Trail host log.head.block_size f.contents log.head.data_offset 8 ms
      → ((p o k : ℕ)
          → AtEnd p o k
          → Trail host log.head.block_size (longer gap bytes).contents p o (m ∷ []))
      → Recorded host log.head (longer gap bytes).contents (ms ++ (m ∷ []))
  more_logs ms now gap bytes s t h = inr (
    now,
    Stands-more log.head.data_offset (block_head_bytes host now) f.contents (zeros gap ++ bytes)
        (omega (arith, length-block_head_bytes host now)) s,
    extend host log.head.block_size f.contents (zeros gap ++ bytes) log.head.data_offset 8 ms
        (m ∷ []) t (λ p o k e e' a b. h p o k (e, e', a, b)),
  )

  Stands-inside : (at : ℕ) (w file : List ℕ) → 0 < length w → Stands at w file → at ≤ length file
  Stands-inside at w file l (rest, e) =
      omega (arith, length-drop at file, ap length e, length-append w rest)

  -- Write appends a log of at most the block's size less 14 bytes to a file that was made by
  -- CreateLog and by writes of such logs, without O_APPEND and at its end, for blocks smaller than 2 GiB and system calls that succeed and
  -- take all bytes: the file then holds the logs that it held and the new one behind them, the
  -- descriptor is at its end again, the offset that Write returns is where the new log stands, up to
  -- the file's end, and the file has grown by two blocks at most.
  pub write-Recorded :
      (ms : List (List ℕ))
      → Recorded host log.head f.contents ms
      → Wrote ms (write host calls m log)
  write-Recorded ms (inl (none_, e)) =
      let z : log.head.block_size * 0 ≡ 0 = ground arith in
      let q : length f.contents + 0 ≡ log.head.data_offset = omega (arith, e) in
      write-full ms (omega (arith, remain_lem 0 0 (omega (arith, z, e)) (omega arith))) (
        inr (
          calls.now,
          subst (λ q. Stands q (block_head_bytes host calls.now) (longer 0 block_bytes).contents) q
              (head_Stands 0),
          subst
              (λ ns.
                Trail host log.head.block_size (longer 0 block_bytes).contents log.head.data_offset
                  8 (ns ++ (m ∷ [])))
              (sym none_)
              (subst
                (λ q. Trail host log.head.block_size (longer 0 block_bytes).contents q 8 (m ∷ [])) q
                (logs m (omega arith) (omega arith) (log_Stands 0) (block_Trail 0))),
        ))
  write-Recorded ms (inr (now, s, t)) =
      let n = length f.contents in
      let gap = remain_size log.head n in
      let inside =
        Stands-inside log.head.data_offset (block_head_bytes host now) f.contents
          (omega (arith, length-block_head_bytes host now)) s in
      elim (ℕ_discrete gap log.head.block_size) [
        | yes full ↦
            write-full ms full (more_logs ms now 0 block_bytes s t (λ p o k. full_end p o k full))
        | no ne ↦
            let l : gap < log.head.block_size = omega (arith, ne, remain-le inside) in
            elim (ℕ_le gap (5 + length m)) [
              | inl short ↦
                  write-seek ms gap refl l (omega arith)
                    (more_logs ms now gap block_bytes s t (λ p o k. seek_end p o k gap refl l))
              | inr long ↦ write-behind ms gap refl l (omega arith) (
                  more_logs ms now 0 (log_bytes host m) s t
                    (λ p o k. log_end p o k gap refl l (omega arith)))
            ]
      ]
    where
      ℕ_le : (a b : ℕ) → (a ≤ b) ⊎ (suc b ≤ a)
      ℕ_le a b = ground arith
