-- ===== src/Binlog/Loads.antt =====
-- Binlog::Next of src/Binlog.cc reads a block of a file that is open, and its head.
use mathlib.Core.List.{append_assoc}
use libsimplesvr.Base.{
  ℕ, ◌+◌, ◌-◌, ◌^◌, ◌≤◌, ◌<◌, ◌≡◌, refl, ap, subst, ◌∙◌, true, false, some, List, ◌++◌, min, length,
  take, drop, length-append, length-take, length-drop, take-append, arith, ltb, leb, if◌then◌else◌,
  u32,
}
use libsimplesvr.Base.Int.{pos}
use libsimplesvr.IoBuffer.Bytes.{Host, store, be_bytes}
use libsimplesvr.IoBuffer.Buffer.{splice, poke}
use libsimplesvr.IoBuffer.Buffer.Memory.{length-splice}
use libsimplesvr.Binlog.{Binlog, BlockHead, File, live, block_magic, block_head_size, zeros}
use libsimplesvr.Binlog.Iterators.{Iterator}
use libsimplesvr.Binlog.Reader.{
  returned, Pass, again, done, Reads, block_start, read_file, checked, fill, read_block_head, load,
  refill, pass,
}
use libsimplesvr.Binlog.Words.{block_head_bytes, length-block_head_bytes, get_block_head-returns}
use libsimplesvr.Binlog.Trail.{Stands}
use libsimplesvr.Binlog.Passes.{Loaded, window}

-- Reading a block: an open file, an iterator with a buffer of a block, and pread that succeeds.
module _ (host : Host) (calls : Reads) (log : Binlog) (f : File) (it : Iterator) (b : List ℕ)
    (opened : log.fd ≡ live f) (reads : calls.reads ≡ true) (held : it.block_buffer ≡ some b)
    (sized : length b ≡ log.head.block_size) (small : log.head.block_size < 2 ^ 31) where
  -- What pread gives.
  pub bytes : List ℕ
  bytes = take log.head.block_size (drop (block_start log it.block_index) f.contents)

  abbrev pub read : Iterator
  read = record it { block_buffer = some (splice 0 bytes b); real_size = length bytes }

  pub length-bytes :
      length bytes ≡ min log.head.block_size (length f.contents - block_start log it.block_index)
  unfolding bytes
  length-bytes = omega (
    arith,
    length-take log.head.block_size (drop (block_start log it.block_index) f.contents),
    length-drop (block_start log it.block_index) f.contents,
  )

  pub read-Loaded : Loaded log f.contents read
  unfolding bytes splice
  read-Loaded = record {
    memory = splice 0 bytes b;
    held = refl;
    sized = length-splice 0 bytes b (omega (arith, length-bytes)) ∙ sized;
    real = length-bytes;
    same = take-append bytes (drop (0 + length bytes) b);
  }

  read_file_lem :
      read_file calls.reads log.fd log.head.block_size (block_start log it.block_index) ≡ some bytes
  unfolding bytes read_file
  read_file_lem = rw (reads, opened) refl

  checked_lem :
      (it : Iterator) (rest : Iterator → Pass)
      → 8 ≤ it.real_size
      → it.real_size < 2 ^ 31
      → checked it rest ≡ rest it
  unfolding checked
  checked_lem it rest lo hi = ground arith

  pub fill_lem :
      (rest : Iterator → Pass)
      → 8 ≤ log.head.block_size
      → 8 ≤ length f.contents - block_start log it.block_index
      → fill calls log it rest ≡ rest read
  unfolding fill bytes read_file checked poke
  fill_lem rest big more =
      let n = length-bytes in
      let start = block_start log it.block_index in
      let got : read_file calls.reads log.fd log.head.block_size start ≡ some bytes =
        read_file_lem in
      let t : leb (0 + length bytes) (length b) ≡ true = ground arith in
      let u : u32 (length bytes) ≡ length bytes = omega arith in
      simp (got, held, t, u, fill) (checked_lem read rest (omega arith) (omega arith))

  -- At the file's end there is nothing to read.
  pub fill_end :
      (rest : Iterator → Pass)
      → length f.contents ≤ block_start log it.block_index
      → (it' : Iterator) × (fill calls log it rest ≡ done (returned (pos 0) it'))
  unfolding fill checked poke
  fill_end rest past =
      let start = block_start log it.block_index in
      let got : read_file calls.reads log.fd log.head.block_size start ≡ some bytes =
        read_file_lem in
      let n : length bytes ≡ 0 = omega (arith, length-bytes) in
      let t : leb (0 + length bytes) (length b) ≡ true = ground (arith, n) in
      (
        record it { block_buffer = some (splice 0 bytes b); real_size = 0 },
        simp (got, held, t, fill) (rw n refl),
      )

  -- The head of the block that was read.
  abbrev pub head_of : ℕ → BlockHead
  head_of now = record { magic = block_magic; create_time = u32 now }

  module _ (now : ℕ) (big : 8 ≤ log.head.block_size)
      (at : Stands (block_start log it.block_index) (block_head_bytes host now) f.contents) where
    at_start : Stands (block_start log it.block_index + 0) (block_head_bytes host now) f.contents
    at_start =
        subst (λ p. Stands p (block_head_bytes host now) f.contents)
          (let e : block_start log it.block_index ≡ block_start log it.block_index + 0 =
              omega arith in
            e)
          at

    pub more : 8 ≤ length f.contents - block_start log it.block_index
    more = omega (
      arith,
      ap length at.1,
      length-append (block_head_bytes host now) at.0,
      length-block_head_bytes host now,
      length-drop (block_start log it.block_index) f.contents,
    )

    head_memory : Stands 0 (block_head_bytes host now) (splice 0 bytes b)
    unfolding splice read-Loaded
    head_memory =
        window log f.contents read read-Loaded 0 (block_head_bytes host now)
          (omega (arith, length-block_head_bytes host now))
          (omega (arith, length-block_head_bytes host now)) at_start

    pub read_block_head_lem :
        (rest : Iterator → Pass)
        → read_block_head host log read rest ≡ rest (record read { block_head = head_of now })
    unfolding read_block_head block_head_bytes
    read_block_head_lem rest =
        let long = length-splice 0 bytes b (omega (arith, length-bytes)) in
        let tail = zeros 3 ++ head_memory.0 in
        rw
          (
            get_block_head-returns host (splice 0 bytes b) (length bytes) block_magic (u32 now) tail
                (omega arith) (omega arith) (omega (arith, long))
                (omega (arith, long, length-bytes)) (omega (arith, length-bytes, more))
                (head_memory.1
                  ∙ append_assoc (store host 1 block_magic) (be_bytes 4 (u32 now) ++ zeros 3)
                      head_memory.0
                  ∙ ap (λ q. store host 1 block_magic ++ q)
                      (append_assoc (be_bytes 4 (u32 now)) (zeros 3) head_memory.0)),
            read_block_head,
          )
          refl

    -- A block with a head is entered behind it, or at the offset that was asked for.
    pub load_lem :
        load host calls log it
        ≡ again (record read {
          block_head = head_of now;
          offset = if ltb it.offset block_head_size then block_head_size else it.offset;
        })
    unfolding load
    load_lem = fill_lem _ big more ∙ read_block_head_lem _

    pub pass_load :
        it.offset < log.head.block_size
        → it.real_size ≡ 0
        → pass host calls log it
          ≡ again (record read {
            block_head = head_of now;
            offset = if ltb it.offset block_head_size then block_head_size else it.offset;
          })
    unfolding pass refill
    pass_load within empty =
        let t : leb it.real_size it.offset ≡ true = ground arith in
        let t' : leb log.head.block_size it.offset ≡ false = ground arith in
        let t'' : ltb 0 it.real_size ≡ false = ground arith in
        rw (t, pass) (rw (t', t'', refill) load_lem)
