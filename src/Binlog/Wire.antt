-- ===== src/Binlog/Wire.antt =====
-- The bytes of a log, through the operators that src/Binlog.cc calls.
use mathlib.Core.List.{append_assoc}
use libsimplesvr.Base.{
  ℕ, ◌+◌, ◌^◌, ◌≤◌, ◌<◌, ◌≡◌, ◌∙◌, refl, sym, ap, false, some, List, [], ◌∷◌, ◌++◌, u32, u64,
  length, drop, length-append, drop-append_eq, arith, ltb,
}
use libsimplesvr.Base.Int.{pos}
use libsimplesvr.IoBuffer.Bytes.{Host, store, be_bytes, store-hton, length-be_bytes, length-store}
use libsimplesvr.IoBuffer.Buffer.{
  IoBuffer, returns, read_seek, splice, io_buffer_for, io_buffer_over,
}
use libsimplesvr.IoBuffer.Buffer.Memory.{splice-splice}
use libsimplesvr.IoBuffer.Streams.{get_byte, put_byte, put_uint32}
use libsimplesvr.IoBuffer.Streams.Raw.{IsValid, read_to, written}
use libsimplesvr.IoBuffer.Codec.{Field, put}
use libsimplesvr.IoBuffer.Codec.Fields.{wire, put-returns}
use libsimplesvr.IoBuffer.Codec.RoundTrip.{written-IsValid}
use libsimplesvr.Binlog.{Binlog, Result, block_magic, block_head_size, zeros, put_block_head}
use libsimplesvr.Binlog.Writer.{log_bytes, start_magic, end_magic, with_block_head}
use libsimplesvr.Binlog.Words.{block_head_bytes, get_byte-returns, store_byte}

-- A log's start, and what is behind its bytes.
pub log_bytes-front :
    (host : Host) (m rest : List ℕ)
    → length m < 2 ^ 32
    → log_bytes host m ++ rest
      ≡ store host 1 start_magic ++ (be_bytes 4 (length m) ++ (m ++ (end_magic ∷ rest)))
unfolding log_bytes
log_bytes-front host m rest h =
    let e : u32 (length m) ≡ length m = omega arith in
    rw (store_byte host start_magic (omega arith), store-hton host 4 (u32 (length m)), e)
      (ap (◌∷◌ start_magic) (
        append_assoc (be_bytes 4 (length m)) (m ++ (end_magic ∷ [])) rest
        ∙ ap (λ q. be_bytes 4 (length m) ++ q) (append_assoc m (end_magic ∷ []) rest)))

drop-log_bytes :
    (host : Host) (m rest : List ℕ)
    → length m < 2 ^ 32
    → drop (5 + length m) (log_bytes host m ++ rest) ≡ store host 1 end_magic ++ rest
drop-log_bytes host m rest h =
    let word = be_bytes 4 (length m) in
    let one = length-store host 1 start_magic in
    let four = length-be_bytes 4 (length m) in
    ap (drop (5 + length m)) (log_bytes-front host m rest h)
    ∙ ap (drop (5 + length m)) (
        sym (append_assoc (store host 1 start_magic) word (m ++ (end_magic ∷ rest)))
        ∙ sym (append_assoc (store host 1 start_magic ++ word) m (end_magic ∷ rest)))
    ∙ drop-append_eq (5 + length m) ((store host 1 start_magic ++ word) ++ m) (end_magic ∷ rest) (
        omega (
          arith,
          one,
          four,
          length-append (store host 1 start_magic) word,
          length-append (store host 1 start_magic ++ word) m,
        ))
    ∙ ap (λ q. q ++ rest) (sym (store_byte host end_magic (omega arith)))

-- The mark behind a log's bytes, where the reader is behind the length.
pub end_byte-returns :
    (host : Host) (b m rest : List ℕ) (size : ℕ)
    → length b < 2 ^ 62
    → size ≤ length b
    → 6 + length m ≤ size
    → length m < 2 ^ 32
    → b ≡ log_bytes host m ++ rest
    → (io : IoBuffer) × (get_byte host (
          read_seek
            (pos (length m))
            (record (io_buffer_over (some b) size size) { read_position = 5 }))
        ≡ returns end_magic io)
unfolding read_seek io_buffer_over
end_byte-returns host b m rest size bound inside fits whole at =
    let n = length m in
    let e : u64 (5 + n) ≡ 5 + n = omega arith in
    let t : ltb size (5 + n) ≡ false = ground arith in
    let v : IsValid b (record (io_buffer_over (some b) size size) { read_position = 5 + n }) =
      record {
        memory = refl;
        allocated = omega arith;
        sized = inside;
        readable = inside;
        reading = omega arith;
        writing = omega arith;
      } in
    let r = record (io_buffer_over (some b) size size) { read_position = 5 + n } in
    (
      read_to 1 r,
      rw (e, t)
          (get_byte-returns host v end_magic rest (omega arith)
            (ap (drop (5 + n)) at ∙ drop-log_bytes host m rest (omega (arith, whole)))
            (omega arith)),
    )

module _ (host : Host) (now : ℕ) where
  abbrev fresh : IoBuffer
  fresh = io_buffer_for (some (zeros block_head_size)) block_head_size

  fresh-IsValid : IsValid (zeros 8) fresh
  unfolding io_buffer_for io_buffer_over zeros
  fresh-IsValid = record {
    memory = refl;
    allocated = omega arith;
    sized = omega arith;
    readable = omega arith;
    reading = omega arith;
    writing = omega arith;
  }

  magic_word : List ℕ
  magic_word = store host 1 block_magic

  time_word : List ℕ
  time_word = be_bytes 4 (u32 now)

  first_put : put_byte host block_magic fresh ≡ returns tt (written magic_word (zeros 8) fresh)
  unfolding put wire io_buffer_for io_buffer_over magic_word
  first_put =
      put-returns host fresh-IsValid (Field.byte block_magic) (omega arith)
        (omega (arith, length-store host 1 block_magic))

  second_put :
      put_uint32 host (u32 now) (written magic_word (zeros 8) fresh)
      ≡ returns tt
          (written time_word (splice 0 magic_word (zeros 8)) (written magic_word (zeros 8) fresh))
  unfolding put wire io_buffer_for io_buffer_over magic_word time_word
  second_put =
      let one = length-store host 1 block_magic in
      let four = length-be_bytes 4 (u32 now) in
      put-returns host (written-IsValid fresh-IsValid magic_word (omega (arith, one)))
        (Field.uint32 (u32 now)) (omega arith) (omega (arith, one, four))

  head_bytes_lem :
      splice (0 + length magic_word) time_word (splice 0 magic_word (zeros 8))
      ≡ block_head_bytes host now
  unfolding time_word magic_word block_head_bytes zeros splice
  head_bytes_lem =
      let one = length-store host 1 block_magic in
      let four = length-be_bytes 4 (u32 now) in
      let five : 0 + length (magic_word ++ time_word) ≡ 5 =
        omega (arith, one, four, length-append magic_word time_word) in
      splice-splice 0 magic_word time_word (zeros 8) (omega (arith, one))
      ∙ append_assoc magic_word time_word (drop (0 + length (magic_word ++ time_word)) (zeros 8))
      ∙ ap (λ n. magic_word ++ (time_word ++ drop n (zeros 8))) five

  put_block_head-returns :
      put_block_head host (record { magic = block_magic; create_time = u32 now }) fresh
      ≡ returns tt
          (written time_word (splice 0 magic_word (zeros 8)) (written magic_word (zeros 8) fresh))
  unfolding put_block_head
  put_block_head-returns = rw (first_put, second_put) refl

  pub with_block_head_lem :
      (log : Binlog) (rest : List ℕ → Result)
      → with_block_head host now log rest ≡ rest (block_head_bytes host now)
  unfolding with_block_head io_buffer_for io_buffer_over
  with_block_head_lem log rest =
      rw (put_block_head-returns, with_block_head) (ap rest head_bytes_lem)
