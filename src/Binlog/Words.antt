-- ===== src/Binlog/Words.antt =====
-- The head of a block of src/Binlog.cc as bytes, and a byte and a word that are read.
use libsimplesvr.Base.{
  ℕ, ◌+◌, ◌%◌, ◌^◌, ◌≤◌, ◌<◌, ◌≡◌, ◌∙◌, refl, sym, ap, some, List, [], ◌∷◌, ◌++◌, u32, length, drop,
  length-append, drop-append_eq, arith,
}
use libsimplesvr.IoBuffer.Bytes.{
  Host, little, big, le_bytes, store, hton, be_bytes, hton-fetch, length-be_bytes, length-store,
  fetch-store,
}
use libsimplesvr.IoBuffer.Buffer.{IoBuffer, returns, io_buffer_over}
use libsimplesvr.IoBuffer.Streams.{get_byte, get_uint16, get_uint32}
use libsimplesvr.IoBuffer.Streams.Raw.{IsValid, read_to}
use libsimplesvr.IoBuffer.Codec.Fields.{raw}
use libsimplesvr.IoBuffer.Codec.RoundTrip.{read_to-IsValid}
use libsimplesvr.Binlog.{block_magic, zeros, get_block_head}
use libsimplesvr.Binlog.Writer.{log_bytes, end_magic}
use libsimplesvr.Binlog.Reader.{get_log_head}

-- The bytes of a block's head.
unfoldable pub block_head_bytes : Host → ℕ → List ℕ
block_head_bytes host now = store host 1 block_magic ++ (be_bytes 4 (u32 now) ++ zeros 3)

pub length-log_bytes : (host : Host) (m : List ℕ) → length (log_bytes host m) ≡ 6 + length m
unfolding log_bytes
length-log_bytes host m = omega (
  arith,
  length-append (store host 4 (hton host 4 (u32 (length m)))) (m ++ (end_magic ∷ [])),
  length-append m (end_magic ∷ []),
  length-store host 4 (hton host 4 (u32 (length m))),
)

pub length-block_head_bytes : (host : Host) (now : ℕ) → length (block_head_bytes host now) ≡ 8
unfolding block_head_bytes zeros
length-block_head_bytes host now = omega (
  arith,
  length-append (store host 1 block_magic) (be_bytes 4 (u32 now) ++ zeros 3),
  length-append (be_bytes 4 (u32 now)) (zeros 3),
  length-store host 1 block_magic,
  length-be_bytes 4 (u32 now),
)

module _ (host : Host) {b : List ℕ} {io : IoBuffer} (v : IsValid b io) where
  pub get_byte-returns :
      (x : ℕ) (rest : List ℕ)
      → x < 256
      → drop io.read_position b ≡ store host 1 x ++ rest
      → io.read_position + 1 ≤ io.available_read_size
      → get_byte host io ≡ returns x (read_to 1 io)
  unfolding get_byte
  get_byte-returns x rest h at fits =
      rw (raw host v (store host 1 x) rest 1 (sym (length-store host 1 x)) (omega arith) at fits)
        (ap (λ n. returns n (read_to 1 io)) (fetch-store host 1 x (omega arith)))

  pub get_uint16-returns :
      (n : ℕ) (rest : List ℕ)
      → n < 2 ^ 16
      → drop io.read_position b ≡ be_bytes 2 n ++ rest
      → io.read_position + 2 ≤ io.available_read_size
      → get_uint16 host io ≡ returns n (read_to 2 io)
  unfolding get_uint16
  get_uint16-returns n rest h at fits =
      rw (raw host v (be_bytes 2 n) rest 2 (sym (length-be_bytes 2 n)) (omega arith) at fits)
        (ap (λ n. returns n (read_to 2 io)) (hton-fetch host 2 n (omega arith)))

  pub get_uint32-returns :
      (n : ℕ) (rest : List ℕ)
      → n < 2 ^ 32
      → drop io.read_position b ≡ be_bytes 4 n ++ rest
      → io.read_position + 4 ≤ io.available_read_size
      → get_uint32 host io ≡ returns n (read_to 4 io)
  unfolding get_uint32
  get_uint32-returns n rest h at fits =
      rw (raw host v (be_bytes 4 n) rest 4 (sym (length-be_bytes 4 n)) (omega arith) at fits)
        (ap (λ n. returns n (read_to 4 io)) (hton-fetch host 4 n (omega arith)))

-- A byte and a uint32_t in memory, read at the start of a buffer over it.
module _ (host : Host) (b : List ℕ) (size x n : ℕ) (rest : List ℕ) (small : x < 256)
    (word : n < 2 ^ 32) (bound : length b < 2 ^ 63) (inside : size ≤ length b) (five : 5 ≤ size)
    (at : b ≡ store host 1 x ++ (be_bytes 4 n ++ rest)) where
  buffer : IoBuffer
  unfolding io_buffer_over
  buffer = io_buffer_over (some b) size size

  buffer-IsValid : IsValid b buffer
  unfolding buffer
  buffer-IsValid = record {
    memory = refl;
    allocated = bound;
    sized = inside;
    readable = inside;
    reading = omega arith;
    writing = omega arith;
  }

  byte_first : get_byte host buffer ≡ returns x (read_to 1 buffer)
  unfolding buffer
  byte_first = get_byte-returns host buffer-IsValid x _ small at (omega arith)

  word_next : get_uint32 host (read_to 1 buffer) ≡ returns n (read_to 4 (read_to 1 buffer))
  unfolding buffer
  word_next =
      get_uint32-returns host (read_to-IsValid buffer-IsValid 1 (omega arith)) n rest word
        (ap (drop 1) at
          ∙ drop-append_eq 1 (store host 1 x) (be_bytes 4 n ++ rest) (sym (length-store host 1 x)))
        (omega arith)

  pub get_log_head-returns :
      get_log_head host (io_buffer_over (some b) size size)
      ≡ returns n (record (io_buffer_over (some b) size size) { read_position = 5 })
  unfolding get_log_head buffer
  get_log_head-returns = rw (byte_first, word_next) refl

  pub get_block_head-returns :
      get_block_head host (io_buffer_over (some b) size size)
      ≡ returns
          (record { magic = x; create_time = n })
          (record (io_buffer_over (some b) size size) { read_position = 5 })
  unfolding get_block_head buffer
  get_block_head-returns = rw (byte_first, word_next) refl

pub store_byte : (host : Host) (x : ℕ) → x < 256 → store host 1 x ≡ x ∷ []
unfolding store le_bytes be_bytes
store_byte little x h = let e : x % 256 ≡ x = omega arith in rw e refl
store_byte big x h = let e : x % 256 ≡ x = omega arith in rw e refl
