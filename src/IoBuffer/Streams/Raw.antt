-- ===== src/IoBuffer/Streams/Raw.antt =====
-- What >> and << of src/IOBuffer.cc do to the buffer, for a value of any size.
use libsimplesvr.Base.{
  ℕ, ◌+◌, ◌≤◌, ◌<◌, ◌≡◌, ◌^◌, List, arith, length, take, drop, some, false, ltb, u64, lt→ltb,
}
use libsimplesvr.IoBuffer.Buffer.{IoBuffer, returns, throws, splice}
use libsimplesvr.IoBuffer.Buffer.Memory.{load-returns, save-returns}
use libsimplesvr.IoBuffer.Streams.{need, room, get_raw, put_raw}

-- A buffer over the memory `b`, with its positions inside of it.
pub record IsValid (b : List ℕ) (io : IoBuffer) : Type 0 where
  pub memory : io.buffer ≡ some b
  pub allocated : length b < 2 ^ 63
  pub sized : io.buffer_size ≤ length b
  pub readable : io.available_read_size ≤ length b
  pub reading : io.read_position ≤ io.available_read_size
  pub writing : io.write_position ≤ io.buffer_size

abbrev pub read_to : ℕ → IoBuffer → IoBuffer
read_to n io = record io { read_position = io.read_position + n }

abbrev pub written : List ℕ → List ℕ → IoBuffer → IoBuffer
written bs b io = record io {
  buffer = some (splice io.write_position bs b);
  write_position = io.write_position + length bs;
}

not-ltb : (a b : ℕ) → b ≤ a → ltb a b ≡ false
not-ltb a b h = ground arith

module _ {b : List ℕ} {io : IoBuffer} (v : IsValid b io) where
  pub need-returns :
      (n : ℕ)
      → n < 2 ^ 62
      → io.read_position + n ≤ io.available_read_size
      → need n io ≡ returns tt io
  unfolding need
  need-returns n small h =
      let e : u64 (io.read_position + n) ≡ io.read_position + n =
        omega (arith, v.reading, v.readable, v.allocated) in
      ground arith

  pub need-throws :
      (n : ℕ) → n < 2 ^ 62 → io.available_read_size < io.read_position + n → need n io ≡ throws io
  unfolding need
  need-throws n small h =
      let e : u64 (io.read_position + n) ≡ io.read_position + n =
        omega (arith, v.reading, v.readable, v.allocated) in
      ground arith

  pub room-returns :
      (n : ℕ) → n < 2 ^ 62 → io.write_position + n ≤ io.buffer_size → room n io ≡ returns tt io
  unfolding room
  room-returns n small h =
      let e : u64 (io.write_position + n) ≡ io.write_position + n =
        omega (arith, v.writing, v.sized, v.allocated) in
      rw (e, not-ltb io.buffer_size (io.write_position + n) h)

  pub room-throws :
      (n : ℕ) → n < 2 ^ 62 → io.buffer_size < io.write_position + n → room n io ≡ throws io
  unfolding room
  room-throws n small h =
      let e : u64 (io.write_position + n) ≡ io.write_position + n =
        omega (arith, v.writing, v.sized, v.allocated) in
      rw (e, lt→ltb io.buffer_size (io.write_position + n) h)

  pub get_raw-returns :
      (n : ℕ)
      → n < 2 ^ 62
      → io.read_position + n ≤ io.available_read_size
      → get_raw n io ≡ returns (take n (drop io.read_position b)) (read_to n io)
  unfolding get_raw
  get_raw-returns n small h =
      let e : u64 (io.read_position + n) ≡ io.read_position + n =
        omega (arith, v.reading, v.readable, v.allocated) in
      rw (
        need-returns n small h,
        load-returns io.read_position n io b v.memory (omega (arith, v.readable)),
        e,
      )

  pub get_raw-throws :
      (n : ℕ)
      → n < 2 ^ 62
      → io.available_read_size < io.read_position + n
      → get_raw n io ≡ throws io
  unfolding get_raw
  get_raw-throws n small h = rw (need-throws n small h)

  pub put_raw-returns :
      (bs : List ℕ)
      → length bs < 2 ^ 62
      → io.write_position + length bs ≤ io.buffer_size
      → put_raw bs io ≡ returns tt (written bs b io)
  unfolding put_raw
  put_raw-returns bs small h =
      let e : u64 (io.write_position + length bs) ≡ io.write_position + length bs =
        omega (arith, v.writing, v.sized, v.allocated) in
      rw (
        room-returns (length bs) small h,
        save-returns io.write_position bs io b v.memory (omega (arith, v.sized)),
        e,
      )

  pub put_raw-throws :
      (bs : List ℕ)
      → length bs < 2 ^ 62
      → io.buffer_size < io.write_position + length bs
      → put_raw bs io ≡ throws io
  unfolding put_raw
  put_raw-throws bs small h = rw (room-throws (length bs) small h)
