-- ===== src/IoBuffer/Streams/Strings.antt =====
-- >> and << of std::string in src/IOBuffer.cc.
use libsimplesvr.Base.{
  ℕ, ◌+◌, ◌≤◌, ◌<◌, ◌≡◌, ◌^◌, ◌%◌, refl, List, ◌++◌, ◌∙◌, ap, ap₂, arith, length, take, drop, some,
  u64, length-append, sym,
}
use libsimplesvr.IoBuffer.Bytes.{
  Host, fetch, hton, be_bytes, store-hton, hton-fetch, length-be_bytes,
}
use libsimplesvr.IoBuffer.Buffer.{IoBuffer, returns, throws, splice}
use libsimplesvr.IoBuffer.Buffer.Memory.{load-returns, save-returns, length-splice, splice-splice}
use libsimplesvr.IoBuffer.Streams.{get_string, put_string}
use libsimplesvr.IoBuffer.Streams.Raw.{
  IsValid, read_to, written, need-returns, need-throws, room-returns, room-throws,
}

-- The length on the wire.
abbrev pub header : List ℕ → List ℕ
header val = be_bytes 2 (length val % 2 ^ 16)

module _ (host : Host) {b : List ℕ} {io : IoBuffer} (v : IsValid b io) where
  pub put_string-returns :
      (val : List ℕ)
      → length val < 2 ^ 61
      → io.write_position + (2 + length val) ≤ io.buffer_size
      → put_string host val io ≡ returns tt (written (header val ++ val) b io)
  unfolding put_string
  put_string-returns val small h =
      let wp = io.write_position in
      let len = length val in
      let at : u64 (wp + 2) ≡ wp + 2 = omega (arith, v.writing, v.sized, v.allocated) in
      let end : u64 (wp + 2 + len) ≡ wp + length (header val ++ val) = omega (
        arith,
        v.writing,
        v.sized,
        v.allocated,
        length-append (header val) val,
        length-be_bytes 2 (len % 2 ^ 16),
      ) in
      let two = length-be_bytes 2 (len % 2 ^ 16) in
      let b' = splice wp (header val) b in
      let fits : wp + 2 + len ≤ length b' =
        omega
          (arith, v.sized, two, length-splice wp (header val) b (omega (arith, v.sized, two))) in
      let one : splice (wp + 2) val b' ≡ splice wp (header val ++ val) b =
        ap (λ n. splice (wp + n) val b') (sym two)
        ∙ splice-splice wp (header val) val b (omega (arith, v.sized, two)) in
      rw
        (
          room-returns v (2 + len) (omega arith) h,
          store-hton host 2 (len % 2 ^ 16),
          save-returns wp (header val) io b v.memory (omega (arith, v.sized, two)),
          at,
          save-returns (wp + 2) val (record io { buffer = some b'; write_position = wp + 2 }) b'
              refl fits,
        )
        (ap₂ (λ m p. returns tt (record io { buffer = some m; write_position = p })) one end)

  -- Nothing is written where the text and its length do not fit.
  pub put_string-throws :
      (val : List ℕ)
      → length val < 2 ^ 61
      → io.buffer_size < io.write_position + (2 + length val)
      → put_string host val io ≡ throws io
  unfolding put_string
  put_string-throws val small h = rw (room-throws v (2 + length val) (omega arith) h)

  -- The two bytes at the read position say how many follow.
  module _ (len : ℕ) (short : len < 2 ^ 16)
      (head : take 2 (drop io.read_position b) ≡ be_bytes 2 len)
      (begun : io.read_position + 2 ≤ io.available_read_size) where
    decoded : hton host 2 (fetch host (take 2 (drop io.read_position b))) ≡ len
    decoded = ap (λ bs. hton host 2 (fetch host bs)) head ∙ hton-fetch host 2 len short

    pub get_string-returns :
        io.read_position + (2 + len) ≤ io.available_read_size
        → get_string host io
          ≡ returns (take len (drop (io.read_position + 2) b)) (read_to (2 + len) io)
    unfolding get_string
    get_string-returns h =
        let rp = io.read_position in
        let at : u64 (rp + 2) ≡ rp + 2 = omega (arith, v.reading, v.readable, v.allocated) in
        let end : u64 (rp + 2 + len) ≡ rp + (2 + len) =
          omega (arith, v.reading, v.readable, v.allocated) in
        rw (
          need-returns v 2 (omega arith) begun,
          load-returns rp 2 io b v.memory (omega (arith, v.readable)),
          decoded,
          need-returns v (2 + len) (omega arith) h,
          at,
          load-returns (rp + 2) len (record io { read_position = rp + 2 }) b v.memory
              (omega (arith, v.readable)),
          end,
        )

    -- A text that is cut off is not taken, and neither is its length.
    pub get_string-throws :
        io.available_read_size < io.read_position + (2 + len) → get_string host io ≡ throws io
    unfolding get_string
    get_string-throws h = rw (
      need-returns v 2 (omega arith) begun,
      load-returns io.read_position 2 io b v.memory (omega (arith, v.readable)),
      decoded,
      need-throws v (2 + len) (omega arith) h,
    )

  pub get_string-throws_header :
      io.available_read_size < io.read_position + 2 → get_string host io ≡ throws io
  unfolding get_string
  get_string-throws_header h = rw (need-throws v 2 (omega arith) h)
