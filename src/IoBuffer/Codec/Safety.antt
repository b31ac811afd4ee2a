-- ===== src/IoBuffer/Codec/Safety.antt =====
-- No overload of >> or << of src/IOBuffer.cc leaves the buffer's memory, whatever its content is,
-- and a text whose length does not fit sixteen bits is not what is read back.
use libsimplesvr.Base.{
  ℕ, ◌+◌, ◌^◌, ◌<◌, ◌≤◌, ◌≡◌, inl, inr, refl, sym, subst, List, length, arith, take, drop,
  Bool-cases, leb, length-take, length-drop,
}
use libsimplesvr.IoBuffer.Bytes.{
  Host, fetch, hton, be_bytes, be_bytes_onto, hton-lt, IsBytes, radix,
}
use libsimplesvr.IoBuffer.Buffer.{IoBuffer, Outcome, returns, throws, faults, ◌>>=◌, pure}
use libsimplesvr.IoBuffer.Buffer.Memory.{take-IsBytes, drop-IsBytes}
use libsimplesvr.IoBuffer.Streams.{
  get_raw, get_string, get_byte, get_uint16, get_int16, get_uint32, get_int32, get_uint64,
  get_int64,
}
use libsimplesvr.IoBuffer.Streams.Raw.{IsValid, get_raw-returns, get_raw-throws}
use libsimplesvr.IoBuffer.Streams.Strings.{
  get_string-returns, get_string-throws, get_string-throws_header,
}
use libsimplesvr.IoBuffer.Codec.{Field, Kind, get}
use libsimplesvr.IoBuffer.Codec.RoundTrip.{read_to-IsValid}

-- The call returns with a valid buffer over the same memory, or throws and has changed nothing.
abbrev pub ReadsSafely : {A : Type 0} → List ℕ → IoBuffer → Outcome A → Type 0
ReadsSafely b io (returns a io') = IsValid b io' × (io.read_position ≤ io'.read_position)
ReadsSafely b io (throws io') = io' ≡ io
ReadsSafely b io faults = ⊥

module _ {b : List ℕ} {io : IoBuffer} (v : IsValid b io) where
  raw-ReadsSafely :
      {A : Type 0} (n : ℕ) (d : List ℕ → A) (k : A → Field)
      → n < 2 ^ 62
      → ReadsSafely b io (((get_raw n >>= λ bs. pure (d bs)) >>= λ a. pure (k a)) io)
  raw-ReadsSafely n d k small =
      elim (Bool-cases (leb (io.read_position + n) io.available_read_size)) [
        | inl e ↦
            rw (get_raw-returns v n small (ground arith))
              (read_to-IsValid v n (ground arith), omega arith)
        | inr e ↦ rw (get_raw-throws v n small (ground arith)) refl
      ]

  string-ReadsSafely :
      (host : Host)
      → IsBytes b
      → ReadsSafely b io ((get_string host >>= λ s. pure (Field.text s)) io)
  string-ReadsSafely host bytes = elim (Bool-cases (leb (rp + 2) io.available_read_size)) [
    | inr e ↦ rw (get_string-throws_header host v (ground arith)) refl
    | inl e ↦
        let begun : rp + 2 ≤ io.available_read_size = ground arith in
        let two : length bs ≡ 2 =
          omega (arith, length-take 2 (drop rp b), length-drop rp b, v.readable) in
        let all = drop-IsBytes rp b bytes in
        let safe = take-IsBytes 2 (drop rp b) all in
        let short : len < 2 ^ 16 =
          subst (λ n. hton host n (fetch host bs) < radix n) two (hton-lt host bs safe) in
        let head : bs ≡ be_bytes 2 len = sym (
          subst (λ n. be_bytes n (hton host n (fetch host bs)) ≡ bs) two
            (be_bytes_onto host bs safe)) in
        elim (Bool-cases (leb (rp + (2 + len)) io.available_read_size)) [
          | inl f ↦
              rw (get_string-returns host v len short head begun (ground arith))
                (read_to-IsValid v (2 + len) (ground arith), omega arith)
          | inr f ↦ rw (get_string-throws host v len short head begun (ground arith)) refl
        ]
  ]
    where
      rp : ℕ
      rp = io.read_position

      bs : List ℕ
      bs = take 2 (drop io.read_position b)

      len : ℕ
      len = hton host 2 (fetch host (take 2 (drop io.read_position b)))

  pub get-ReadsSafely : (host : Host) (k : Kind) → IsBytes b → ReadsSafely b io (get host k io)
  unfolding get get_byte get_uint16 get_int16 get_uint32 get_int32 get_uint64 get_int64
  get-ReadsSafely host Kind.byte h = raw-ReadsSafely 1 _ _ (omega arith)
  get-ReadsSafely host Kind.uint16 h = raw-ReadsSafely 2 _ _ (omega arith)
  get-ReadsSafely host Kind.uint32 h = raw-ReadsSafely 4 _ _ (omega arith)
  get-ReadsSafely host Kind.uint64 h = raw-ReadsSafely 8 _ _ (omega arith)
  get-ReadsSafely host Kind.int16 h = raw-ReadsSafely 2 _ _ (omega arith)
  get-ReadsSafely host Kind.int32 h = raw-ReadsSafely 4 _ _ (omega arith)
  get-ReadsSafely host Kind.int64 h = raw-ReadsSafely 8 _ _ (omega arith)
  get-ReadsSafely host Kind.text h = string-ReadsSafely host h
