-- ===== src/IoBuffer/Codec/Fields.antt =====
-- One field through << and >> of src/IOBuffer.cc: its bytes, and how they come back.
use mathlib.Core.List.{append_assoc}
use libsimplesvr.Base.{
  ℕ, All-append, ◌^◌, ◌+◌, ◌%◌, ◌<◌, ◌≤◌, ◌≡◌, ◌∙◌, refl, ap, ap₂, sym, subst, List, ◌++◌, length,
  arith, take, drop, take-append, take-append_eq, drop-append_eq, length-append, drop-drop,
}
use libsimplesvr.Base.Int.{ℤ, pos, negsuc}
use libsimplesvr.IoBuffer.Bytes.{
  Host, IsBytes, store-IsBytes, be_bytes-IsBytes, store, hton64, be_bytes, store-hton, hton-fetch,
  length-be_bytes, length-store, fetch-store,
}
use libsimplesvr.IoBuffer.Bytes.Words.{hton64-fetch}
use libsimplesvr.IoBuffer.Buffer.{IoBuffer, Outcome, returns, throws}
use libsimplesvr.IoBuffer.Streams.{
  get_byte, get_uint16, get_int16, get_uint32, get_int32, get_uint64, get_int64, put_byte,
  put_uint16, put_int16, put_uint32, put_int32, put_uint64, put_int64, pattern_of, signed, get_raw,
  put_raw, put_string,
}
use libsimplesvr.IoBuffer.Streams.Raw.{
  IsValid, read_to, written, get_raw-returns, put_raw-returns, put_raw-throws,
}
use libsimplesvr.IoBuffer.Streams.Strings.{
  header, put_string-returns, put_string-throws, get_string-returns,
}
use libsimplesvr.IoBuffer.Codec.{Field, kind_of, IsValue, put, get}

-- The bytes of a field: network order, and a text behind its length.
unfoldable pub wire : Host → Field → List ℕ
wire host (Field.byte v) = store host 1 v
wire host (Field.uint16 v) = be_bytes 2 v
wire host (Field.uint32 v) = be_bytes 4 v
wire host (Field.uint64 v) = store host 8 (hton64 host v)
wire host (Field.int16 v) = be_bytes 2 (pattern_of 16 v)
wire host (Field.int32 v) = be_bytes 4 (pattern_of 32 v)
wire host (Field.int64 v) = store host 8 (hton64 host (pattern_of 64 v))
wire host (Field.text v) = header v ++ v

-- A pattern stands for the integer that it was made from.
signed_pattern16 :
    (v : ℤ)
    → IsValue (Field.int16 v)
    → (signed 16 (pattern_of 16 v) ≡ v) × (pattern_of 16 v < 2 ^ 16)
unfolding signed pattern_of
signed_pattern16 (pos n) h = ground arith
signed_pattern16 (negsuc n) h = ground arith

signed_pattern32 :
    (v : ℤ)
    → IsValue (Field.int32 v)
    → (signed 32 (pattern_of 32 v) ≡ v) × (pattern_of 32 v < 2 ^ 32)
unfolding signed pattern_of
signed_pattern32 (pos n) h = ground arith
signed_pattern32 (negsuc n) h = ground arith

signed_pattern64 :
    (v : ℤ)
    → IsValue (Field.int64 v)
    → (signed 64 (pattern_of 64 v) ≡ v) × (pattern_of 64 v < 2 ^ 64)
unfolding signed pattern_of
signed_pattern64 (pos n) h = ground arith
signed_pattern64 (negsuc n) h = ground arith

-- What a field's bytes are.
pub wire-IsBytes :
    (host : Host) (f : Field)
    → ((s : List ℕ) → f ≡ Field.text s → IsBytes s)
    → IsBytes (wire host f)
unfolding wire
wire-IsBytes host (Field.byte v) h = store-IsBytes host 1 v
wire-IsBytes host (Field.uint16 v) h = be_bytes-IsBytes 2 v
wire-IsBytes host (Field.uint32 v) h = be_bytes-IsBytes 4 v
wire-IsBytes host (Field.uint64 v) h = store-IsBytes host 8 (hton64 host v)
wire-IsBytes host (Field.int16 v) h = be_bytes-IsBytes 2 (pattern_of 16 v)
wire-IsBytes host (Field.int32 v) h = be_bytes-IsBytes 4 (pattern_of 32 v)
wire-IsBytes host (Field.int64 v) h = store-IsBytes host 8 (hton64 host (pattern_of 64 v))
wire-IsBytes host (Field.text v) h =
    All-append _ (header v) v (be_bytes-IsBytes 2 (length v % 2 ^ 16)) (h v refl)

pub length-wire_text : (host : Host) (s : List ℕ) → length (wire host (Field.text s)) ≡ 2 + length s
unfolding wire
length-wire_text host s =
    omega (arith, length-append (header s) s, length-be_bytes 2 (length s % 2 ^ 16))

module _ (host : Host) {b : List ℕ} {io : IoBuffer} (v : IsValid b io) where
  -- A field but a text is the copy of its bytes.
  raw_fields :
      (P : Outcome (Unit {0}) → Type 0) (f : Field)
      → ((s : List ℕ) → f ≡ Field.text s → P (put_string host s io))
      → (length (wire host f) < 2 ^ 62 → P (put_raw (wire host f) io))
      → P (put host f io)
  unfolding put wire put_byte put_uint16 put_int16 put_uint32 put_int32 put_uint64 put_int64
  raw_fields P (Field.byte n) texts raws = raws (omega (arith, length-store host 1 n))
  raw_fields P (Field.uint16 n) texts raws =
      rw (store-hton host 2 n) (raws (omega (arith, length-be_bytes 2 n)))
  raw_fields P (Field.uint32 n) texts raws =
      rw (store-hton host 4 n) (raws (omega (arith, length-be_bytes 4 n)))
  raw_fields P (Field.uint64 n) texts raws =
      raws (omega (arith, length-store host 8 (hton64 host n)))
  raw_fields P (Field.int16 z) texts raws =
      rw (store-hton host 2 (pattern_of 16 z))
        (raws (omega (arith, length-be_bytes 2 (pattern_of 16 z))))
  raw_fields P (Field.int32 z) texts raws =
      rw (store-hton host 4 (pattern_of 32 z))
        (raws (omega (arith, length-be_bytes 4 (pattern_of 32 z))))
  raw_fields P (Field.int64 z) texts raws =
      raws (omega (arith, length-store host 8 (hton64 host (pattern_of 64 z))))
  raw_fields P (Field.text s) texts raws = texts s refl

  -- A field that fits is written at the write position.
  pub put-returns :
      (f : Field)
      → IsValue f
      → io.write_position + length (wire host f) ≤ io.buffer_size
      → put host f io ≡ returns tt (written (wire host f) b io)
  unfolding wire
  put-returns f h fits =
      raw_fields (λ r. r ≡ returns tt (written (wire host f) b io)) f
        (λ s e.
          let short : length s < 2 ^ 16 = subst IsValue e h in
          let fits' =
            subst (λ f. io.write_position + length (wire host f) ≤ io.buffer_size) e fits in
          rw e (put_string-returns host v s (omega arith) (omega (arith, length-wire_text host s))))
        (λ small. put_raw-returns v (wire host f) small fits)

  pub put-throws :
      (f : Field)
      → IsValue f
      → io.buffer_size < io.write_position + length (wire host f)
      → put host f io ≡ throws io
  put-throws f h over =
      raw_fields (λ r. r ≡ throws io) f
        (λ s e.
          let short : length s < 2 ^ 16 = subst IsValue e h in
          let over' =
            subst (λ f. io.buffer_size < io.write_position + length (wire host f)) e over in
          put_string-throws host v s (omega arith) (omega (arith, length-wire_text host s)))
        (λ small. put_raw-throws v (wire host f) small over)

  -- The bytes that are next, for a read that stays inside.
  pub raw :
      (w rest : List ℕ) (n : ℕ)
      → n ≡ length w
      → n < 2 ^ 62
      → drop io.read_position b ≡ w ++ rest
      → io.read_position + n ≤ io.available_read_size
      → get_raw n io ≡ returns w (read_to n io)
  raw w rest n e small at fits =
      get_raw-returns v n small fits
      ∙ ap (λ bs. returns bs (read_to n io)) (ap (take n) at ∙ take-append_eq n w rest e)

  -- A field whose bytes are next is read back, and no byte more is taken.
  pub get-returns :
      (f : Field) (rest : List ℕ)
      → IsValue f
      → drop io.read_position b ≡ wire host f ++ rest
      → io.read_position + length (wire host f) ≤ io.available_read_size
      → get host (kind_of f) io ≡ returns f (read_to (length (wire host f)) io)
  unfolding get wire get_byte get_uint16 get_int16 get_uint32 get_int32 get_uint64 get_int64
  get-returns (Field.byte n) rest h at fits =
      let e = length-store host 1 n in
      rw (raw (store host 1 n) rest 1 (sym e) (omega arith) at (omega (arith, e, fits))) (
        ap₂ (λ f m. returns f (read_to m io)) (ap Field.byte (fetch-store host 1 n (omega arith)))
          (sym e))
  get-returns (Field.uint16 n) rest h at fits =
      let e = length-be_bytes 2 n in
      rw (raw (be_bytes 2 n) rest 2 (sym e) (omega arith) at (omega (arith, e, fits))) (
        ap₂ (λ f m. returns f (read_to m io)) (ap Field.uint16 (hton-fetch host 2 n (omega arith)))
          (sym e))
  get-returns (Field.uint32 n) rest h at fits =
      let e = length-be_bytes 4 n in
      rw (raw (be_bytes 4 n) rest 4 (sym e) (omega arith) at (omega (arith, e, fits))) (
        ap₂ (λ f m. returns f (read_to m io)) (ap Field.uint32 (hton-fetch host 4 n (omega arith)))
          (sym e))
  get-returns (Field.uint64 n) rest h at fits =
      let e = length-store host 8 (hton64 host n) in
      rw
        (raw (store host 8 (hton64 host n)) rest 8 (sym e) (omega arith) at
          (omega (arith, e, fits)))
        (ap₂ (λ f m. returns f (read_to m io)) (ap Field.uint64 (hton64-fetch host n h)) (sym e))
  get-returns (Field.int16 z) rest h at fits =
      let e = length-be_bytes 2 (pattern_of 16 z) in
      rw
        (raw (be_bytes 2 (pattern_of 16 z)) rest 2 (sym e) (omega arith) at
          (omega (arith, e, fits)))
        (ap₂ (λ f m. returns f (read_to m io))
          (ap Field.int16 (
            ap (signed 16)
              (hton-fetch host 2 (pattern_of 16 z) (omega (arith, (signed_pattern16 z h).1)))
            ∙ (signed_pattern16 z h).0))
          (sym e))
  get-returns (Field.int32 z) rest h at fits =
      let e = length-be_bytes 4 (pattern_of 32 z) in
      rw
        (raw (be_bytes 4 (pattern_of 32 z)) rest 4 (sym e) (omega arith) at
          (omega (arith, e, fits)))
        (ap₂ (λ f m. returns f (read_to m io))
          (ap Field.int32 (
            ap (signed 32)
              (hton-fetch host 4 (pattern_of 32 z) (omega (arith, (signed_pattern32 z h).1)))
            ∙ (signed_pattern32 z h).0))
          (sym e))
  get-returns (Field.int64 z) rest h at fits =
      let e = length-store host 8 (hton64 host (pattern_of 64 z)) in
      rw
        (raw (store host 8 (hton64 host (pattern_of 64 z))) rest 8 (sym e) (omega arith) at
          (omega (arith, e, fits)))
        (ap₂ (λ f m. returns f (read_to m io))
          (ap Field.int64 (
            ap (signed 64) (hton64-fetch host (pattern_of 64 z) (signed_pattern64 z h).1)
            ∙ (signed_pattern64 z h).0))
          (sym e))
  get-returns (Field.text s) rest h at fits =
      let len = length s in
      let two = length-be_bytes 2 (len % 2 ^ 16) in
      let all = length-append (header s) s in
      let small : len % 2 ^ 16 ≡ len = omega arith in
      let next : drop io.read_position b ≡ header s ++ (s ++ rest) =
        at ∙ append_assoc (header s) s rest in
      let head : take 2 (drop io.read_position b) ≡ be_bytes 2 len =
        ap (take 2) next
        ∙ take-append_eq 2 (header s) (s ++ rest) (sym two)
        ∙ ap (be_bytes 2) small in
      let body : take len (drop (io.read_position + 2) b) ≡ s =
        ap (take len) (
          sym (drop-drop 2 io.read_position b)
          ∙ ap (drop 2) next
          ∙ drop-append_eq 2 (header s) (s ++ rest) (sym two))
        ∙ take-append s rest in
      rw
        (get_string-returns host v len h head (omega (arith, two, all, fits))
          (omega (arith, two, all, fits)))
        (ap₂ (λ f m. returns f (read_to m io)) (ap Field.text body) (omega (arith, two, all)))
