-- ===== src/Binlog/HeadBytes.antt =====
-- The head of a file of src/Binlog.cc as bytes: PutHead writes it and GetHead reads it.
use mathlib.Core.List.{append_assoc}
use libsimplesvr.Base.{
  ℕ, ◌+◌, ◌^◌, ◌≤◌, ◌<◌, ◌≡◌, refl, sym, ap, ap₂, subst, ◌∙◌, false, some, List, [], ◌∷◌, ◌++◌,
  length, take, drop, length-append, drop-drop, drop-append_eq, take-append_eq, take-append, arith,
  ltb, ◌==◌, u64,
}
use libsimplesvr.IoBuffer.Bytes.{Host, be_bytes, length-be_bytes}
use libsimplesvr.IoBuffer.Buffer.{IoBuffer, returns, splice, read, write}
use libsimplesvr.IoBuffer.Buffer.Memory.{load-returns, save-returns, splice-splice, peek_all}
use libsimplesvr.IoBuffer.Streams.Raw.{IsValid, read_to, written}
use libsimplesvr.IoBuffer.Codec.{Field, put_all}
use libsimplesvr.IoBuffer.Codec.Fields.{wire}
use libsimplesvr.IoBuffer.Codec.RoundTrip.{wires, read_to-IsValid, written-IsValid, put_all-returns}
use libsimplesvr.Binlog.{Head, get_head, put_head}
use libsimplesvr.Binlog.Words.{get_uint16-returns, get_uint32-returns}

-- The fields of a head have the sizes of their types.
pub record IsHead (h : Head) : Type 0 where
  pub magic : length h.magic ≡ 8
  pub version : h.version < 2 ^ 16
  pub data_offset : h.data_offset < 2 ^ 16
  pub block_size : h.block_size < 2 ^ 32
  pub create_time : h.create_time < 2 ^ 32

-- The bytes of a head.
unfoldable pub head_bytes : Head → List ℕ
head_bytes h =
    h.magic
    ++ (be_bytes 2 h.version
        ++ (be_bytes 2 h.data_offset
            ++ (be_bytes 4 h.block_size ++ (be_bytes 4 h.create_time ++ []))))

pub length-head_bytes : (h : Head) → IsHead h → length (head_bytes h) ≡ 20
unfolding head_bytes
length-head_bytes h v =
    let e = be_bytes 4 h.create_time ++ [] in
    let d = be_bytes 4 h.block_size ++ e in
    let c = be_bytes 2 h.data_offset ++ d in
    omega (
      arith,
      v.magic,
      length-append h.magic (be_bytes 2 h.version ++ c),
      length-append (be_bytes 2 h.version) c,
      length-append (be_bytes 2 h.data_offset) d,
      length-append (be_bytes 4 h.block_size) e,
      length-append (be_bytes 4 h.create_time) [],
      length-be_bytes 2 h.version,
      length-be_bytes 2 h.data_offset,
      length-be_bytes 4 h.block_size,
      length-be_bytes 4 h.create_time,
    )

module _ {b : List ℕ} {io : IoBuffer} (v : IsValid b io) where
  -- Read and Write of some bytes that are there, or that there is room for.
  read-returns :
      (bs rest : List ℕ)
      → length bs < 2 ^ 62
      → drop io.read_position b ≡ bs ++ rest
      → io.read_position + length bs ≤ io.available_read_size
      → read (length bs) io ≡ returns bs (read_to (length bs) io)
  unfolding read
  read-returns bs rest small at fits =
      let e : u64 (io.read_position + length bs) ≡ io.read_position + length bs =
        omega (arith, v.readable, v.allocated) in
      let t : ltb io.available_read_size (io.read_position + length bs) ≡ false = ground arith in
      rw
        (
          e,
          t,
          load-returns io.read_position (length bs) io b v.memory (omega (arith, v.readable)),
          e,
        )
        (ap (λ q. returns q (read_to (length bs) io))
          (ap (take (length bs)) at ∙ take-append bs rest))

  write-returns :
      (bs : List ℕ)
      → length bs < 2 ^ 62
      → io.write_position + length bs ≤ io.buffer_size
      → write bs (length bs) io ≡ returns (length bs) (written bs b io)
  unfolding write
  write-returns bs small fits =
      let e : u64 (io.write_position + length bs) ≡ io.write_position + length bs =
        omega (arith, v.sized, v.allocated) in
      let t : ltb io.buffer_size (io.write_position + length bs) ≡ false = ground arith in
      rw
        (
          e,
          t,
          peek_all bs,
          save-returns io.write_position bs io b v.memory (omega (arith, v.sized)),
          e,
        )
        refl

head_bytes-append :
    (h : Head) (r : List ℕ)
    → head_bytes h ++ r
      ≡ h.magic
        ++ (be_bytes 2 h.version
            ++ (be_bytes 2 h.data_offset
                ++ (be_bytes 4 h.block_size ++ (be_bytes 4 h.create_time ++ r))))
unfolding head_bytes
head_bytes-append h r =
    let w₁ = be_bytes 2 h.version in
    let w₂ = be_bytes 2 h.data_offset in
    let w₃ = be_bytes 4 h.block_size in
    let w₄ = be_bytes 4 h.create_time in
    append_assoc h.magic (w₁ ++ (w₂ ++ (w₃ ++ (w₄ ++ [])))) r
    ∙ ap (λ q. h.magic ++ q)
        (append_assoc w₁ (w₂ ++ (w₃ ++ (w₄ ++ []))) r
          ∙ ap (λ q. w₁ ++ q)
              (append_assoc w₂ (w₃ ++ (w₄ ++ [])) r
                ∙ ap (λ q. w₂ ++ q)
                    (append_assoc w₃ (w₄ ++ []) r ∙ ap (λ q. w₃ ++ q) (append_assoc w₄ [] r))))

pub splice-front :
    (n : ℕ) (xs ys b : List ℕ) → n ≡ length xs → splice 0 (take n (xs ++ ys)) b ≡ xs ++ drop n b
unfolding splice
splice-front n xs ys b e =
    ap (λ q. q ++ drop (0 + length q) b) (take-append_eq n xs ys e)
    ∙ ap (λ k. xs ++ drop k b) (let z : 0 + length xs ≡ n = omega arith in z)

-- What is behind some bytes.
pub behind :
    (p n : ℕ) (w tail b : List ℕ) → n ≡ length w → drop p b ≡ w ++ tail → drop (p + n) b ≡ tail
behind p n w tail b e at = sym (drop-drop n p b) ∙ ap (drop n) at ∙ drop-append_eq n w tail e

module _ (host : Host) (h : Head) (ok : IsHead h) {b : List ℕ} {io : IoBuffer}
    (v : IsValid b io) where
  fields : List Field
  fields =
      Field.uint16 h.version
      ∷ Field.uint16 h.data_offset
      ∷ Field.uint32 h.block_size
      ∷ Field.uint32 h.create_time
      ∷ []

  pub put_head-returns :
      io.write_position + 20 ≤ io.buffer_size
      → put_head host h io ≡ returns tt (written (head_bytes h) b io)
  unfolding put_head head_bytes fields wires wire
  put_head-returns fits =
      let wp = io.write_position in
      let ws = wires host fields in
      let long = length-head_bytes h ok in
      let all = length-append h.magic ws in
      let first : write h.magic 8 io ≡ returns 8 (written h.magic b io) =
        subst (λ n. write h.magic n io ≡ returns n (written h.magic b io)) ok.magic
          (write-returns v h.magic (omega (arith, ok.magic)) (omega (arith, ok.magic))) in
      let rest : put_all host fields (written h.magic b io)
          ≡ returns tt (written ws (splice wp h.magic b) (written h.magic b io)) =
        put_all-returns host fields (written-IsValid v h.magic (omega (arith, ok.magic)))
          (ok.version, (ok.data_offset, (ok.block_size, (ok.create_time, tt))))
          (omega (arith, ok.magic, long, all)) in
      rw (first, rest)
        (ap₂ (λ m p. returns tt (record io { buffer = some m; write_position = p }))
          (splice-splice wp h.magic ws b (omega (arith, v.sized, ok.magic))) (omega (arith, all)))

  pub get_head-returns :
      (old : Head) (rest : List ℕ)
      → drop io.read_position b ≡ head_bytes h ++ rest
      → io.read_position + 20 ≤ io.available_read_size
      → (io' : IoBuffer) × (get_head host old io ≡ returns h io')
  unfolding get_head head_bytes
  get_head-returns old rest at fits =
      let rp = io.read_position in
      let w₁ = be_bytes 2 h.version in
      let w₂ = be_bytes 2 h.data_offset in
      let w₃ = be_bytes 4 h.block_size in
      let w₄ = be_bytes 4 h.create_time in
      let io₁ = read_to 8 io in
      let io₂ = read_to 2 io₁ in
      let io₃ = read_to 2 io₂ in
      let io₄ = read_to 4 io₃ in
      let a₀ : drop rp b ≡ h.magic ++ (w₁ ++ (w₂ ++ (w₃ ++ (w₄ ++ rest)))) =
        at ∙ head_bytes-append h rest in
      let a₁ = behind rp 8 h.magic _ b (sym ok.magic) a₀ in
      let a₂ = behind (rp + 8) 2 w₁ _ b (sym (length-be_bytes 2 h.version)) a₁ in
      let a₃ = behind (rp + 8 + 2) 2 w₂ _ b (sym (length-be_bytes 2 h.data_offset)) a₂ in
      let a₄ = behind (rp + 8 + 2 + 2) 4 w₃ _ b (sym (length-be_bytes 4 h.block_size)) a₃ in
      let v₁ = read_to-IsValid v 8 (omega arith) in
      let v₂ = read_to-IsValid v₁ 2 (omega arith) in
      let v₃ = read_to-IsValid v₂ 2 (omega arith) in
      let v₄ = read_to-IsValid v₃ 4 (omega arith) in
      let r₀ : read 8 io ≡ returns h.magic io₁ =
        subst (λ n. read n io ≡ returns h.magic (read_to n io)) ok.magic
          (read-returns v h.magic _ (omega (arith, ok.magic)) a₀ (omega (arith, ok.magic))) in
      let t : (length h.magic == 0) ≡ false = ground (arith, ok.magic) in
      (
        read_to 4 io₄,
        rw
            (
              r₀,
              get_uint16-returns host v₁ h.version _ ok.version a₁ (omega arith),
              get_uint16-returns host v₂ h.data_offset _ ok.data_offset a₂ (omega arith),
              get_uint32-returns host v₃ h.block_size _ ok.block_size a₃ (omega arith),
              get_uint32-returns host v₄ h.create_time _ ok.create_time a₄ (omega arith),
              t,
            )
            refl,
      )
