-- ===== src/IoBuffer/Codec/RoundTrip.antt =====
-- A message through << and >> of src/IOBuffer.cc.
use mathlib.Core.List.{append_assoc}
use libsimplesvr.Base.{
  ℕ, ◌+◌, ◌≤◌, ◌≡◌, ◌∙◌, refl, ap, ap₂, sym, List, [], ◌∷◌, ◌++◌, map, length, arith, All, drop,
  some, length-append, drop-drop, drop-append_eq,
}
use libsimplesvr.IoBuffer.Bytes.{Host}
use libsimplesvr.IoBuffer.Buffer.{IoBuffer, returns, splice}
use libsimplesvr.IoBuffer.Buffer.Memory.{length-splice, splice-splice, drop-splice, splice-nil}
use libsimplesvr.IoBuffer.Streams.Raw.{IsValid, read_to, written}
use libsimplesvr.IoBuffer.Codec.{Field, kind_of, IsValue, put_all, get_all}
use libsimplesvr.IoBuffer.Codec.Fields.{wire, put-returns, get-returns}

unfoldable pub wires : Host → List Field → List ℕ
wires host [] = []
wires host (f ∷ fs) = wire host f ++ wires host fs

module _ {b : List ℕ} {io : IoBuffer} (v : IsValid b io) where
  pub written-IsValid :
      (bs : List ℕ)
      → io.write_position + length bs ≤ io.buffer_size
      → IsValid (splice io.write_position bs b) (written bs b io)
  written-IsValid bs fits =
      let e = length-splice io.write_position bs b (omega (arith, v.sized)) in
      record {
        memory = refl;
        allocated = omega (arith, v.allocated, e);
        sized = omega (arith, v.sized, e);
        readable = omega (arith, v.readable, e);
        reading = v.reading;
        writing = fits;
      }

  pub read_to-IsValid :
      (n : ℕ) → io.read_position + n ≤ io.available_read_size → IsValid b (read_to n io)
  read_to-IsValid n fits = record {
    memory = v.memory;
    allocated = v.allocated;
    sized = v.sized;
    readable = v.readable;
    reading = fits;
    writing = v.writing;
  }

-- The buffer that was written, opened for reading from the position `from`.
abbrev pub reader : ℕ → IoBuffer → IoBuffer
reader from io = record io { read_position = from; available_read_size = io.write_position }

module _ (host : Host) where
  -- A chain of << that fits appends the bytes of its fields.
  pub put_all-returns :
      (fs : List Field) {b : List ℕ} {io : IoBuffer}
      → IsValid b io
      → All IsValue fs
      → io.write_position + length (wires host fs) ≤ io.buffer_size
      → put_all host fs io ≡ returns tt (written (wires host fs) b io)
  unfolding put_all wires
  put_all-returns [] {b} {io} v h fits =
      ap₂ (λ m p. returns tt (record io { buffer = m; write_position = p }))
        (v.memory ∙ ap some (sym (splice-nil io.write_position b))) (omega arith)
  put_all-returns (f ∷ fs) {b} {io} v h fits =
      let wp = io.write_position in
      let w = wire host f in
      let ws = wires host fs in
      let all = length-append w ws in
      rw
        (
          put-returns host v f h.0 (omega (arith, all)),
          put_all-returns fs (written-IsValid v w (omega (arith, all))) h.1 (omega (arith, all)),
        )
        (ap₂ (λ m p. returns tt (record io { buffer = some m; write_position = p }))
          (splice-splice wp w ws b (omega (arith, all, v.sized))) (omega (arith, all)))

  -- A chain of >> takes the fields whose bytes are next.
  pub get_all-returns :
      (fs : List Field) (rest : List ℕ) {b : List ℕ} {io : IoBuffer}
      → IsValid b io
      → All IsValue fs
      → drop io.read_position b ≡ wires host fs ++ rest
      → io.read_position + length (wires host fs) ≤ io.available_read_size
      → get_all host (map kind_of fs) io ≡ returns fs (read_to (length (wires host fs)) io)
  unfolding get_all wires
  get_all-returns [] rest {io} v h at fits =
      ap (λ p. returns [] (record io { read_position = p })) (omega arith)
  get_all-returns (f ∷ fs) rest {b} {io} v h at fits =
      let rp = io.read_position in
      let w = wire host f in
      let ws = wires host fs in
      let all = length-append w ws in
      let next : drop rp b ≡ w ++ (ws ++ rest) = at ∙ append_assoc w ws rest in
      let after : drop (rp + length w) b ≡ ws ++ rest =
        sym (drop-drop (length w) rp b)
        ∙ ap (drop (length w)) next
        ∙ drop-append_eq (length w) w (ws ++ rest) refl in
      rw
        (
          get-returns host v f (ws ++ rest) h.0 next (omega (arith, all)),
          get_all-returns fs rest (read_to-IsValid v (length w) (omega (arith, all))) h.1 after
              (omega (arith, all)),
        )
        (ap (λ p. returns (f ∷ fs) (record io { read_position = p })) (omega (arith, all)))

  -- Fields with values of their types, texts of fewer than 2 ^ 16 bytes among them, that fit into a
  -- valid buffer are all written, and the write
  -- position is behind them; a reader of what was written gets the same fields and is at their end.
  pub get_all-put_all :
      (fs : List Field) (b : List ℕ) (io : IoBuffer)
      → IsValid b io
      → All IsValue fs
      → io.write_position + length (wires host fs) ≤ io.buffer_size
      → (io' : IoBuffer) × (put_all host fs io ≡ returns tt io')
        × (io'.write_position ≡ io.write_position + length (wires host fs))
        × (get_all host (map kind_of fs) (reader io.write_position io')
            ≡ returns fs (reader io'.write_position io'))
  get_all-put_all fs b io v h fits =
      let wp = io.write_position in
      let ws = wires host fs in
      let w = written-IsValid v ws fits in
      (
        written ws b io,
        put_all-returns fs v h fits,
        refl,
        get_all-returns fs (drop (wp + length ws) b)
            (record {
              memory = refl;
              allocated = w.allocated;
              sized = w.sized;
              readable = omega (arith, w.sized);
              reading = omega arith;
              writing = w.writing;
            })
            h (drop-splice wp ws b (omega (arith, v.writing, v.sized))) (omega arith),
      )
