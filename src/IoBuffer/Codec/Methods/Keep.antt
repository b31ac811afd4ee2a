-- ===== src/IoBuffer/Codec/Methods/Keep.antt =====
-- Each call on an IOBuffer (src/IOBuffer.cc) on a valid buffer, and sequences of them.
use libsimplesvr.Base.{
  ℕ, ◌+◌, ◌^◌, ◌<◌, ◌≤◌, ◌≡◌, ◌⊎◌, inl, inr, ◌∙◌, refl, sym, subst, List, [], ◌∷◌, length, arith,
  Bool-cases, leb, ltb, u64, All, some,
}
use libsimplesvr.Base.Int.{ℤ}
use libsimplesvr.IoBuffer.Bytes.{Host, IsBytes}
use libsimplesvr.IoBuffer.Buffer.{
  IoBuffer, Outcome, returns, throws, faults, splice, pure, and_then, write, write_at, read,
  read_at, read_seek, write_seek, offset_by,
}
use libsimplesvr.IoBuffer.Buffer.Memory.{
  length-splice, load-returns, save-returns, splice-IsBytes, peek_all,
}
use libsimplesvr.IoBuffer.Codec.{Field, Kind, IsValue, put, get}
use libsimplesvr.IoBuffer.Codec.Fields.{wire, put-returns, put-throws, wire-IsBytes}
use libsimplesvr.IoBuffer.Codec.Safety.{ReadsSafely, get-ReadsSafely}
use libsimplesvr.IoBuffer.Codec.Methods.{
  Method, writes, writes_at, reads, reads_at, seeks_read, seeks_write, puts, gets, IsCall, Sound,
  After, perform, perform_all,
}

Outcome-cases :
    {A : Type 0} (r : Outcome A)
    → ((a : A) × (io : IoBuffer) × (r ≡ returns a io))
      ⊎ (((io : IoBuffer) × (r ≡ throws io)) ⊎ (r ≡ faults))
Outcome-cases (returns a io) = inl (a, io, refl)
Outcome-cases (throws io) = inr (inl (io, refl))
Outcome-cases faults = inr (inr refl)

module _ {n : ℕ} {io : IoBuffer} (s : Sound n io) where
  written-Sound :
      (at : ℕ) (bs : List ℕ) (to : ℕ)
      → at + length bs ≤ io.buffer_size
      → to ≤ io.buffer_size
      → IsBytes bs
      → Sound n (record io { buffer = some (splice at bs s.bytes); write_position = to })
  written-Sound at bs to fits l h =
      let v = s.valid in
      let e = length-splice at bs s.bytes (omega (arith, v.sized)) in
      record {
        bytes = splice at bs s.bytes;
        valid = record {
          memory = refl;
          allocated = omega (arith, v.allocated, e);
          sized = omega (arith, v.sized, e);
          readable = omega (arith, v.readable, e);
          reading = v.reading;
          writing = l;
        };
        are_bytes = splice-IsBytes at bs s.bytes h s.are_bytes;
        size = e ∙ s.size;
      }

  moved-Sound :
      (r w : ℕ)
      → r ≤ io.available_read_size
      → w ≤ io.buffer_size
      → Sound n (record io { read_position = r; write_position = w })
  moved-Sound r w lr lw =
      let v = s.valid in
      record {
        bytes = s.bytes;
        valid = record {
          memory = v.memory;
          allocated = v.allocated;
          sized = v.sized;
          readable = v.readable;
          reading = lr;
          writing = lw;
        };
        are_bytes = s.are_bytes;
        size = s.size;
      }

  write_at-Sound :
      (bs : List ℕ) (at : ℕ)
      → length bs < 2 ^ 62
      → at < 2 ^ 62
      → IsBytes bs
      → After (Sound n) (write_at bs (length bs) at io)
  unfolding write_at
  write_at-Sound bs at small near h =
      let v = s.valid in
      let e : u64 (at + length bs) ≡ at + length bs = omega arith in
      elim (Bool-cases (ltb io.buffer_size (at + length bs))) [
        | inl t ↦ rw (e, t) s
        | inr t ↦
            rw (e, t, peek_all bs, save-returns at bs io s.bytes v.memory (ground (arith, v.sized)))
              (written-Sound at bs io.write_position (ground arith) v.writing h)
      ]

  read_at-Sound : (k at : ℕ) → k < 2 ^ 62 → at < 2 ^ 62 → After (Sound n) (read_at k at io)
  unfolding read_at
  read_at-Sound k at small near =
      let v = s.valid in
      let e : u64 (at + k) ≡ at + k = omega arith in
      elim (Bool-cases (ltb io.available_read_size (at + k))) [
        | inl t ↦ rw (e, t) s
        | inr t ↦ rw (e, t, load-returns at k io s.bytes v.memory (ground (arith, v.readable))) s
      ]

  write-Sound :
      (bs : List ℕ) → length bs < 2 ^ 62 → IsBytes bs → After (Sound n) (write bs (length bs) io)
  unfolding write
  write-Sound bs small h =
      let v = s.valid in
      let wp = io.write_position in
      let e : u64 (wp + length bs) ≡ wp + length bs =
        omega (arith, v.writing, v.sized, v.allocated) in
      elim (Bool-cases (ltb io.buffer_size (wp + length bs))) [
        | inl t ↦ rw (e, t) s
        | inr t ↦
            rw
              (
                e,
                t,
                peek_all bs,
                save-returns wp bs io s.bytes v.memory (ground (arith, v.sized)),
                e,
              )
              (written-Sound wp bs (wp + length bs) (ground arith) (ground arith) h)
      ]

  read-Sound : (k : ℕ) → k < 2 ^ 62 → After (Sound n) (read k io)
  unfolding read
  read-Sound k small =
      let v = s.valid in
      let rp = io.read_position in
      let e : u64 (rp + k) ≡ rp + k = omega (arith, v.reading, v.readable, v.allocated) in
      elim (Bool-cases (ltb io.available_read_size (rp + k))) [
        | inl t ↦ rw (e, t) s
        | inr t ↦
            rw (e, t, load-returns rp k io s.bytes v.memory (ground (arith, v.readable)), e)
              (moved-Sound (rp + k) io.write_position (ground arith) v.writing)
      ]

  read_seek-Sound : (z : ℤ) → Sound n (read_seek z io)
  unfolding read_seek
  read_seek-Sound z =
      let p = offset_by io.read_position z in
      elim (Bool-cases (ltb io.available_read_size p)) [
        | inl t ↦
            rw t
              (moved-Sound io.available_read_size io.write_position (omega arith) s.valid.writing)
        | inr t ↦ rw t (moved-Sound p io.write_position (ground arith) s.valid.writing)
      ]

  write_seek-Sound : (z : ℤ) → Sound n (write_seek z io)
  unfolding write_seek
  write_seek-Sound z =
      let p = offset_by io.write_position z in
      elim (Bool-cases (ltb io.buffer_size p)) [
        | inl t ↦ rw t (moved-Sound io.read_position io.buffer_size s.valid.reading (omega arith))
        | inr t ↦ rw t (moved-Sound io.read_position p s.valid.reading (ground arith))
      ]

  put-Sound :
      (host : Host) (f : Field)
      → IsValue f
      → ((x : List ℕ) → f ≡ Field.text x → IsBytes x)
      → After (Sound n) (put host f io)
  put-Sound host f h texts =
      let v = s.valid in
      let w = wire host f in
      elim (Bool-cases (leb (io.write_position + length w) io.buffer_size)) [
        | inl t ↦ rw (put-returns host v f h (ground arith)) (
            written-Sound io.write_position w (io.write_position + length w) (ground arith)
              (ground arith) (wire-IsBytes host f texts))
        | inr t ↦ rw (put-throws host v f h (ground arith)) s
      ]

  safe-After : {A : Type 0} (r : Outcome A) → ReadsSafely s.bytes io r → After (Sound n) r
  safe-After (returns a io') h = record {
    bytes = s.bytes;
    valid = h.0;
    are_bytes = s.are_bytes;
    size = s.size;
  }
  safe-After (throws io') h = subst (Sound n) (sym h) s
  safe-After faults h = h

  get-Sound : (host : Host) (k : Kind) → After (Sound n) (get host k io)
  get-Sound host k = safe-After (get host k io) (get-ReadsSafely s.valid host k s.are_bytes)

  then-After :
      {A : Type 0} (r : Outcome A) → After (Sound n) r → After (Sound n) (and_then r (λ _. pure tt))
  then-After (returns a io') h = h
  then-After (throws io') h = h
  then-After faults h = h

  perform-Sound : (host : Host) (m : Method) → IsCall m → After (Sound n) (perform host m io)
  unfolding perform
  perform-Sound host (writes bs) h = then-After (write bs (length bs) io) (write-Sound bs h.0 h.1)
  perform-Sound host (writes_at bs at) h =
      then-After (write_at bs (length bs) at io) (write_at-Sound bs at h.0 h.1 h.2)
  perform-Sound host (reads k) h = then-After (read k io) (read-Sound k h)
  perform-Sound host (reads_at k at) h = then-After (read_at k at io) (read_at-Sound k at h.0 h.1)
  perform-Sound host (seeks_read z) h = read_seek-Sound z
  perform-Sound host (seeks_write z) h = write_seek-Sound z
  perform-Sound host (puts f) h = put-Sound host f h.0 h.1
  perform-Sound host (gets k) h = then-After (get host k io) (get-Sound host k)

-- Any sequence of calls with sizes and positions below 2 ^ 62, bytes as data and texts of fewer than
-- 2 ^ 16 bytes, on a valid buffer
-- over `n` bytes: whether calls throw or not, there is no access outside of the memory, and the
-- buffer is valid after it, over `n` bytes.
pub perform_all-Sound :
    (host : Host) (n : ℕ) (ms : List Method) (io : IoBuffer)
    → All IsCall ms
    → Sound n io
    → After (Sound n) (perform_all host ms io)
unfolding perform_all
perform_all-Sound host n [] io h s = s
perform_all-Sound host n (m ∷ ms) io h s = elim (Outcome-cases (perform host m io)) [
  | inl (a, io', e) ↦
      rw (e, perform_all)
        (perform_all-Sound host n ms io' h.1
          (subst (After (Sound n)) e (perform-Sound s host m h.0)))
  | inr (inl (io', e)) ↦
      rw (e, perform_all)
        (perform_all-Sound host n ms io' h.1
          (subst (After (Sound n)) e (perform-Sound s host m h.0)))
  | inr (inr e) ↦ absurd (subst (After (Sound n)) e (perform-Sound s host m h.0))
]
