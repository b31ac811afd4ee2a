-- ===== src/IoBuffer/Codec/Methods.antt =====
-- Any sequence of calls on an IOBuffer (include/IOBuffer.hpp), the ones that throw included.
pub mod Keep
use libsimplesvr.Base.{
  ℕ, ◌+◌, ◌^◌, ◌<◌, ◌≤◌, ◌≡◌, ◌⊎◌, inl, inr, ◌∙◌, refl, ap, sym, subst, List, [], ◌∷◌, ◌++◌, length,
  arith, take, drop, Bool-cases, leb, ltb, u64, true, false, All, All-append, length-take,
  if◌then◌else◌, le→leb, some, none,
}
use libsimplesvr.Base.Int.{ℤ}
use libsimplesvr.IoBuffer.Bytes.{Host, IsBytes, be_bytes-IsBytes, store-IsBytes}
use libsimplesvr.IoBuffer.Buffer.{
  IoBuffer, Outcome, returns, throws, faults, splice, M, ◌>>=◌, pure, and_then, peek, write,
  write_at, read, read_at, read_seek, write_seek, load, save, offset_by,
}
use libsimplesvr.IoBuffer.Buffer.Memory.{
  length-splice, load-returns, save-returns, splice-IsBytes, peek_all,
}
use libsimplesvr.IoBuffer.Streams.Raw.{IsValid, read_to, written}
use libsimplesvr.IoBuffer.Codec.{Field, Kind, IsValue, put, get}
use libsimplesvr.IoBuffer.Codec.Fields.{wire, put-returns, put-throws, wire-IsBytes}
use libsimplesvr.IoBuffer.Codec.RoundTrip.{read_to-IsValid, written-IsValid}
use libsimplesvr.IoBuffer.Codec.Safety.{ReadsSafely, get-ReadsSafely}

-- A call with its arguments. A source is as long as the size that is passed with it.
pub data Method : Type 0 where
  writes : List ℕ → Method
  writes_at : List ℕ → ℕ → Method
  reads : ℕ → Method
  reads_at : ℕ → ℕ → Method
  seeks_read : ℤ → Method
  seeks_write : ℤ → Method
  puts : Field → Method
  gets : Kind → Method

-- Sizes and positions so small that the sum which the code tests does not wrap, and C++ values.
abbrev pub IsCall : Method → Type 0
IsCall (writes s) = (length s < 2 ^ 62) × IsBytes s
IsCall (writes_at s at) = (length s < 2 ^ 62) × (at < 2 ^ 62) × IsBytes s
IsCall (reads n) = n < 2 ^ 62
IsCall (reads_at n at) = (n < 2 ^ 62) × (at < 2 ^ 62)
IsCall (seeks_read z) = Unit {0}
IsCall (seeks_write z) = Unit {0}
IsCall (puts f) = IsValue f × ((s : List ℕ) → f ≡ Field.text s → IsBytes s)
IsCall (gets k) = Unit {0}

-- A valid buffer over `n` bytes of memory.
pub record Sound (n : ℕ) (io : IoBuffer) : Type 0 where
  pub bytes : List ℕ
  pub valid : IsValid bytes io
  pub are_bytes : IsBytes bytes
  pub size : length bytes ≡ n

-- The state after the call, or after the exception that it throws has been caught.
abbrev pub After : {A : Type 0} → (IoBuffer → Type 0) → Outcome A → Type 0
After P (returns a io) = P io
After P (throws io) = P io
After P faults = ⊥

module _ (host : Host) where
  unfoldable pub perform : Method → M (Unit {0})
  perform (writes s) = write s (length s) >>= λ _. pure tt
  perform (writes_at s at) = write_at s (length s) at >>= λ _. pure tt
  perform (reads n) = read n >>= λ _. pure tt
  perform (reads_at n at) = read_at n at >>= λ _. pure tt
  perform (seeks_read z) = λ io. returns tt (read_seek z io)
  perform (seeks_write z) = λ io. returns tt (write_seek z io)
  perform (puts f) = put host f
  perform (gets k) = get host k >>= λ _. pure tt

  -- The calls one after another, whether they throw or not; `none` is an invalid access.
  unfoldable pub perform_all : List Method → IoBuffer → Outcome (Unit {0})
  perform_all [] io = returns tt io
  perform_all (m ∷ ms) io = elim (perform m io) [
    | returns _ io' ↦ perform_all ms io'
    | throws io' ↦ perform_all ms io'
    | faults ↦ faults
  ]
