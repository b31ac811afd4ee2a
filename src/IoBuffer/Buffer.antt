-- ===== src/IoBuffer/Buffer.antt =====
-- class IOBuffer of include/IOBuffer.hpp and src/IOBuffer.cc: its state, and its methods but Dump.
--
-- `m_Buffer` is `none` for the null pointer and otherwise the memory from there to the end of its
-- allocation. An access outside of it is undefined in C++, and a fault here. size_t has 64 bits.
pub mod Memory
use libsimplesvr.Base.{
  ℕ, zero, suc, ◌+◌, ◌-◌, ◌%◌, ◌^◌, ◌≡◌, Bool, true, false, ◌||◌, Option, none, some, List, [], ◌∷◌,
  ◌++◌, ltb, leb, if◌then◌else◌, u64, sub64, length, take, drop, replicate,
}
use libsimplesvr.Base.Int.{ℤ, pos, negsuc}

pub record IoBuffer : Type 0 where
  pub need_free : Bool
  pub buffer : Option (List ℕ)
  pub buffer_size : ℕ
  pub read_position : ℕ
  pub available_read_size : ℕ
  pub write_position : ℕ

-- A call returns, throws an OverflowIOException, or makes an invalid access.
pub data Outcome (A : Type 0) : Type 0 where
  returns : A → IoBuffer → Outcome A
  throws : IoBuffer → Outcome A
  faults : Outcome A

abbrev pub M : Type 0 → Type 0
M A = IoBuffer → Outcome A

abbrev pub and_then : {A B : Type 0} → Outcome A → (A → M B) → Outcome B
and_then (returns a io) k = k a io
and_then (throws io) k = throws io
and_then faults k = faults

abbrev pub pure : {A : Type 0} → A → M A
pure a io = returns a io

infixl 5 ◌>>=◌ ◌>>◌
abbrev pub ◌>>=◌ : {A B : Type 0} → M A → (A → M B) → M B
◌>>=◌ m k io = and_then (m io) k

abbrev pub ◌>>◌ : {B : Type 0} → M (Unit {0}) → M B → M B
m >> k = m >>= λ _. k

-- The bytes at a position, and the memory with bytes copied to a position.
unfoldable pub peek : ℕ → ℕ → List ℕ → Option (List ℕ)
peek at n b = if leb (at + n) (length b) then some (take n (drop at b)) else none

unfoldable pub splice : ℕ → List ℕ → List ℕ → List ℕ
splice at bs b = take at b ++ (bs ++ drop (at + length bs) b)

unfoldable pub poke : ℕ → List ℕ → List ℕ → Option (List ℕ)
poke at bs b = if leb (at + length bs) (length b) then some (splice at bs b) else none

-- A read and a write through m_Buffer.
unfoldable pub load : ℕ → ℕ → M (List ℕ)
load at n io = elim io.buffer [
  | none ↦ faults
  | some b ↦ elim (peek at n b) [ none ↦ faults | some bs ↦ returns bs io ]
]

unfoldable pub save : ℕ → List ℕ → M (Unit {0})
save at bs io = elim io.buffer [
  | none ↦ faults
  | some b ↦ elim (poke at bs b) [
    | none ↦ faults
    | some b' ↦ returns tt (record io { buffer = some b' })
  ]
]

-- IOBuffer(size), with what malloc returns.
unfoldable pub io_buffer : Option (List ℕ) → ℕ → IoBuffer
io_buffer allocated size = record {
  need_free = true;
  buffer = allocated;
  buffer_size = size;
  read_position = 0;
  available_read_size = 0;
  write_position = 0;
}

-- IOBuffer(buffer, size, avaliableReadSize).
unfoldable pub io_buffer_over : Option (List ℕ) → ℕ → ℕ → IoBuffer
io_buffer_over buffer size available = record {
  need_free = false;
  buffer = buffer;
  buffer_size = size;
  read_position = 0;
  available_read_size = available;
  write_position = 0;
}

-- IOBuffer(buffer, size).
unfoldable pub io_buffer_for : Option (List ℕ) → ℕ → IoBuffer
unfolding io_buffer_over
io_buffer_for buffer size = io_buffer_over buffer size 0

-- Write(buffer, size), for a caller's `source` that may be longer or shorter than `size`: the
-- number that is returned.
unfoldable pub write : List ℕ → ℕ → M ℕ
write source size io =
    if ltb io.buffer_size (u64 (io.write_position + size))
    then returns 0 io
    else elim (peek 0 size source) [
      | none ↦ faults
      | some bs ↦
          (save io.write_position bs >>= λ _ io'.
          returns size (record io' { write_position = u64 (io'.write_position + size) }))
            io
    ]

-- Write(buffer, size, pos).
unfoldable pub write_at : List ℕ → ℕ → ℕ → M ℕ
write_at source size at io =
    if ltb io.buffer_size (u64 (at + size))
    then returns 0 io
    else elim (peek 0 size source) [ none ↦ faults | some bs ↦ (save at bs >>= λ _. pure size) io ]

-- Read(buffer, size): the bytes that are copied out, none where the call returns 0.
unfoldable pub read : ℕ → M (List ℕ)
read size io =
    if ltb io.available_read_size (u64 (io.read_position + size))
    then returns [] io
    else (load io.read_position size >>= λ bs io'.
          returns bs (record io' { read_position = u64 (io'.read_position + size) }))
        io

-- Read(buffer, size, pos).
unfoldable pub read_at : ℕ → ℕ → M (List ℕ)
read_at size at io =
    if ltb io.available_read_size (u64 (at + size)) then returns [] io else load at size io

-- position += offset, for a signed offset.
abbrev pub offset_by : ℕ → ℤ → ℕ
offset_by p (pos n) = u64 (p + n)
offset_by p (negsuc n) = sub64 p (suc n)

-- ReadSeek.
unfoldable pub read_seek : ℤ → IoBuffer → IoBuffer
read_seek offset io =
    let p = offset_by io.read_position offset in
    record io { read_position = if ltb io.available_read_size p then io.available_read_size else p }

-- WriteSeek.
unfoldable pub write_seek : ℤ → IoBuffer → IoBuffer
write_seek offset io =
    let p = offset_by io.write_position offset in
    record io { write_position = if ltb io.buffer_size p then io.buffer_size else p }

-- GetReadSize, GetWriteSize, GetReadPosition, GetWritePosition.
abbrev pub get_read_size : IoBuffer → ℕ
get_read_size io = io.available_read_size

abbrev pub get_write_size : IoBuffer → ℕ
get_write_size io = io.write_position

abbrev pub get_read_position : IoBuffer → ℕ
get_read_position io = io.read_position

abbrev pub get_write_position : IoBuffer → ℕ
get_write_position io = io.write_position
