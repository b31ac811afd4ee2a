-- ===== src/IoBuffer/Streams.antt =====
-- The operators >> and << of src/IOBuffer.cc, one for each type. The state at a throw is kept, so
-- that what a chain `in >> a >> b` has read before it fails is seen.
pub mod Raw
pub mod Strings
use libsimplesvr.Base.{
  ℕ, zero, suc, ◌+◌, ◌-◌, ◌%◌, ◌^◌, ◌≡◌, Bool, true, false, ◌||◌, Option, none, some, List, [], ◌∷◌,
  ◌++◌, ltb, leb, if◌then◌else◌, u64, sub64, length, take, drop, replicate,
}
use libsimplesvr.Base.Int.{ℤ, pos, negsuc}
use libsimplesvr.IoBuffer.Bytes.{Host, store, fetch, hton, hton64}
use libsimplesvr.IoBuffer.Buffer.{
  IoBuffer, Outcome, returns, throws, faults, M, pure, and_then, ◌>>=◌, ◌>>◌, load, save,
}

-- The test that each >> makes first: a null pointer or too few bytes left.
pub need : ℕ → M (Unit {0})
need n io = elim io.buffer [
  | none ↦ throws io
  | some b ↦
      if ltb io.available_read_size (u64 (io.read_position + n)) then throws io else returns tt io
]

-- The test that each << makes first. It does not look at the pointer.
pub room : ℕ → M (Unit {0})
room n io = if ltb io.buffer_size (u64 (io.write_position + n)) then throws io else returns tt io

skip_read : ℕ → M (Unit {0})
skip_read n io = returns tt (record io { read_position = u64 (io.read_position + n) })

skip_write : ℕ → M (Unit {0})
skip_write n io = returns tt (record io { write_position = u64 (io.write_position + n) })

-- The `n` bytes that a >> of `n` bytes takes.
pub get_raw : ℕ → M (List ℕ)
unfolding need skip_read
get_raw n io = (need n >> (load io.read_position n >>= λ bs. skip_read n >> pure bs)) io

pub put_raw : List ℕ → M (Unit {0})
unfolding room skip_write
put_raw bs io = (room (length bs) >> (save io.write_position bs >> skip_write (length bs))) io

-- intN_t with a given bit pattern, and the pattern of an integer.
unfoldable pub signed : ℕ → ℕ → ℤ
signed bits p = if ltb p (2 ^ (bits - 1)) then pos p else negsuc (2 ^ bits - 1 - p)

unfoldable pub pattern_of : ℕ → ℤ → ℕ
pattern_of bits (pos n) = n % 2 ^ bits
pattern_of bits (negsuc n) = 2 ^ bits - 1 - n % 2 ^ bits

module _ (host : Host) where
  -- >> of char and of unsigned char: the byte.
  unfoldable pub get_byte : M ℕ
  get_byte = get_raw 1 >>= λ bs. pure (fetch host bs)

  unfoldable pub get_uint16 : M ℕ
  get_uint16 = get_raw 2 >>= λ bs. pure (hton host 2 (fetch host bs))

  unfoldable pub get_int16 : M ℤ
  get_int16 = get_raw 2 >>= λ bs. pure (signed 16 (hton host 2 (fetch host bs)))

  unfoldable pub get_uint32 : M ℕ
  get_uint32 = get_raw 4 >>= λ bs. pure (hton host 4 (fetch host bs))

  unfoldable pub get_int32 : M ℤ
  get_int32 = get_raw 4 >>= λ bs. pure (signed 32 (hton host 4 (fetch host bs)))

  unfoldable pub get_uint64 : M ℕ
  get_uint64 = get_raw 8 >>= λ bs. pure (hton64 host (fetch host bs))

  unfoldable pub get_int64 : M ℤ
  get_int64 = get_raw 8 >>= λ bs. pure (signed 64 (hton64 host (fetch host bs)))

  -- >> of std::string: the length is looked at before anything is taken.
  pub get_string : M (List ℕ)
  unfolding need skip_read
  get_string io =
      (need 2
          >> (load io.read_position 2 >>= λ bs.
              let len = hton host 2 (fetch host bs) in
              need (2 + len)
              >> (skip_read 2
                  >> (load (u64 (io.read_position + 2)) len >>= λ val. skip_read len >> pure val))))
        io

  -- << of char and of unsigned char.
  unfoldable pub put_byte : ℕ → M (Unit {0})
  put_byte v = put_raw (store host 1 v)

  unfoldable pub put_uint16 : ℕ → M (Unit {0})
  put_uint16 v = put_raw (store host 2 (hton host 2 v))

  unfoldable pub put_int16 : ℤ → M (Unit {0})
  put_int16 v = put_raw (store host 2 (hton host 2 (pattern_of 16 v)))

  unfoldable pub put_uint32 : ℕ → M (Unit {0})
  put_uint32 v = put_raw (store host 4 (hton host 4 v))

  unfoldable pub put_int32 : ℤ → M (Unit {0})
  put_int32 v = put_raw (store host 4 (hton host 4 (pattern_of 32 v)))

  unfoldable pub put_uint64 : ℕ → M (Unit {0})
  put_uint64 v = put_raw (store host 8 (hton64 host v))

  unfoldable pub put_int64 : ℤ → M (Unit {0})
  put_int64 v = put_raw (store host 8 (hton64 host (pattern_of 64 v)))

  -- << of std::string. htons takes the low sixteen bits of the length.
  pub put_string : List ℕ → M (Unit {0})
  unfolding room skip_write
  put_string val io =
      (room (2 + length val)
          >> (save io.write_position (store host 2 (hton host 2 (length val % 2 ^ 16)))
              >> (skip_write 2
                  >> (save (u64 (io.write_position + 2)) val >> skip_write (length val)))))
        io
