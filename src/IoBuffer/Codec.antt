-- ===== src/IoBuffer/Codec.antt =====
-- The overloads of >> and << of src/IOBuffer.cc as one call each: a field is a value with the C++
-- type that selects the overload.
pub mod Fields
pub mod Safety
pub mod Methods
mod Tests
pub mod RoundTrip
use libsimplesvr.Base.{ℕ, ◌^◌, ◌+◌, ◌%◌, ◌<◌, List, [], ◌∷◌, ◌++◌, length}
use libsimplesvr.Base.Int.{ℤ, pos, negsuc}
use libsimplesvr.IoBuffer.Bytes.{Host, store, hton, hton64, IsBytes}
use libsimplesvr.IoBuffer.Buffer.{M, pure, ◌>>=◌, ◌>>◌}
use libsimplesvr.IoBuffer.Streams.{
  get_byte, get_uint16, get_int16, get_uint32, get_int32, get_uint64, get_int64, get_string,
  put_byte, put_uint16, put_int16, put_uint32, put_int32, put_uint64, put_int64, put_string,
  pattern_of,
}

pub data Field : Type 0 where
  byte uint16 uint32 uint64 : ℕ → Field
  int16 int32 int64 : ℤ → Field
  text : List ℕ → Field

pub data Kind : Type 0 where
  byte uint16 uint32 uint64 int16 int32 int64 text : Kind

abbrev pub kind_of : Field → Kind
kind_of (Field.byte v) = Kind.byte
kind_of (Field.uint16 v) = Kind.uint16
kind_of (Field.uint32 v) = Kind.uint32
kind_of (Field.uint64 v) = Kind.uint64
kind_of (Field.int16 v) = Kind.int16
kind_of (Field.int32 v) = Kind.int32
kind_of (Field.int64 v) = Kind.int64
kind_of (Field.text v) = Kind.text

-- The values of intN_t.
abbrev InRange : ℕ → ℤ → Type 0
InRange half (pos n) = n < half
InRange half (negsuc n) = n < half

-- The value is one of the C++ type. A text's length must fit the uint16_t that is sent.
abbrev pub IsValue : Field → Type 0
IsValue (Field.byte v) = v < 2 ^ 8
IsValue (Field.uint16 v) = v < 2 ^ 16
IsValue (Field.uint32 v) = v < 2 ^ 32
IsValue (Field.uint64 v) = v < 2 ^ 64
IsValue (Field.int16 v) = InRange (2 ^ 15) v
IsValue (Field.int32 v) = InRange (2 ^ 31) v
IsValue (Field.int64 v) = InRange (2 ^ 63) v
IsValue (Field.text v) = length v < 2 ^ 16

module _ (host : Host) where
  -- out << field, and in >> a variable of the kind.
  unfoldable pub put : Field → M (Unit {0})
  put (Field.byte v) = put_byte host v
  put (Field.uint16 v) = put_uint16 host v
  put (Field.uint32 v) = put_uint32 host v
  put (Field.uint64 v) = put_uint64 host v
  put (Field.int16 v) = put_int16 host v
  put (Field.int32 v) = put_int32 host v
  put (Field.int64 v) = put_int64 host v
  put (Field.text v) = put_string host v

  unfoldable pub get : Kind → M Field
  get Kind.byte = get_byte host >>= λ v. pure (Field.byte v)
  get Kind.uint16 = get_uint16 host >>= λ v. pure (Field.uint16 v)
  get Kind.uint32 = get_uint32 host >>= λ v. pure (Field.uint32 v)
  get Kind.uint64 = get_uint64 host >>= λ v. pure (Field.uint64 v)
  get Kind.int16 = get_int16 host >>= λ v. pure (Field.int16 v)
  get Kind.int32 = get_int32 host >>= λ v. pure (Field.int32 v)
  get Kind.int64 = get_int64 host >>= λ v. pure (Field.int64 v)
  get Kind.text = get_string host >>= λ v. pure (Field.text v)

  -- out << a << b << ... and in >> a >> b >> ...
  unfoldable pub put_all : List Field → M (Unit {0})
  put_all [] = pure tt
  put_all (f ∷ fs) = put f >> put_all fs

  unfoldable pub get_all : List Kind → M (List Field)
  get_all [] = pure []
  get_all (k ∷ ks) = get k >>= λ f. (get_all ks >>= λ fs. pure (f ∷ fs))
