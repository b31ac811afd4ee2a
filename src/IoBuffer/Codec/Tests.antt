-- ===== src/IoBuffer/Codec/Tests.antt =====
-- The buffer of include/IOBuffer.hpp at concrete inputs.
use libsimplesvr.Base.{
  ℕ, ◌+◌, ◌^◌, ◌≤◌, ◌≡◌, List, [], ◌∷◌, map, length, replicate, arith, refl, some, false,
}
use libsimplesvr.Base.Int.{pos, negsuc}
use libsimplesvr.IoBuffer.Bytes.{little, be_bytes, le_bytes, IsBytes}
use libsimplesvr.IoBuffer.Buffer.{IoBuffer, returns}
use libsimplesvr.IoBuffer.Streams.{pattern_of}
use libsimplesvr.IoBuffer.Streams.Raw.{IsValid}
use libsimplesvr.IoBuffer.Codec.{Field, Kind, kind_of, put_all, get_all}
use libsimplesvr.IoBuffer.Codec.Fields.{wire}
use libsimplesvr.IoBuffer.Codec.RoundTrip.{wires, reader, get_all-put_all}
use libsimplesvr.IoBuffer.Codec.Methods.{writes, gets, seeks_read, Sound, After, perform_all}
use libsimplesvr.IoBuffer.Codec.Methods.Keep.{perform_all-Sound}

abbrev memory : List ℕ
memory = 0 ∷ 5 ∷ 72 ∷ 105 ∷ 7 ∷ 7 ∷ 7 ∷ 7 ∷ 7 ∷ 7 ∷ 7 ∷ 7 ∷ []

-- Twelve bytes, the first eight of which can be read.
abbrev buffer : IoBuffer
buffer = record {
  need_free = false;
  buffer = some memory;
  buffer_size = 12;
  read_position = 0;
  available_read_size = 8;
  write_position = 0;
}

buffer-IsValid : IsValid memory buffer
buffer-IsValid = record {
  memory = refl;
  allocated = omega arith;
  sized = omega arith;
  readable = omega arith;
  reading = omega arith;
  writing = omega arith;
}

memory-IsBytes : IsBytes memory
memory-IsBytes = ground arith

abbrev fields : List Field
fields = Field.uint16 258 ∷ Field.int32 (negsuc 4) ∷ Field.text (72 ∷ 105 ∷ []) ∷ []

fields-fit : buffer.write_position + length (wires little fields) ≤ buffer.buffer_size
unfolding wires wire be_bytes le_bytes pattern_of
fields-fit = omega arith

get_all-put_all_example :
    (io' : IoBuffer) × (put_all little fields buffer ≡ returns tt io')
    × (io'.write_position ≡ 0 + length (wires little fields))
    × (get_all little (map kind_of fields) (reader 0 io')
        ≡ returns fields (reader io'.write_position io'))
get_all-put_all_example =
    get_all-put_all little fields memory buffer buffer-IsValid (ground arith) fields-fit

buffer-Sound : Sound 12 buffer
buffer-Sound = record {
  bytes = memory;
  valid = buffer-IsValid;
  are_bytes = memory-IsBytes;
  size = refl;
}

perform_all-Sound_example :
    After
      (Sound 12)
      (perform_all little (seeks_read (pos 3) ∷ gets Kind.uint64 ∷ writes (1 ∷ 2 ∷ []) ∷ []) buffer)
perform_all-Sound_example =
    perform_all-Sound little 12 (seeks_read (pos 3) ∷ gets Kind.uint64 ∷ writes (1 ∷ 2 ∷ []) ∷ [])
      buffer (tt, (tt, ((omega arith, (omega arith, (omega arith, tt))), tt))) buffer-Sound

-- A text of 65539 bytes: the reader gets three of them.
abbrev long : List ℕ
long = replicate (2 ^ 16 + 3) 7

abbrev room_for_long : List ℕ
room_for_long = replicate (2 ^ 16 + 9) 0

abbrev wide : IoBuffer
wide = record buffer {
  buffer = some room_for_long;
  buffer_size = 2 ^ 16 + 9;
  available_read_size = 0;
}
