-- ===== src/Binlog.antt =====
-- include/Binlog.hpp and src/Binlog.cc: the file of a binlog, its heads, and what is written to it.
--
-- A descriptor is the file's bytes with a position; open, ftruncate, fstat, lseek, writev and pread do
-- what POSIX says. The failures of each call are arguments, and the short counts of writev; a pread that
-- succeeds gives all bytes that there are, up to the block's size. BinlogIterator is in
-- Binlog/Iterators.antt, Next in Binlog/Reader.antt, Write in Binlog/Writer.antt.
pub mod Writer
pub mod Iterators
pub mod Reader
pub mod Rank
pub mod Ends
pub mod Words
pub mod Wire
pub mod Trail
pub mod Appends
pub mod Records
pub mod Passes
pub mod Loads
pub mod Fills
pub mod Yields
pub mod ReadBack
pub mod Seek
pub mod Journal
pub mod HeadBytes
pub mod Heads
mod Tests
use libsimplesvr.Base.{
  ℕ, ◌+◌, ◌-◌, ◌%◌, ◌^◌, ◌≡◌, Bool, true, false, ◌&&◌, Option, none, some, List, [], ◌∷◌, ◌++◌, ltb,
  leb, ◌==◌, if◌then◌else◌, u32, length, take, replicate, not,
}
use libsimplesvr.Base.Int.{ℤ, pos, negsuc}
use libsimplesvr.IoBuffer.Bytes.{Host, store, hton}
use libsimplesvr.IoBuffer.Buffer.{
  IoBuffer, M, Outcome, returns, throws, faults, ◌>>=◌, ◌>>◌, pure, read, write, splice,
  io_buffer_for, io_buffer_over,
}
use libsimplesvr.IoBuffer.Streams.{get_byte, get_uint16, get_uint32, put_byte, put_uint32}
use libsimplesvr.IoBuffer.Codec.{Field, put_all}

-- struct BinlogBlockHead and struct BinlogHead.
pub record BlockHead : Type 0 where
  pub magic : ℕ
  pub create_time : ℕ

pub record Head : Type 0 where
  pub magic : List ℕ
  pub version : ℕ
  pub data_offset : ℕ
  pub block_size : ℕ
  pub create_time : ℕ

-- BINLOG_HEAD_MAGIC, "#BINLOG#".
abbrev pub head_magic : List ℕ
head_magic = 35 ∷ 66 ∷ 73 ∷ 78 ∷ 76 ∷ 79 ∷ 71 ∷ 35 ∷ []

-- BINLOG_HEAD_VERSION, BINLOG_HEAD_SIZE, BINLOG_BLOCKHEAD_MAGIC, BINLOG_BLOCKHEAD_SIZE.
abbrev pub head_version : ℕ
head_version = 257

abbrev pub head_size : ℕ
head_size = 4096

abbrev pub block_magic : ℕ
block_magic = 239

abbrev pub block_head_size : ℕ
block_head_size = 8

-- bzero.
unfoldable pub zeros : ℕ → List ℕ
zeros n = replicate n 0

module _ (host : Host) where
  -- in >> stHead, over what stHead held: a Read that returns 0 leaves cMagic.
  unfoldable pub get_head : Head → M Head
  get_head h = read 8 >>= λ bs. get_uint16 host >>= λ version. get_uint16 host >>= λ data_offset.
      get_uint32 host >>= λ block_size. get_uint32 host >>= λ create_time. pure (record {
        magic = if length bs == 0 then h.magic else bs;
        version = version;
        data_offset = data_offset;
        block_size = block_size;
        create_time = create_time;
      })

  -- out << stHead.
  unfoldable pub put_head : Head → M (Unit {0})
  put_head h = write h.magic 8 >>= λ _. put_all host (
      Field.uint16 h.version
      ∷ Field.uint16 h.data_offset
      ∷ Field.uint32 h.block_size
      ∷ Field.uint32 h.create_time
      ∷ [])

  -- in >> stBlockHead.
  unfoldable pub get_block_head : M BlockHead
  get_block_head = get_byte host >>= λ magic.
      get_uint32 host >>= λ create_time. pure (record { magic = magic; create_time = create_time })

  -- out << stBlockHead.
  unfoldable pub put_block_head : BlockHead → M (Unit {0})
  put_block_head h = put_byte host h.magic >> put_uint32 host h.create_time

-- What a descriptor refers to; `append` is O_APPEND.
pub record File : Type 0 where
  pub contents : List ℕ
  pub position : ℕ
  pub append : Bool

-- m_fdBinlog: -1, a number that was closed (and is not in use again), or an open file.
pub data Handle : Type 0 where
  unset stale : Handle
  live : File → Handle

pub record Binlog : Type 0 where
  pub fd : Handle
  pub head : Head

-- A call returns a number, throws out of an operator of IOBuffer, or does what C++ leaves undefined.
pub data Result : Type 0 where
  returned : ℤ → Binlog → Result
  thrown : Binlog → Result
  undefined : Result

abbrev pub failed : Binlog → Result
failed = returned (negsuc 0)

-- close(m_fdBinlog), which leaves m_fdBinlog.
unfoldable pub close : Binlog → Binlog
close log = record log { fd = elim log.fd [ unset ↦ unset | _ ↦ stale ] }

-- memcmp of arrays of one size.
unfoldable pub same : List ℕ → List ℕ → Bool
same [] ys = true
same (x ∷ xs) [] = true
same (x ∷ xs) (y ∷ ys) = x == y && same xs ys

-- OpenLog, with the bytes of the path's file where open succeeds, the bytes that `buffer` held
-- before, and whether pread succeeds. What a throw of >> would leave in m_stHead is not kept: it
-- takes 20 bytes of 4096.
unfoldable pub open_log : Host → Option (List ℕ) → List ℕ → Bool → Binlog → Result
open_log host path buffer reads log = elim path [
  | none ↦ failed (record log { fd = unset })
  | some contents ↦
      let opened = record log {
        fd = live (record { contents = contents; position = 0; append = true });
      } in
      if not reads
      then failed (close opened)
      else elim (get_head host log.head
          (io_buffer_over (some (splice 0 (take head_size contents) buffer)) head_size head_size)) [
            | throws io ↦ thrown opened
            | faults ↦ undefined
            | returns h io ↦
                let read = record opened { head = h } in
                if same h.magic head_magic && h.version == head_version
                then returned (pos 0) read
                else failed (close read)
          ]
]

-- The bytes of a file after some are written at a position: a gap is filled with zeros.
unfoldable pub overwrite : ℕ → List ℕ → List ℕ → List ℕ
overwrite at [] contents = contents
overwrite at (b ∷ bs) contents =
    splice at (b ∷ bs) (contents ++ zeros (at + length (b ∷ bs) - length contents))

-- write and writev of which `taken` bytes are taken.
unfoldable pub write_out : List ℕ → ℕ → File → File
write_out bs taken f =
    let at = if f.append then length f.contents else f.position in
    let sent = take taken bs in
    record f { contents = overwrite at sent f.contents; position = at + length sent }

-- CreateLog, with the bytes of the path's file where open succeeds, whether ftruncate does, the
-- clock, and how many bytes write takes where it succeeds.
unfoldable pub create_log : Host → Option (List ℕ) → Bool → ℕ → Option ℕ → ℕ → Binlog → Result
create_log host path truncates now taken block_size log = elim path [
  | none ↦ failed (record log { fd = unset })
  | some old ↦
      let f : File = record {
        contents = if truncates then [] else old;
        position = 0;
        append = false;
      } in
      let h : Head = record {
        magic = head_magic;
        version = head_version;
        data_offset = head_size;
        block_size = block_size;
        create_time = u32 now;
      } in
      let created : Binlog = record { fd = live f; head = h } in
      elim (put_head host h (io_buffer_for (some (zeros head_size)) head_size)) [
        | throws io ↦ thrown created
        | faults ↦ undefined
        | returns _ io ↦ elim io.buffer [
          | none ↦ undefined
          | some bytes ↦ elim taken [
            | none ↦ failed created
            | some k ↦ returned (pos 0) (record created { fd = live (write_out bytes k f) })
          ]
        ]
      ]
]

-- fstat's st_size.
unfoldable pub stat_size : Bool → Handle → Option ℕ
stat_size true (live f) = some (length f.contents)
stat_size _ _ = none

-- GetSize.
unfoldable pub get_size : Bool → Binlog → ℕ
get_size stats log = elim (stat_size stats log.fd) [ none ↦ 0 | some size ↦ size ]
