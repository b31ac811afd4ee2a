-- ===== src/Binlog/Reader.antt =====
-- Next of src/Binlog.cc.
use libsimplesvr.Base.{
  ℕ, zero, suc, ◌+◌, ◌*◌, ◌-◌, ◌^◌, Bool, true, false, ◌&&◌, ◌||◌, Option, none, some, List, [],
  ◌∷◌, ltb, leb, ◌==◌, if◌then◌else◌, u32, sub32, length, take, drop,
}
use libsimplesvr.Base.Int.{ℤ, pos, negsuc}
use libsimplesvr.IoBuffer.Bytes.{Host}
use libsimplesvr.IoBuffer.Buffer.{
  IoBuffer, M, returns, throws, faults, ◌>>=◌, peek, poke, read_seek, io_buffer_over,
}
use libsimplesvr.IoBuffer.Streams.{get_byte, get_uint32, signed}
use libsimplesvr.Binlog.{
  Binlog, Handle, live, block_magic, block_head_size, get_block_head, stat_size,
}
use libsimplesvr.Binlog.Writer.{start_magic, end_magic, get_log_size}
use libsimplesvr.Binlog.Iterators.{Iterator}

-- What Next returns with the iterator that it leaves; `spent` is no result of the code, but a loop
-- that has run out of fuel.
pub data Next : Type 0 where
  returned : ℤ → Iterator → Next
  thrown : Iterator → Next
  undefined spent : Next

-- A pass of the loops of Next goes on or returns.
pub data Pass : Type 0 where
  again : Iterator → Pass
  done : Next → Pass

-- Whether fstat and pread succeed in a pass. A pread that does gives all bytes that there are.
pub record Reads : Type 0 where
  pub stats : Bool
  pub reads : Bool

abbrev pub fails : Iterator → Pass
fails it = done (returned (negsuc 0) it)

-- wDataOffset + dwBlockSize * dwBlockIndex, in uint32_t.
unfoldable pub block_start : Binlog → ℕ → ℕ
block_start log index = u32 (log.head.data_offset + log.head.block_size * index)

-- pread of a block's bytes.
unfoldable pub read_file : Bool → Handle → ℕ → ℕ → Option (List ℕ)
read_file true (live f) size at = some (take size (drop at f.contents))
read_file _ _ size at = none

-- The tests of what pread has returned.
unfoldable pub checked : Iterator → (Iterator → Pass) → Pass
checked it rest =
    if it.real_size == 2 ^ 32 - 1
    then fails it
    else if it.real_size == 0
    then done (returned (pos 0) it)
    else if leb (2 ^ 31) it.real_size || ltb it.real_size block_head_size
    then fails it
    else rest it

-- pread into cBlockBuffer, and the tests. A null pointer makes it fail, but at the file's end.
unfoldable pub fill : Reads → Binlog → Iterator → (Iterator → Pass) → Pass
fill calls log it rest =
    elim (read_file calls.reads log.fd log.head.block_size (block_start log it.block_index)) [
      | none ↦ checked (record it { real_size = 2 ^ 32 - 1 }) rest
      | some bytes ↦ elim it.block_buffer [
        | none ↦
            checked (record it { real_size = if length bytes == 0 then 0 else 2 ^ 32 - 1 }) rest
        | some b ↦ elim (poke 0 bytes b) [
          | none ↦ done undefined
          | some b' ↦
              checked (record it { block_buffer = some b'; real_size = u32 (length bytes) }) rest
        ]
      ]
    ]

-- ioBlockBuf >> pIter->stBlockHead, and the test of its magic: a block without one is passed over.
unfoldable pub read_block_head : Host → Binlog → Iterator → (Iterator → Pass) → Pass
read_block_head host log it rest =
    elim (get_block_head host (io_buffer_over it.block_buffer it.real_size it.real_size)) [
      | throws io ↦ done (thrown it)
      | faults ↦ done undefined
      | returns h io ↦
          let it' = record it { block_head = h } in
          if h.magic == block_magic
          then rest it'
          else again (record it' { offset = log.head.block_size })
    ]

-- The three branches of the inner loop: the next block, the block again, the block.
unfoldable pub next_block : Host → Reads → Binlog → Iterator → Pass
next_block host calls log it =
    fill calls log (record it { block_index = u32 (it.block_index + 1) })
      λ it₁. read_block_head host log it₁ λ it₂. again (record it₂ { offset = block_head_size })

unfoldable pub reload : Reads → Binlog → Iterator → Pass
reload calls log it = elim (stat_size calls.stats log.fd) [
  | none ↦ fails it
  | some size ↦
      if leb size (u32 (block_start log it.block_index + it.offset))
      then done (returned (pos 0) it)
      else fill calls log it again
]

unfoldable pub load : Host → Reads → Binlog → Iterator → Pass
load host calls log it = fill calls log it λ it₁. read_block_head host log it₁ λ it₂.
    again (record it₂ {
      offset = if ltb it₂.offset block_head_size then block_head_size else it₂.offset;
    })

unfoldable pub refill : Host → Reads → Binlog → Iterator → Pass
refill host calls log it =
    if leb log.head.block_size it.offset
    then next_block host calls log it
    else if ltb 0 it.real_size && ltb it.real_size (2 ^ 31) && ltb it.real_size log.head.block_size
    then reload calls log it
    else load host calls log it

-- ioLogBuf >> cMagicS >> dwLogSize.
unfoldable pub get_log_head : Host → M ℕ
get_log_head host = get_byte host >>= λ magic. get_uint32 host

-- The rest of the block is passed over.
abbrev pub skip : Binlog → Iterator → Pass
skip log it = again (record it { offset = log.head.block_size })

-- What a log's length gives: cLogBuffer, dwLogSize and dwLogOffset.
abbrev pub found : Binlog → Iterator → ℕ → ℕ → Iterator
found log it n at = record it {
  log_size = n;
  log_buffer = some (it.offset + at);
  log_offset = u32 (block_start log it.block_index + it.offset);
}

-- Behind the length: the end of the log, and its mark.
unfoldable pub finish : Host → Binlog → Iterator → ℕ → IoBuffer → Pass
finish host log it n io =
    let it' = found log it n io.read_position in
    elim (get_byte host (read_seek (pos n) io)) [
      | throws _ ↦ done (thrown it')
      | faults ↦ done undefined
      | returns c _ ↦
          if c == end_magic
          then done (
              returned (signed 32 (u32 (n + 6)))
                (record it' { offset = u32 (it.offset + get_log_size n) }))
          else skip log it'
    ]

-- A log of which `size` bytes are in the buffer.
unfoldable pub parse_log : Host → Binlog → Iterator → List ℕ → ℕ → Pass
parse_log host log it b size =
    if ltb size 6
    then skip log it
    else elim (get_log_head host (io_buffer_over (some (drop it.offset b)) size size)) [
      | throws _ ↦ done (thrown it)
      | faults ↦ done undefined
      | returns n io ↦ if ltb size (get_log_size n) then skip log it else finish host log it n io
    ]

unfoldable pub starts : List ℕ → Bool
starts [] = false
starts (c ∷ cs) = c == start_magic

-- The log at dwOffset.
unfoldable pub parse : Host → Binlog → Iterator → Pass
parse host log it = elim it.block_buffer [
  | none ↦ done undefined
  | some b ↦ elim (peek it.offset 1 b) [
    | none ↦ done undefined
    | some first ↦
        if starts first then parse_log host log it b (sub32 it.real_size it.offset) else skip log it
  ]
]

-- One pass: dwOffset is compared with what the block's buffer holds.
unfoldable pub pass : Host → Reads → Binlog → Iterator → Pass
pass host calls log it =
    if leb it.real_size it.offset then refill host calls log it else parse host log it

-- The loops of Next, with the calls of each pass.
unfoldable pub loop : Host → ℕ → (ℕ → Reads) → Binlog → Iterator → Next
loop host zero calls log it = spent
loop host (suc fuel) calls log it = elim (pass host (calls fuel) log it) [
  | again it' ↦ loop host fuel calls log it'
  | done r ↦ r
]

-- Next, for a pointer that is not null.
unfoldable pub next : Host → ℕ → (ℕ → Reads) → Binlog → Iterator → Next
next host fuel calls log it =
    if ltb it.block_size log.head.block_size
    then returned (negsuc 0) it
    else loop host fuel calls log it
