-- ===== src/Binlog/Writer.antt =====
-- Binlog::Write of src/Binlog.cc.
use libsimplesvr.Base.{
  ℕ, ◌+◌, ◌-◌, ◌%◌, Bool, ◌||◌, Option, none, some, List, [], ◌∷◌, ◌++◌, ltb, leb, ◌==◌,
  if◌then◌else◌, u32, length, not,
}
use libsimplesvr.Base.Int.{pos}
use libsimplesvr.IoBuffer.Bytes.{Host, store, hton}
use libsimplesvr.IoBuffer.Buffer.{returns, throws, faults, io_buffer_for}
use libsimplesvr.Binlog.{
  Head, Binlog, File, live, Result, returned, thrown, undefined, failed, block_magic,
  block_head_size, zeros, put_block_head, write_out,
}

-- BINLOG_SMAGIC and BINLOG_EMAGIC.
abbrev pub start_magic : ℕ
start_magic = 3

abbrev pub end_magic : ℕ
end_magic = 10

-- GetLogSize, as the uint32_t that Write and Next keep.
unfoldable pub get_log_size : ℕ → ℕ
get_log_size size = u32 (6 + size)

-- The system calls of a Write: whether fstat and lseek succeed, the clock, and how many bytes writev
-- takes where it succeeds.
pub record Calls : Type 0 where
  pub stats : Bool
  pub seeks : Bool
  pub now : ℕ
  pub taken : Option ℕ

-- dwBlockSize - ((st_size - wDataOffset) % dwBlockSize), where % is signed.
unfoldable pub remain_size : Head → ℕ → ℕ
remain_size h size =
    if leb h.data_offset size
    then h.block_size - (size - h.data_offset) % h.block_size
    else u32 (h.block_size + (h.data_offset - size) % h.block_size)

-- The four vectors of a log: SMAGIC, htonl(size), the caller's bytes, EMAGIC.
unfoldable pub log_bytes : Host → List ℕ → List ℕ
log_bytes host message =
    start_magic
    ∷ (store host 4 (hton host 4 (u32 (length message))) ++ (message ++ (end_magic ∷ [])))

-- cBlockHeadBuf after the block's head is put there.
unfoldable pub with_block_head : Host → ℕ → Binlog → (List ℕ → Result) → Result
with_block_head host now log rest =
    elim (put_block_head host (record { magic = block_magic; create_time = u32 now })
      (io_buffer_for (some (zeros block_head_size)) block_head_size)) [
        | throws io ↦ thrown log
        | faults ↦ undefined
        | returns _ io ↦ elim io.buffer [ none ↦ undefined | some bytes ↦ rest bytes ]
      ]

-- writev, and the offset that Write returns.
unfoldable pub emit : Calls → Binlog → File → ℕ → List ℕ → Result
emit calls log f offset bytes = elim calls.taken [
  | none ↦ failed (record log { fd = live f })
  | some k ↦ returned (pos offset) (record log { fd = live (write_out bytes k f) })
]

-- A log that starts a block, a log that starts the next one, and a log behind others.
unfoldable pub start_block : Host → Calls → List ℕ → Binlog → File → ℕ → Result
start_block host calls message log f offset =
    with_block_head host calls.now log
      λ head. emit calls log f (offset + block_head_size) (head ++ log_bytes host message)

unfoldable pub seek_block : Host → Calls → List ℕ → Binlog → File → ℕ → Result
seek_block host calls message log f remain =
    let f' = record f { position = f.position + remain } in
    if calls.seeks
    then start_block host calls message (record log { fd = live f' }) f'
        (length f.contents + remain)
    else failed log

unfoldable pub write_log : Host → Calls → List ℕ → Binlog → File → ℕ → Result
write_log host calls message log f remain =
    if remain == log.head.block_size
    then start_block host calls message log f (length f.contents)
    else if ltb remain (get_log_size (length message))
    then seek_block host calls message log f remain
    else emit calls log f (length f.contents) (log_bytes host message)

-- Write. Every call on a descriptor that is not open fails, and a block size of 0 divides by zero.
unfoldable pub write : Host → Calls → List ℕ → Binlog → Result
write host calls message log = elim log.fd [
  | live f ↦
      if ltb log.head.block_size (get_log_size (length message)) || not calls.stats
      then failed log
      else if log.head.block_size == 0
      then undefined
      else write_log host calls message log f (remain_size log.head (length f.contents))
  | _ ↦ failed log
]
