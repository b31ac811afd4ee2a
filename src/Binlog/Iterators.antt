-- ===== src/Binlog/Iterators.antt =====
-- struct BinlogIterator of include/Binlog.hpp, and GetIterator of src/Binlog.cc.
use libsimplesvr.Base.{ℕ, ◌-◌, ◌/◌, ◌%◌, Option, none, some, List, ltb, ◌==◌, if◌then◌else◌, u32}
use libsimplesvr.Base.Int.{ℤ, pos, negsuc}
use libsimplesvr.IoBuffer.Buffer.{peek}
use libsimplesvr.Binlog.{BlockHead, Binlog}

-- `block_buffer` is the allocation behind cBlockBuffer, `none` for NULL, and `log_buffer` the index
-- that cLogBuffer points to there. `real_size` is the bit pattern of an int.
pub record Iterator : Type 0 where
  pub block_index : ℕ
  pub offset : ℕ
  pub block_size : ℕ
  pub block_buffer : Option (List ℕ)
  pub real_size : ℕ
  pub block_head : BlockHead
  pub log_buffer : Option ℕ
  pub log_size : ℕ
  pub log_offset : ℕ

-- GetIterator(), with what malloc returns and the two fields that the constructor leaves as they are.
unfoldable pub get_iterator : Option (List ℕ) → BlockHead → ℕ → Binlog → Iterator
get_iterator allocated block_head log_offset log = record {
  block_index = 0;
  offset = 0;
  block_size = log.head.block_size;
  block_buffer = allocated;
  real_size = 0;
  block_head = block_head;
  log_buffer = none;
  log_size = 0;
  log_offset = log_offset;
}

-- GetIterator(offset). A block size of 0 divides by zero.
unfoldable pub get_iterator_at : ℤ → Option (List ℕ) → BlockHead → ℕ → Binlog → Option Iterator
get_iterator_at (negsuc n) allocated block_head log_offset log =
    some (get_iterator allocated block_head log_offset log)
get_iterator_at (pos n) allocated block_head log_offset log =
    let start = log.head.data_offset in
    let size = log.head.block_size in
    let iter = get_iterator allocated block_head log_offset log in
    if ltb n start
    then some iter
    else if size == 0
    then none
    else some (record iter { block_index = u32 ((n - start) / size); offset = (n - start) % size })

-- Release.
unfoldable pub release : Iterator → Iterator
release it = elim it.block_buffer [
  | none ↦ it
  | some b ↦ record it {
    block_index = 0;
    offset = 0;
    block_size = 0;
    block_buffer = none;
    real_size = 0;
    log_buffer = none;
    log_size = 0;
  }
]

-- GetOffset, and the bytes behind GetBuffer of which there are GetSize.
abbrev pub get_offset : Iterator → ℕ
get_offset it = it.log_offset

unfoldable pub get_log : Iterator → Option (List ℕ)
get_log it = elim it.log_buffer [
  | none ↦ none
  | some at ↦ elim it.block_buffer [ none ↦ none | some b ↦ peek at it.log_size b ]
]
