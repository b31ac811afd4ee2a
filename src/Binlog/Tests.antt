-- ===== src/Binlog/Tests.antt =====
-- The binlog of src/Binlog.cc at concrete inputs.
use libsimplesvr.Base.{
  ℕ, ◌+◌, ◌*◌, ◌≤◌, ◌≡◌, refl, true, false, none, some, List, [], ◌∷◌, ◌++◌, length, All, inl, u32,
  arith,
}
use libsimplesvr.Base.Int.{pos}
use libsimplesvr.IoBuffer.Bytes.{little, big}
use libsimplesvr.Binlog.{
  Binlog, BlockHead, File, Head, get_size, live, stat_size, zeros, open_log, create_log, returned,
}
use libsimplesvr.Binlog.Writer.{Calls, write, log_bytes}
use libsimplesvr.Binlog.Iterators.{Iterator, get_iterator, get_iterator_at}
use libsimplesvr.Binlog.Reader.{Reads, next}
use libsimplesvr.Binlog.Rank.{Ends}
use libsimplesvr.Binlog.Ends.{next-Ends}
use libsimplesvr.Binlog.Appends.{Ready, Working, length-zeros}
use libsimplesvr.Binlog.Records.{Recorded, write-Recorded}
use libsimplesvr.Binlog.Trail.{Stands}
use libsimplesvr.Binlog.Yields.{Yields}
use libsimplesvr.Binlog.Seek.{get_iterator_at-write}
use libsimplesvr.Binlog.Journal.{write_all, messages, Writable, write_all-Yields}
use libsimplesvr.Binlog.Heads.{open_log-create_log}

abbrev calls : Calls
calls = record { stats = true; seeks = true; now = 5; taken = some 100 }

calls-Working : Working calls 24
calls-Working = record {
  stats = refl;
  seeks = refl;
  limit = 100;
  taken = refl;
  enough = omega arith;
}

-- Two bytes of head, and blocks of 24 bytes.
abbrev head : Head
head = record { magic = []; version = 257; data_offset = 2; block_size = 24; create_time = 0 }

abbrev empty_file : File
empty_file = record { contents = 7 ∷ 7 ∷ []; position = 2; append = false }

abbrev empty_log : Binlog
empty_log = record { fd = live empty_file; head = head }

empty-Ready : Ready empty_log empty_file
empty-Ready = record { opened = refl; plain = refl; at_end = refl }

abbrev reading : ℕ → Reads
reading i = record { stats = true; reads = true }

abbrev no_head : BlockHead
no_head = record { magic = 0; create_time = 0 }

abbrev entries : List (Calls × List ℕ)
entries = (calls, 1 ∷ 2 ∷ []) ∷ (calls, 3 ∷ 4 ∷ 5 ∷ []) ∷ (calls, []) ∷ []

entries-Writable : All (Writable 24) entries
entries-Writable = (
  (calls-Working, omega arith),
  ((calls-Working, omega arith), ((calls-Working, omega arith), tt)),
)

write_all-Yields_example :
    (log' : Binlog) × (write_all little entries empty_log ≡ some log')
    × Yields little log' 4 reading
        (get_iterator (some (zeros 24)) no_head 0 log')
        (messages entries)
write_all-Yields_example =
    write_all-Yields little entries empty_log empty_file 0 reading (zeros 24) no_head 0 empty-Ready
      refl (omega arith) (omega arith) entries-Writable (omega arith) (λ i. (refl, refl))
      (length-zeros 24)

write-Recorded_example :
    (f' : File) × (at : ℕ) × (write big calls (1 ∷ 2 ∷ []) empty_log
      ≡ returned (pos at) (record empty_log { fd = live f' }))
    × Ready (record empty_log { fd = live f' }) f'
    × Recorded big head f'.contents ((1 ∷ 2 ∷ []) ∷ [])
    × Stands at (log_bytes big (1 ∷ 2 ∷ [])) f'.contents
    × (length f'.contents ≤ 2 + 2 * 24)
    × (at + (6 + 2) ≡ length f'.contents)
write-Recorded_example =
    write-Recorded big calls (1 ∷ 2 ∷ []) empty_log empty_file empty-Ready calls-Working
      (omega arith) (omega arith) [] (inl (refl, refl))

get_iterator_at-write_example :
    (at : ℕ) × (log' : Binlog) × (it : Iterator) × (write little calls (1 ∷ 2 ∷ []) empty_log
      ≡ returned (pos at) log')
    × (get_iterator_at (pos at) (some (zeros 24)) no_head 0 log' ≡ some it)
    × Yields little log' 4 reading it ((1 ∷ 2 ∷ []) ∷ [])
get_iterator_at-write_example =
    get_iterator_at-write little calls (1 ∷ 2 ∷ []) empty_log empty_file [] 0 reading (zeros 24)
      no_head 0 empty-Ready calls-Working (omega arith) (omega arith) (omega arith)
      (inl (refl, refl)) (λ i. (refl, refl)) (length-zeros 24)

open_log-create_log_example :
    (f : File) × (created : Head) × (create_log little
        (some (8 ∷ []))
        true
        9
        (some 5000)
        64
        empty_log
      ≡ returned (pos 0) (record { fd = live f; head = created }))
    × (length f.contents ≡ 4096)
    × (created.block_size ≡ 64)
    × (created.create_time ≡ u32 9)
    × (open_log little (some (f.contents ++ (1 ∷ []))) (zeros 4096) true empty_log
        ≡ returned (pos 0) (record {
          fd = live (record { contents = f.contents ++ (1 ∷ []); position = 0; append = true });
          head = created;
        }))
open_log-create_log_example =
    open_log-create_log little 64 9 (omega arith) (1 ∷ []) (zeros 4096) (length-zeros 4096) (8 ∷ [])
      5000 empty_log empty_log (omega arith)

-- A file whose first block has no head.
abbrev strange_log : Binlog
strange_log = record {
  fd = live (record { contents = 7 ∷ 7 ∷ zeros 30; position = 0; append = false });
  head = head;
}

abbrev iterator : Iterator
iterator = record {
  block_index = 0;
  offset = 0;
  block_size = 24;
  block_buffer = some (zeros 24);
  real_size = 0;
  block_head = no_head;
  log_buffer = none;
  log_size = 0;
  log_offset = 0;
}

next-Ends_example : Ends (next little (4 * (32 + 1)) reading strange_log iterator)
unfolding zeros get_size stat_size
next-Ends_example =
    next-Ends little strange_log (omega arith) (omega arith) reading iterator
      (record { below = omega arith; loaded = omega arith })
