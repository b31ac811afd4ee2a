-- ===== src/Binlog/Journal.antt =====
-- A binlog of src/Binlog.cc from CreateLog over its writes to an iterator.
use mathlib.Core.List.{append_assoc}
use libsimplesvr.Base.{
  append_nil, ℕ, suc, ◌+◌, ◌*◌, ◌^◌, ◌≤◌, ◌<◌, ◌≡◌, inl, refl, sym, ap, subst, Option, none, some,
  List, [], ◌∷◌, ◌++◌, map, length, All, arith,
}
use libsimplesvr.IoBuffer.Bytes.{Host}
use libsimplesvr.Binlog.{Binlog, BlockHead, File, live, returned, thrown, undefined}
use libsimplesvr.Binlog.Writer.{Calls, write}
use libsimplesvr.Binlog.Iterators.{get_iterator}
use libsimplesvr.Binlog.Reader.{Reads}
use libsimplesvr.Binlog.Appends.{Ready, Working}
use libsimplesvr.Binlog.Records.{Recorded, write-Recorded}
use libsimplesvr.Binlog.Yields.{Reading, Yields}
use libsimplesvr.Binlog.ReadBack.{Recorded-Yields}

-- Writes one after the other, with the system calls of each.
unfoldable pub write_all : Host → List (Calls × List ℕ) → Binlog → Option Binlog
write_all host [] log = some log
write_all host (c ∷ cs) log = elim (write host c.0 c.1 log) [
  | returned n log' ↦ write_all host cs log'
  | thrown log' ↦ none
  | undefined ↦ none
]

abbrev pub messages : List (Calls × List ℕ) → List (List ℕ)
messages = map λ c. c.1

-- A write whose calls succeed, of a log that a block has room for behind its head.
abbrev pub Writable : ℕ → Calls × List ℕ → Type 0
Writable size c = Working c.0 size × (14 + length c.1 ≤ size)

write_all-Recorded :
    (host : Host) (cs : List (Calls × List ℕ)) (ms : List (List ℕ)) (log : Binlog) (f : File)
    → log.head.block_size < 2 ^ 31
    → Ready log f
    → Recorded host log.head f.contents ms
    → All (Writable log.head.block_size) cs
    → (f' : File) × (write_all host cs log ≡ some (record log { fd = live f' }))
      × Ready (record log { fd = live f' }) f'
      × Recorded host log.head f'.contents (ms ++ messages cs)
      × (length f'.contents ≤ length f.contents + length cs * (2 * log.head.block_size))
unfolding write_all
write_all-Recorded host [] ms log f small ready rec fits = (
  f,
  ap (λ h. some (record log { fd = h })) ready.opened,
  record { opened = refl; plain = ready.plain; at_end = ready.at_end },
  subst (Recorded host log.head f.contents) (sym (append_nil ms)) rec,
  omega arith,
)
write_all-Recorded host (c ∷ cs) ms log f small ready rec fits =
    let w = write-Recorded host c.0 c.1 log f ready fits.0.0 fits.0.1 small ms rec in
    let next =
      write_all-Recorded host cs (ms ++ (c.1 ∷ [])) (record log { fd = live w.0 }) w.0 small w.3 w.4
        fits.1 in
    (
      next.0,
      rw (w.2, write_all) next.1,
      next.2,
      subst (Recorded host log.head next.0.contents) (append_assoc ms (c.1 ∷ []) (messages cs))
          next.3,
      omega (
        arith,
        w.6,
        next.4,
        let e : suc (length cs) * (2 * log.head.block_size)
                ≡ 2 * log.head.block_size + length cs * (2 * log.head.block_size) =
              ground arith in
            e,
      ),
    )

-- Any logs that are written one after the other to a binlog that holds none and whose descriptor is
-- without O_APPEND, as CreateLog leaves it and OpenLog does not, each at most a block's size less 14
-- bytes, with system calls that succeed and take and give all bytes, are all written, and an iterator
-- over the file goes through exactly these logs in the order of the writes, and then Next returns 0.
-- The blocks have at least 8 bytes and less than 2 GiB, and the head, two blocks for each log and one
-- more are at most 4 GiB.
pub write_all-Yields :
    (host : Host) (cs : List (Calls × List ℕ)) (log : Binlog) (f : File) (k : ℕ) (calls : ℕ → Reads)
    (b : List ℕ) (block_head : BlockHead) (log_offset : ℕ)
    → Ready log f
    → length f.contents ≡ log.head.data_offset
    → 8 ≤ log.head.block_size
    → log.head.block_size < 2 ^ 31
    → All (Writable log.head.block_size) cs
    → log.head.data_offset + length cs * (2 * log.head.block_size) + log.head.block_size ≤ 2 ^ 32
    → Reading calls
    → length b ≡ log.head.block_size
    → (log' : Binlog) × (write_all host cs log ≡ some log')
      × Yields host log'
          (suc (suc (suc (suc k))))
          calls
          (get_iterator (some b) block_head log_offset log')
          (messages cs)
write_all-Yields host cs log f k calls b block_head log_offset ready empty big small fits bound good
      sized =
    let w = write_all-Recorded host cs [] log f small ready (inl (refl, empty)) fits in
    let log' = record log { fd = live w.0 } in
    (
      log',
      w.1,
      Recorded-Yields host log' w.0 refl small big (omega (arith, w.4, empty)) k calls good b sized
          block_head log_offset (messages cs) w.3,
    )
