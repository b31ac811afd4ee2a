-- ===== src/Binlog/Fills.antt =====
-- The passes of Binlog::Next of src/Binlog.cc that read a block of a file that is open.
use libsimplesvr.Base.{
  ℕ, ◌+◌, ◌^◌, ◌≤◌, ◌<◌, ◌≡◌, refl, sym, ap, subst, ◌∙◌, true, false, some, List, length, arith,
  ltb, leb, if◌then◌else◌, u32,
}
use libsimplesvr.Base.Int.{pos}
use libsimplesvr.IoBuffer.Bytes.{Host}
use libsimplesvr.Binlog.{Binlog, File, live, block_head_size, stat_size}
use libsimplesvr.Binlog.Iterators.{Iterator}
use libsimplesvr.Binlog.Reader.{
  returned, again, done, Reads, block_start, read_block_head, next_block, reload, load, refill,
  pass,
}
use libsimplesvr.Binlog.Words.{block_head_bytes}
use libsimplesvr.Binlog.Trail.{Stands}
use libsimplesvr.Binlog.Ends.{next_start}
use libsimplesvr.Binlog.Rank.{InRange}
use libsimplesvr.Binlog.Loads.{fill_end, fill_lem, head_of, read, more, read_block_head_lem}

-- Behind a block, the next one is read.
module _ (host : Host) (calls : Reads) (log : Binlog) (f : File) (it : Iterator) (b : List ℕ)
    (opened : log.fd ≡ live f) (reads : calls.reads ≡ true) (held : it.block_buffer ≡ some b)
    (sized : length b ≡ log.head.block_size) (small : log.head.block_size < 2 ^ 31)
    (room : InRange log it.block_index it.real_size) (now : ℕ) (big : 8 ≤ log.head.block_size)
    (at : Stands
      (block_start log it.block_index + log.head.block_size)
      (block_head_bytes host now)
      f.contents)
    (full : it.offset ≡ log.head.block_size) where
  abbrev turned : Iterator
  turned = record it { block_index = u32 (it.block_index + 1) }

  at_next : Stands (block_start log turned.block_index) (block_head_bytes host now) f.contents
  at_next =
      let n = next_start log it room big in
      subst (λ p. Stands p (block_head_bytes host now) f.contents)
        (sym (ap (block_start log) n.0 ∙ n.1)) at

  -- The iterator behind the next block's head.
  abbrev pub entered : Iterator
  entered = record (read host calls log f turned b opened reads held sized small) {
    block_head = head_of host calls log f turned b opened reads held sized small now;
    offset = block_head_size;
  }

  pub pass_next : pass host calls log it ≡ again entered
  unfolding pass refill next_block
  pass_next =
      let t : leb it.real_size it.offset ≡ true = ground (arith, room.loaded) in
      let t' : leb log.head.block_size it.offset ≡ true = ground arith in
      rw (t, pass)
        (rw (t', refill)
          (fill_lem host calls log f turned b opened reads held sized small _ big
              (more host calls log f turned b opened reads held sized small now big at_next)
            ∙ read_block_head_lem host calls log f turned b opened reads held sized small now big
                at_next _))

-- Behind the file's last block, and at the file's end inside of a block, Next returns 0.
pub pass_past :
    (host : Host) (calls : Reads) (log : Binlog) (f : File) (it : Iterator) (b : List ℕ)
    → log.fd ≡ live f
    → calls.reads ≡ true
    → it.block_buffer ≡ some b
    → length b ≡ log.head.block_size
    → log.head.block_size < 2 ^ 31
    → it.real_size ≤ log.head.block_size
    → it.offset ≡ log.head.block_size
    → length f.contents ≤ block_start log (u32 (it.block_index + 1))
    → (it' : Iterator) × (pass host calls log it ≡ done (returned (pos 0) it'))
unfolding pass refill next_block
pass_past host calls log f it b opened reads held sized small used full past =
    let t : leb it.real_size it.offset ≡ true = ground arith in
    let t' : leb log.head.block_size it.offset ≡ true = ground arith in
    let end =
      fill_end host calls log f (record it { block_index = u32 (it.block_index + 1) }) b opened
        reads held sized small
        (λ it₁. read_block_head host log it₁ λ it₂. again (record it₂ { offset = block_head_size }))
        past in
    (end.0, rw (t, pass) (rw (t', refill) end.1))

pub pass_short :
    (host : Host) (calls : Reads) (log : Binlog) (f : File) (it : Iterator)
    → log.fd ≡ live f
    → calls.stats ≡ true
    → log.head.block_size < 2 ^ 31
    → it.real_size ≤ it.offset
    → it.offset < log.head.block_size
    → 0 < it.real_size
    → length f.contents ≤ block_start log it.block_index + it.offset
    → block_start log it.block_index + it.offset < 2 ^ 32
    → pass host calls log it ≡ done (returned (pos 0) it)
unfolding pass refill reload stat_size
pass_short host calls log f it opened stats small used within some_ past below =
    let size : stat_size calls.stats log.fd ≡ some (length f.contents) = rw (stats, opened) refl in
    let t₁ : leb it.real_size it.offset ≡ true = ground arith in
    let t₂ : leb log.head.block_size it.offset ≡ false = ground arith in
    let t₃ : ltb 0 it.real_size ≡ true = ground arith in
    let t₄ : ltb it.real_size (2 ^ 31) ≡ true = ground arith in
    let t₅ : ltb it.real_size log.head.block_size ≡ true = ground arith in
    let t₆ : leb (length f.contents) (u32 (block_start log it.block_index + it.offset)) ≡ true =
      ground arith in
    rw (t₁, pass) (rw (t₂, t₃, t₄, t₅, refill) (rw (size, reload) (rw t₆ refl)))

-- A file that ends where its first block would start.
pub pass_empty :
    (host : Host) (calls : Reads) (log : Binlog) (f : File) (it : Iterator) (b : List ℕ)
    → log.fd ≡ live f
    → calls.reads ≡ true
    → it.block_buffer ≡ some b
    → length b ≡ log.head.block_size
    → log.head.block_size < 2 ^ 31
    → it.real_size ≡ 0
    → it.offset < log.head.block_size
    → length f.contents ≤ block_start log it.block_index
    → (it' : Iterator) × (pass host calls log it ≡ done (returned (pos 0) it'))
unfolding pass refill load
pass_empty host calls log f it b opened reads held sized small empty within past =
    let t₁ : leb it.real_size it.offset ≡ true = ground arith in
    let t₂ : leb log.head.block_size it.offset ≡ false = ground arith in
    let t₃ : ltb 0 it.real_size ≡ false = ground arith in
    let end =
      fill_end host calls log f it b opened reads held sized small
        (λ it₁. read_block_head host log it₁ λ it₂. again (record it₂ {
          offset = if ltb it₂.offset block_head_size then block_head_size else it₂.offset;
        }))
        past in
    (end.0, rw (t₁, pass) (rw (t₂, t₃, refill) end.1))
