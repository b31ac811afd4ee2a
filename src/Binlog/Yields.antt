-- ===== src/Binlog/Yields.antt =====
-- What it means that Binlog::Next of src/Binlog.cc goes through some logs.
use libsimplesvr.Base.{
  ℕ, suc, ◌+◌, ◌^◌, ◌≤◌, ◌<◌, ◌≡◌, refl, sym, ap, ◌∙◌, true, some, List, [], ◌∷◌, ◌++◌, length,
  take, drop, drop-drop, take-append_eq, drop-append_eq, arith, leb,
}
use libsimplesvr.Base.Int.{pos}
use libsimplesvr.IoBuffer.Bytes.{Host, store, be_bytes, length-store, length-be_bytes}
use libsimplesvr.IoBuffer.Buffer.{peek}
use libsimplesvr.Binlog.{Binlog, File}
use libsimplesvr.Binlog.Writer.{log_bytes}
use libsimplesvr.Binlog.Iterators.{Iterator, get_log}
use libsimplesvr.Binlog.Reader.{Next, returned, again, done, Reads, block_start, pass, loop, next}
use libsimplesvr.Binlog.Words.{length-log_bytes}
use libsimplesvr.Binlog.Wire.{log_bytes-front}
use libsimplesvr.Binlog.Trail.{Stands}
use libsimplesvr.Binlog.Passes.{Loaded, window, logged}

pub loop_again :
    (host : Host) (n : ℕ) (calls : ℕ → Reads) (log : Binlog) (it it' : Iterator)
    → pass host (calls n) log it ≡ again it'
    → loop host (suc n) calls log it ≡ loop host n calls log it'
unfolding loop
loop_again host n calls log it it' e = rw (e, loop) refl

pub loop_done :
    (host : Host) (n : ℕ) (calls : ℕ → Reads) (log : Binlog) (it : Iterator) (r : Next)
    → pass host (calls n) log it ≡ done r
    → loop host (suc n) calls log it ≡ r
unfolding loop
loop_done host n calls log it r e = rw (e, loop) refl

-- Behind a log's length are its bytes.
drop-log_bytes :
    (host : Host) (m rest : List ℕ)
    → length m < 2 ^ 32
    → drop 5 (log_bytes host m ++ rest) ≡ m ++ (10 ∷ rest)
drop-log_bytes host m rest h =
    ap (drop 5) (log_bytes-front host m rest h)
    ∙ sym (drop-drop 4 1 (store host 1 3 ++ (be_bytes 4 (length m) ++ (m ++ (10 ∷ rest)))))
    ∙ ap (drop 4) (drop-append_eq 1 (store host 1 3) _ (sym (length-store host 1 3)))
    ∙ drop-append_eq 4 (be_bytes 4 (length m)) _ (sym (length-be_bytes 4 (length m)))

get_log-some :
    (it : Iterator) (at : ℕ) (b : List ℕ)
    → it.log_buffer ≡ some at
    → it.block_buffer ≡ some b
    → get_log it ≡ peek at it.log_size b
unfolding get_log
get_log-some it at b e e' = rw (e, e', get_log) refl

pub get_log_lem :
    (host : Host) (log : Binlog) (f : File) (it : Iterator) (l : Loaded log f.contents it)
    (calls : Reads) (m : List ℕ) (small : log.head.block_size < 2 ^ 31)
    (fits : it.offset + (6 + length m) ≤ log.head.block_size)
    (at : Stands (block_start log it.block_index + it.offset) (log_bytes host m) f.contents)
    → get_log (logged log f.contents it l host calls m small fits at) ≡ some m
unfolding peek
get_log_lem host log f it l calls m small fits at =
    let long = length-log_bytes host m in
    let w =
      window log f.contents it l it.offset (log_bytes host m) (omega (arith, long))
        (omega (arith, long)) at in
    let t : leb (it.offset + 5 + length m) (length l.memory) ≡ true = ground (arith, l.sized) in
    let bytes : take (length m) (drop (it.offset + 5) l.memory) ≡ m =
      ap (take (length m)) (
        sym (drop-drop 5 it.offset l.memory)
        ∙ ap (drop 5) w.1
        ∙ drop-log_bytes host m w.0 (omega (arith, small)))
      ∙ take-append_eq (length m) m _ refl in
    get_log-some (logged log f.contents it l host calls m small fits at) (it.offset + 5) l.memory
      refl l.held
    ∙ rw (t, bytes) refl

-- Every call of a Next succeeds.
abbrev pub Reading : (ℕ → Reads) → Type 0
Reading calls = (i : ℕ) → ((calls i).stats ≡ true) × ((calls i).reads ≡ true)

-- The logs that an iterator goes through, each with what Next returns, and then the end.
unfoldable pub Yields : Host → Binlog → ℕ → (ℕ → Reads) → Iterator → List (List ℕ) → Type 0
Yields host log fuel calls it [] =
    (it' : Iterator) × (next host fuel calls log it ≡ returned (pos 0) it')
Yields host log fuel calls it (m ∷ ms) =
    (it' : Iterator) × (next host fuel calls log it ≡ returned (pos (6 + length m)) it')
    × (get_log it' ≡ some m)
    × Yields host log fuel calls it' ms
