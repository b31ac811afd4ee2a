-- ===== src/Binlog/Trail.antt =====
-- What src/Binlog.cc has in a file: the logs behind a place in it, block by block, and how a write at
-- the file's end adds to them.
use mathlib.Core.List.{append_assoc}
use libsimplesvr.Base.{
  ℕ, zero, suc, ◌+◌, ◌*◌, ◌≤◌, ◌<◌, ◌≡◌, ◌≢◌, ◌⊎◌, inl, inr, ap, ◌∙◌, List, [], ◌∷◌, ◌++◌, length,
  drop, length-append, arith,
}
use libsimplesvr.IoBuffer.Bytes.{Host}
use libsimplesvr.Binlog.Writer.{log_bytes}
use libsimplesvr.Binlog.Words.{block_head_bytes, length-log_bytes, length-block_head_bytes}

-- Some bytes stand at a place of a file.
abbrev pub Stands : ℕ → List ℕ → List ℕ → Type 0
Stands at bytes file = (rest : List ℕ) × (drop at file ≡ bytes ++ rest)

-- The byte at a place is there, and does not start a log.
abbrev pub Padded : ℕ → List ℕ → Type 0
Padded at file = (b : ℕ) × (b ≢ 3) × Stands at (b ∷ []) file

-- The logs of `file` from a place on, to the file's end: the block that starts at `p`, and the offset
-- `o` in it. Blocks have `size` bytes.
pub data Trail (host : Host) (size : ℕ) (file : List ℕ) : ℕ → ℕ → List (List ℕ) → Type 0 where
  ends : {p o : ℕ} → p + o ≡ length file → 8 ≤ o → o ≤ size → Trail host size file p o []
  logs :
      {p o : ℕ} (m : List ℕ) {ms : List (List ℕ)}
      → 8 ≤ o
      → o + (6 + length m) ≤ size
      → Stands (p + o) (log_bytes host m) file
      → Trail host size file p (o + (6 + length m)) ms
      → Trail host size file p o (m ∷ ms)
  turns :
      {p o : ℕ} (now : ℕ) (m : List ℕ) {ms : List (List ℕ)}
      → 8 ≤ o
      → (o ≡ size) ⊎ ((o < size) × Padded (p + o) file)
      → 8 + (6 + length m) ≤ size
      → Stands (p + size) (block_head_bytes host now) file
      → Stands (p + size + 8) (log_bytes host m) file
      → Trail host size file (p + size) (8 + (6 + length m)) ms
      → Trail host size file p o (m ∷ ms)

-- What stands in a file stands there when it is longer.
drop-le :
    (at : ℕ) (w rest file more : List ℕ)
    → drop at file ≡ w ++ rest
    → 0 < length w
    → drop at (file ++ more) ≡ w ++ (rest ++ more)
drop-le zero w rest file more e l = ap (λ q. q ++ more) e ∙ append_assoc w rest more
drop-le (suc at) w rest [] more e l = absurd (omega (arith, length-append w rest, ap length e))
drop-le (suc at) w rest (x ∷ file) more e l = drop-le at w rest file more e l

pub Stands-more :
    (at : ℕ) (w file more : List ℕ) → 0 < length w → Stands at w file → Stands at w (file ++ more)
Stands-more at w file more l (rest, e) = (rest ++ more, drop-le at w rest file more e l)

-- A longer file has the same logs, and then those behind its former end.
pub extend :
    (host : Host) (size : ℕ) (file more : List ℕ) (p o : ℕ) (ms ns : List (List ℕ))
    → Trail host size file p o ms
    → ((p' o' k : ℕ)
        → p' ≡ p + size * k
        → p' + o' ≡ length file
        → 8 ≤ o'
        → o' ≤ size
        → Trail host size (file ++ more) p' o' ns)
    → Trail host size (file ++ more) p o (ms ++ ns)
extend host size file more p o ms ns (ends e a b) h = h p o 0 (ground arith) e a b
extend host size file more p o ms ns (logs m a b at t) h =
    logs m a b
      (Stands-more (p + o) (log_bytes host m) file more (omega (arith, length-log_bytes host m)) at)
      (extend host size file more p _ _ ns t h)
extend host size file more p o ms ns (turns now m a pad b head at t) h =
    turns now m a (padded pad) b
      (Stands-more (p + size) (block_head_bytes host now) file more
        (omega (arith, length-block_head_bytes host now)) head)
      (Stands-more (p + size + 8) (log_bytes host m) file more
        (omega (arith, length-log_bytes host m)) at)
      (extend host size file more (p + size) _ _ ns t λ p' o' k e.
        let m : size * suc k ≡ size + size * k = ground arith in
        h p' o' (suc k) (omega (arith, e, m)))
  where
    padded :
        (o ≡ size) ⊎ ((o < size) × Padded (p + o) file)
        → (o ≡ size) ⊎ ((o < size) × Padded (p + o) (file ++ more))
    padded (inl e) = inl e
    padded (inr h) =
        inr (h.0, (h.1.0, h.1.1, Stands-more (p + o) (h.1.0 ∷ []) file more (omega arith) h.1.2))
