-- ===== src/Binlog/Appends.antt =====
-- Binlog::Write of src/Binlog.cc at the end of a file that was written by it.
use mathlib.Core.List.{append_assoc}
use libsimplesvr.Base.{
  append_nil, ℕ, zero, suc, ◌+◌, ◌-◌, ◌≤◌, ◌<◌, ◌≡◌, refl, sym, ap, ◌∙◌, true, false, some, List,
  [], ◌∷◌, ◌++◌, length, take, drop, replicate, length-append, length-replicate, take-append_eq,
  arith,
}
use libsimplesvr.Base.Int.{pos}
use libsimplesvr.IoBuffer.Buffer.{splice}
use libsimplesvr.Binlog.{Binlog, File, live, returned, zeros, overwrite, write_out}
use libsimplesvr.Binlog.Writer.{Calls, emit}

zeros-add : (m n : ℕ) → zeros (m + n) ≡ zeros m ++ zeros n
unfolding zeros
zeros-add zero n = ap zeros (omega arith)
zeros-add (suc m) n =
    ap (λ k. replicate k 0) (let e : suc m + n ≡ suc (m + n) = omega arith in e)
    ∙ ap (◌∷◌ 0) (zeros-add m n)

pub length-zeros : (n : ℕ) → length (zeros n) ≡ n
unfolding zeros
length-zeros n = length-replicate n 0

pub take_all-le : (n : ℕ) (bs : List ℕ) → length bs ≤ n → take n bs ≡ bs
take_all-le zero [] h = refl
take_all-le zero (b ∷ bs) h = absurd (omega arith)
take_all-le (suc n) [] h = refl
take_all-le (suc n) (b ∷ bs) h = ap (◌∷◌ b) (take_all-le n bs (omega arith))

drop_all-le : (n : ℕ) (bs : List ℕ) → length bs ≤ n → drop n bs ≡ []
drop_all-le zero [] h = refl
drop_all-le zero (b ∷ bs) h = absurd (omega arith)
drop_all-le (suc n) [] h = refl
drop_all-le (suc n) (b ∷ bs) h = drop_all-le n bs (omega arith)

-- Bytes that are written behind a file's end leave zeros in the gap.
pub overwrite-behind :
    (gap : ℕ) (bytes contents : List ℕ)
    → 0 < length bytes
    → overwrite (length contents + gap) bytes contents ≡ contents ++ (zeros gap ++ bytes)
unfolding overwrite splice
overwrite-behind gap [] contents h = absurd (omega arith)
overwrite-behind gap (b ∷ bs) contents h =
    let at = length contents + gap in
    let n = length (b ∷ bs) in
    let pad : contents ++ zeros (at + n - length contents) ≡ (contents ++ zeros gap) ++ zeros n =
      ap (λ k. contents ++ zeros k) (let e : at + n - length contents ≡ gap + n = omega arith in e)
      ∙ ap (λ q. contents ++ q) (zeros-add gap n)
      ∙ sym (append_assoc contents (zeros gap) (zeros n)) in
    let long = length-append contents (zeros gap) in
    ap (λ q. take at q ++ ((b ∷ bs) ++ drop (at + n) q)) pad
    ∙ ap (λ q. q ++ ((b ∷ bs) ++ drop (at + n) ((contents ++ zeros gap) ++ zeros n)))
        (take-append_eq at (contents ++ zeros gap) (zeros n)
          (omega (arith, long, length-zeros gap)))
    ∙ ap (λ q. (contents ++ zeros gap) ++ ((b ∷ bs) ++ q))
        (drop_all-le (at + n) ((contents ++ zeros gap) ++ zeros n) (
          omega (
            arith,
            long,
            length-zeros gap,
            length-zeros n,
            length-append (contents ++ zeros gap) (zeros n),
          )))
    ∙ ap (λ q. (contents ++ zeros gap) ++ q) (append_nil (b ∷ bs))
    ∙ append_assoc contents (zeros gap) (b ∷ bs)

-- An open file without O_APPEND, with its position at its end.
pub record Ready (log : Binlog) (f : File) : Type 0 where
  pub opened : log.fd ≡ live f
  pub plain : f.append ≡ false
  pub at_end : f.position ≡ length f.contents

-- System calls that succeed and write all of what is handed to them.
pub record Working (calls : Calls) (size : ℕ) : Type 0 where
  pub stats : calls.stats ≡ true
  pub seeks : calls.seeks ≡ true
  pub limit : ℕ
  pub taken : calls.taken ≡ some limit
  pub enough : size ≤ limit

pub emit-behind :
    (calls : Calls) (log : Binlog) (f : File) (gap offset : ℕ) (bytes : List ℕ) (size : ℕ)
    → Working calls size
    → f.append ≡ false
    → f.position ≡ length f.contents + gap
    → 0 < length bytes
    → length bytes ≤ size
    → emit calls log f offset bytes
      ≡ returned (pos offset) (record log {
        fd = live (record {
          contents = f.contents ++ (zeros gap ++ bytes);
          position = length f.contents + gap + length bytes;
          append = false;
        });
      })
unfolding emit write_out
emit-behind calls log f gap offset bytes size w plain at some_ fits =
    let all : take w.limit bytes ≡ bytes = take_all-le w.limit bytes (omega (arith, w.enough)) in
    let over : overwrite f.position bytes f.contents ≡ f.contents ++ (zeros gap ++ bytes) =
      ap (λ p. overwrite p bytes f.contents) at ∙ overwrite-behind gap bytes f.contents some_ in
    simp (w.taken, plain, all, over, emit) (rw at refl)
