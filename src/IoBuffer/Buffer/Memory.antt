-- ===== src/IoBuffer/Buffer/Memory.antt =====
-- Copying into the memory of an IOBuffer (src/IOBuffer.cc), and looking at it.
use mathlib.Core.List.{append_assoc}
use libsimplesvr.Base.{
  ℕ, zero, suc, ◌∷◌, All-append, ◌+◌, ◌≤◌, ◌≡◌, List, ◌++◌, ◌∙◌, ap, ap₂, sym, arith, length, take,
  drop, length-append, length-take, length-drop, drop-drop, take-append-drop, [], take-append_eq,
  drop-append_eq, some, leb, refl, true,
}
use libsimplesvr.IoBuffer.Bytes.{IsBytes}
use libsimplesvr.IoBuffer.Buffer.{peek, splice, poke, load, save, IoBuffer, returns}

pub length-splice :
    (at : ℕ) (bs b : List ℕ) → at + length bs ≤ length b → length (splice at bs b) ≡ length b
unfolding splice
length-splice at bs b h = omega (
  arith,
  length-append (take at b) (bs ++ drop (at + length bs) b),
  length-append bs (drop (at + length bs) b),
  length-take at b,
  length-drop (at + length bs) b,
)

-- What was copied is found where it was put.
pub drop-splice :
    (at : ℕ) (bs b : List ℕ)
    → at ≤ length b
    → drop at (splice at bs b) ≡ bs ++ drop (at + length bs) b
unfolding splice
drop-splice at bs b h = drop-append_eq at (take at b) _ (omega (arith, length-take at b))

-- Two copies side by side are one.
pub splice-splice :
    (at : ℕ) (xs ys b : List ℕ)
    → at + length xs ≤ length b
    → splice (at + length xs) ys (splice at xs b) ≡ splice at (xs ++ ys) b
unfolding splice
splice-splice at xs ys b h =
    ap₂ (λ p q. p ++ (ys ++ q)) front back
    ∙ append_assoc (take at b) xs (ys ++ drop (at + length (xs ++ ys)) b)
    ∙ ap (λ q. take at b ++ q) (sym (append_assoc xs ys (drop (at + length (xs ++ ys)) b)))
  where
    tail : List ℕ
    tail = drop (at + length xs) b

    front : take (at + length xs) (take at b ++ (xs ++ tail)) ≡ take at b ++ xs
    front =
        ap (take (at + length xs)) (sym (append_assoc (take at b) xs tail))
        ∙ take-append_eq (at + length xs) (take at b ++ xs) tail
            (omega (arith, length-append (take at b) xs, length-take at b))

    back :
        drop (at + length xs + length ys) (take at b ++ (xs ++ tail))
        ≡ drop (at + length (xs ++ ys)) b
    back =
        sym (drop-drop (length ys) (at + length xs) (take at b ++ (xs ++ tail)))
        ∙ ap (drop (length ys)) (
            ap (drop (at + length xs)) (sym (append_assoc (take at b) xs tail))
            ∙ drop-append_eq (at + length xs) (take at b ++ xs) tail
                (omega (arith, length-append (take at b) xs, length-take at b)))
        ∙ drop-drop (length ys) (at + length xs) b
        ∙ ap (λ n. drop n b) (omega (arith, length-append xs ys))

-- Accesses inside of the allocation.
pub load-returns :
    (at n : ℕ) (io : IoBuffer) (b : List ℕ)
    → io.buffer ≡ some b
    → at + n ≤ length b
    → load at n io ≡ returns (take n (drop at b)) io
unfolding load peek
load-returns at n io b e h = ground arith

pub save-returns :
    (at : ℕ) (bs : List ℕ) (io : IoBuffer) (b : List ℕ)
    → io.buffer ≡ some b
    → at + length bs ≤ length b
    → save at bs io ≡ returns tt (record io { buffer = some (splice at bs b) })
unfolding save poke
save-returns at bs io b e h = ground arith

pub splice-nil : (at : ℕ) (b : List ℕ) → splice at [] b ≡ b
unfolding splice
splice-nil at b =
    ap (λ n. take at b ++ drop n b) (let e : at + 0 ≡ at = omega arith in e) ∙ take-append-drop at b

pub take-IsBytes : (n : ℕ) (xs : List ℕ) → IsBytes xs → IsBytes (take n xs)
take-IsBytes zero xs h = tt
take-IsBytes (suc n) [] h = tt
take-IsBytes (suc n) (x ∷ xs) h = (h.0, take-IsBytes n xs h.1)

pub drop-IsBytes : (n : ℕ) (xs : List ℕ) → IsBytes xs → IsBytes (drop n xs)
drop-IsBytes zero xs h = h
drop-IsBytes (suc n) [] h = tt
drop-IsBytes (suc n) (x ∷ xs) h = drop-IsBytes n xs h.1

pub splice-IsBytes : (at : ℕ) (bs b : List ℕ) → IsBytes bs → IsBytes b → IsBytes (splice at bs b)
unfolding splice
splice-IsBytes at bs b h g =
    All-append _ (take at b) _ (take-IsBytes at b g)
      (All-append _ bs _ h (drop-IsBytes (at + length bs) b g))

take_all : (bs : List ℕ) → take (length bs) bs ≡ bs
take_all [] = refl
take_all (x ∷ bs) = ap (◌∷◌ x) (take_all bs)

-- A source that is as long as what is copied from it.
pub peek_all : (bs : List ℕ) → peek 0 (length bs) bs ≡ some bs
unfolding peek
peek_all bs =
    let e : leb (0 + length bs) (length bs) ≡ true = ground arith in rw e (ap some (take_all bs))
