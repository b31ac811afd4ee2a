-- ===== src/IoBuffer/Bytes.antt =====
-- Integers in memory, and the byte orders that include/IOBuffer.hpp and src/IOBuffer.cc go through:
-- htons, htonl and their inverses, and the macros ntohll and htonll.
pub mod Words
use mathlib.Core.List.{reverse, reverse-append, reverse-reverse}
use libsimplesvr.Base.{
  ℕ, zero, suc, ◌+◌, ◌*◌, ◌/◌, ◌%◌, ◌^◌, ◌<◌, ◌≡◌, refl, List, [], ◌∷◌, ◌++◌, ◌∙◌, sym, ap, ap₂,
  subst, arith, All, length, length-append, All-append,
}

-- The byte order of the machine.
pub data Host : Type 0 where
  little big : Host

-- The low `n` bytes of a number, least significant first, and the number that bytes stand for.
unfoldable pub le_bytes : ℕ → ℕ → List ℕ
le_bytes zero v = []
le_bytes (suc n) v = v % 256 ∷ le_bytes n (v / 256)

unfoldable pub of_le : List ℕ → ℕ
of_le [] = 0
of_le (b ∷ bs) = b + 256 * of_le bs

-- Network order: the most significant byte first.
unfoldable pub be_bytes : ℕ → ℕ → List ℕ
be_bytes n v = reverse (le_bytes n v)

-- `*(T*)p = v` and `*(T*)p` for an unsigned T of `n` bytes.
unfoldable pub store : Host → ℕ → ℕ → List ℕ
store little n v = le_bytes n v
store big n v = be_bytes n v

pub fetch : Host → List ℕ → ℕ
fetch little bs = of_le bs
fetch big bs = of_le (reverse bs)

-- htons and ntohs at two bytes, htonl and ntohl at four.
pub hton : Host → ℕ → ℕ → ℕ
hton little n v = of_le (be_bytes n v)
hton big n v = v

-- The macros htonll and ntohll, which are the same text.
pub hton64 : Host → ℕ → ℕ
hton64 h v = hton h 4 (v % 2 ^ 32) * 2 ^ 32 + hton h 4 (v / 2 ^ 32)

-- 256 ^ n.
abbrev pub radix : ℕ → ℕ
radix zero = 1
radix (suc n) = 256 * radix n

abbrev pub IsBytes : List ℕ → Type 0
IsBytes = All λ b. b < 256

pub length-le_bytes : (n v : ℕ) → length (le_bytes n v) ≡ n
unfolding le_bytes
length-le_bytes zero v = refl
length-le_bytes (suc n) v = ap suc (length-le_bytes n (v / 256))

length-reverse : (xs : List ℕ) → length (reverse xs) ≡ length xs
length-reverse [] = refl
length-reverse (x ∷ xs) = omega (
  arith,
  ap length (reverse-append (x ∷ []) xs),
  length-append (reverse xs) (x ∷ []),
  length-reverse xs,
)

pub length-be_bytes : (n v : ℕ) → length (be_bytes n v) ≡ n
unfolding be_bytes
length-be_bytes n v = length-reverse (le_bytes n v) ∙ length-le_bytes n v

le_bytes-IsBytes : (n v : ℕ) → IsBytes (le_bytes n v)
unfolding le_bytes
le_bytes-IsBytes zero v = tt
le_bytes-IsBytes (suc n) v = (omega arith, le_bytes-IsBytes n (v / 256))

reverse-IsBytes : (xs : List ℕ) → IsBytes xs → IsBytes (reverse xs)
reverse-IsBytes [] h = tt
reverse-IsBytes (x ∷ xs) h =
    rw (reverse-append (x ∷ []) xs)
      (All-append _ (reverse xs) (x ∷ []) (reverse-IsBytes xs h.1) (h.0, tt))

pub be_bytes-IsBytes : (n v : ℕ) → IsBytes (be_bytes n v)
unfolding be_bytes
be_bytes-IsBytes n v = reverse-IsBytes _ (le_bytes-IsBytes n v)

pub of_le-le_bytes : (n v : ℕ) → v < radix n → of_le (le_bytes n v) ≡ v
unfolding of_le le_bytes
of_le-le_bytes zero v h = omega arith
of_le-le_bytes (suc n) v h = omega (arith, of_le-le_bytes n (v / 256) (omega arith))

pub of_le-lt : (bs : List ℕ) → IsBytes bs → of_le bs < radix (length bs)
unfolding of_le
of_le-lt [] h = omega arith
of_le-lt (b ∷ bs) h = omega (arith, of_le-lt bs h.1, h.0)

pub le_bytes-of_le : (bs : List ℕ) (n : ℕ) → n ≡ length bs → IsBytes bs → le_bytes n (of_le bs) ≡ bs
unfolding of_le le_bytes
le_bytes-of_le [] n e h = rw e
le_bytes-of_le (b ∷ bs) n e h =
    let lo : (b + 256 * of_le bs) % 256 ≡ b = omega (arith, h.0) in
    let hi : (b + 256 * of_le bs) / 256 ≡ of_le bs = omega (arith, h.0) in
    rw e (rw (lo, hi, le_bytes-of_le bs (length bs) refl h.1))

pub le_bytes-append :
    (m n lo hi : ℕ)
    → lo < radix m
    → le_bytes (m + n) (lo + radix m * hi) ≡ le_bytes m lo ++ le_bytes n hi
unfolding le_bytes
le_bytes-append zero n lo hi h =
    rw (let e : 0 + n ≡ n = omega arith in e, let e : lo + 1 * hi ≡ hi = omega arith in e)
le_bytes-append (suc m) n lo hi h =
    let lo' : (lo + 256 * radix m * hi) % 256 ≡ lo % 256 = omega arith in
    let hi' : (lo + 256 * radix m * hi) / 256 ≡ lo / 256 + radix m * hi = omega arith in
    rw (let e : suc m + n ≡ suc (m + n) = omega arith in e)
      (rw (lo', hi') (ap (◌∷◌ (lo % 256)) (le_bytes-append m n (lo / 256) hi (omega arith))))

pub le_bytes_swap : (n v : ℕ) → le_bytes n (of_le (be_bytes n v)) ≡ be_bytes n v
le_bytes_swap n v =
    le_bytes-of_le (be_bytes n v) n (sym (length-be_bytes n v)) (be_bytes-IsBytes n v)

-- What htons or htonl and a store put into memory, on either machine: the network order.
pub store-hton : (h : Host) (n v : ℕ) → store h n (hton h n v) ≡ be_bytes n v
unfolding store hton
store-hton little n v = le_bytes_swap n v
store-hton big n v = refl

pub reverse-be_bytes : (n v : ℕ) → reverse (be_bytes n v) ≡ le_bytes n v
unfolding be_bytes
reverse-be_bytes n v = reverse-reverse (le_bytes n v)

-- What a load and ntohs or ntohl give back.
pub hton-fetch : (h : Host) (n v : ℕ) → v < radix n → hton h n (fetch h (be_bytes n v)) ≡ v
unfolding hton fetch be_bytes
hton-fetch little n v l =
    ap of_le (ap reverse (le_bytes_swap n v) ∙ reverse-be_bytes n v) ∙ of_le-le_bytes n v l
hton-fetch big n v l = ap of_le (reverse-be_bytes n v) ∙ of_le-le_bytes n v l

pub store-IsBytes : (h : Host) (n v : ℕ) → IsBytes (store h n v)
unfolding store
store-IsBytes little n v = le_bytes-IsBytes n v
store-IsBytes big n v = be_bytes-IsBytes n v

pub length-store : (h : Host) (n v : ℕ) → length (store h n v) ≡ n
unfolding store
length-store little n v = length-le_bytes n v
length-store big n v = length-be_bytes n v

pub fetch-store : (h : Host) (n v : ℕ) → v < radix n → fetch h (store h n v) ≡ v
unfolding store fetch
fetch-store little n v l = of_le-le_bytes n v l
fetch-store big n v l = ap of_le (reverse-be_bytes n v) ∙ of_le-le_bytes n v l

-- Whatever two bytes or four are loaded, they are the network order of what ntohs or ntohl gives.
pub be_bytes_onto :
    (h : Host) (bs : List ℕ)
    → IsBytes bs
    → be_bytes (length bs) (hton h (length bs) (fetch h bs)) ≡ bs
unfolding hton fetch be_bytes
be_bytes_onto little bs b =
    let n = length bs in
    let back = reverse-IsBytes bs b in
    let e : le_bytes n (of_le bs) ≡ bs = le_bytes-of_le bs n refl b in
    ap (λ xs. reverse (le_bytes n (of_le (reverse xs)))) e
    ∙ ap reverse (le_bytes-of_le (reverse bs) n (sym (length-reverse bs)) back)
    ∙ reverse-reverse bs
be_bytes_onto big bs b =
    ap reverse
      (le_bytes-of_le (reverse bs) (length bs) (sym (length-reverse bs)) (reverse-IsBytes bs b))
    ∙ reverse-reverse bs

pub hton-lt :
    (h : Host) (bs : List ℕ) → IsBytes bs → hton h (length bs) (fetch h bs) < radix (length bs)
unfolding hton fetch be_bytes
hton-lt little bs b =
    let n = length bs in
    let e : le_bytes n (of_le bs) ≡ bs = le_bytes-of_le bs n refl b in
    subst (λ xs. of_le (reverse xs) < radix n) (sym e)
      (subst (λ k. of_le (reverse bs) < radix k) (length-reverse bs)
        (of_le-lt (reverse bs) (reverse-IsBytes bs b)))
hton-lt big bs b =
    subst (λ k. of_le (reverse bs) < radix k) (length-reverse bs)
      (of_le-lt (reverse bs) (reverse-IsBytes bs b))
