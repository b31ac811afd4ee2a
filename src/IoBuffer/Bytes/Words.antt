-- ===== src/IoBuffer/Bytes/Words.antt =====
-- The macros ntohll and htonll of include/IOBuffer.hpp in memory.
use mathlib.Core.List.{reverse, reverse-append}
use libsimplesvr.Base.{
  ℕ, ◌+◌, ◌*◌, ◌/◌, ◌%◌, ◌^◌, ◌<◌, ◌≡◌, List, [], ◌∷◌, ◌++◌, ◌∙◌, sym, ap, ap₂, subst, arith,
  length,
}
use libsimplesvr.IoBuffer.Bytes.{
  Host, little, big, le_bytes, of_le, be_bytes, store, fetch, hton, hton64, radix, length-be_bytes,
  be_bytes-IsBytes, of_le-le_bytes, of_le-lt, le_bytes-append, le_bytes_swap, reverse-be_bytes,
  hton-fetch,
}

of_le-append : (xs ys : List ℕ) → of_le (xs ++ ys) ≡ of_le xs + radix (length xs) * of_le ys
unfolding of_le
of_le-append [] ys = omega arith
of_le-append (x ∷ xs) ys = omega (arith, of_le-append xs ys)

-- The eight bytes in network order are the two words in network order.
be_bytes_halves : (v : ℕ) → be_bytes 8 v ≡ be_bytes 4 (v / 2 ^ 32) ++ be_bytes 4 (v % 2 ^ 32)
unfolding be_bytes
be_bytes_halves v =
    let e : v ≡ v % 2 ^ 32 + radix 4 * (v / 2 ^ 32) = omega arith in
    ap (λ w. reverse (le_bytes 8 w)) e
    ∙ ap reverse (le_bytes-append 4 4 (v % 2 ^ 32) (v / 2 ^ 32) (omega arith))
    ∙ reverse-append (le_bytes 4 (v % 2 ^ 32)) (le_bytes 4 (v / 2 ^ 32))

first_lt : (v : ℕ) → of_le (be_bytes 4 v) < 2 ^ 32
first_lt v =
    subst (λ k. of_le (be_bytes 4 v) < radix k) (length-be_bytes 4 v)
      (of_le-lt (be_bytes 4 v) (be_bytes-IsBytes 4 v))

-- The macro on a little-endian machine.
pub store-hton64 : (v : ℕ) → store little 8 (hton64 little v) ≡ be_bytes 8 v
unfolding store hton64 hton
store-hton64 v =
    let first = of_le (be_bytes 4 (v / 2 ^ 32)) in
    let second = of_le (be_bytes 4 (v % 2 ^ 32)) in
    let e : second * 2 ^ 32 + first ≡ first + radix 4 * second = omega arith in
    ap (le_bytes 8) e
    ∙ le_bytes-append 4 4 first second (first_lt (v / 2 ^ 32))
    ∙ ap₂ ◌++◌ (le_bytes_swap 4 (v / 2 ^ 32)) (le_bytes_swap 4 (v % 2 ^ 32))
    ∙ sym (be_bytes_halves v)

of_le-be_bytes :
    (v : ℕ)
    → of_le (be_bytes 8 v)
      ≡ of_le (be_bytes 4 (v / 2 ^ 32)) + radix 4 * of_le (be_bytes 4 (v % 2 ^ 32))
of_le-be_bytes v =
    ap of_le (be_bytes_halves v)
    ∙ of_le-append (be_bytes 4 (v / 2 ^ 32)) (be_bytes 4 (v % 2 ^ 32))
    ∙ ap (λ k. of_le (be_bytes 4 (v / 2 ^ 32)) + radix k * of_le (be_bytes 4 (v % 2 ^ 32)))
        (length-be_bytes 4 (v / 2 ^ 32))

hton_words :
    (h : Host) (a b v w : ℕ)
    → hton h 4 a ≡ w
    → hton h 4 b ≡ v
    → b < 2 ^ 32
    → hton64 h (b + 2 ^ 32 * a) ≡ v * 2 ^ 32 + w
unfolding hton64
hton_words h a b v w ea eb lb =
    let lo : (b + 2 ^ 32 * a) % 2 ^ 32 ≡ b = omega arith in
    let hi : (b + 2 ^ 32 * a) / 2 ^ 32 ≡ a = omega arith in
    ap₂ (λ p q. hton h 4 p * 2 ^ 32 + hton h 4 q) lo hi ∙ ap₂ (λ p q. p * 2 ^ 32 + q) eb ea

big_words : (v : ℕ) → v < 2 ^ 64 → hton64 big (fetch big (store big 8 (hton64 big v))) ≡ v
unfolding hton64 hton fetch store
big_words v l =
    let w = v % 2 ^ 32 * 2 ^ 32 + v / 2 ^ 32 in
    let e : of_le (reverse (be_bytes 8 w)) ≡ w =
      ap of_le (reverse-be_bytes 8 w) ∙ of_le-le_bytes 8 w (omega arith) in
    rw e (omega arith)

-- The macro on a big-endian machine: what is stored is the lower word before the upper one, for a
-- value of 64 bits.
pub store-hton64_big :
    (v : ℕ)
    → v < 2 ^ 64
    → store big 8 (hton64 big v) ≡ be_bytes 4 (v % 2 ^ 32) ++ be_bytes 4 (v / 2 ^ 32)
unfolding store hton64 hton
store-hton64_big v l =
    let w = v % 2 ^ 32 * 2 ^ 32 + v / 2 ^ 32 in
    let hi : w / 2 ^ 32 ≡ v % 2 ^ 32 = omega arith in
    let lo : w % 2 ^ 32 ≡ v / 2 ^ 32 = omega arith in
    be_bytes_halves w ∙ ap₂ (λ p q. be_bytes 4 p ++ be_bytes 4 q) hi lo

-- A value of 64 bits that goes through the macro htonll, memory and the macro ntohll comes back, on a
-- machine of either byte order.
pub hton64-fetch : (h : Host) (v : ℕ) → v < 2 ^ 64 → hton64 h (fetch h (store h 8 (hton64 h v))) ≡ v
unfolding fetch
hton64-fetch little v l =
    let hi = v / 2 ^ 32 in
    let lo = v % 2 ^ 32 in
    ap (λ bs. hton64 little (of_le bs)) (store-hton64 v)
    ∙ ap (hton64 little) (of_le-be_bytes v)
    ∙ hton_words little (of_le (be_bytes 4 lo)) (of_le (be_bytes 4 hi)) hi lo
        (hton-fetch little 4 lo (omega arith)) (hton-fetch little 4 hi (omega arith)) (first_lt hi)
    ∙ omega arith
hton64-fetch big v l = big_words v l
