-- ===== src/Base/Sums.antt =====
-- Sums over lists and over the slots of an array that is given as a function of its index.
use Prim.Native.Nat.{ℕ, zero, suc, ◌+◌, ◌*◌, ◌<◌, ◌≤◌}
use mathlib.Core.Path.{◌≡◌, refl, sym}
use mathlib.Core.Logic.{◌≢◌}
use native.Mathlib.Decide.{ℕ_discrete}
use mathlib.Core.List.{List, [], ◌∷◌, ◌++◌}
use native.Mathlib.Omega.{arith}
use libsimplesvr.Base.Tests.{◌==◌, if◌then◌else◌}

module _ {ℓ} {A : Type ℓ} where
  -- The total weight of a list.
  abbrev pub weight : (A → ℕ) → List A → ℕ
  weight p [] = 0
  weight p (x ∷ xs) = p x + weight p xs

  -- An array with one slot replaced.
  abbrev pub put : (ℕ → A) → ℕ → A → ℕ → A
  put v i x j = if i == j then x else v j

-- f 0 + ... + f (n - 1).
unfoldable pub sum_below : ℕ → (ℕ → ℕ) → ℕ
sum_below zero f = 0
sum_below (suc n) f = f n + sum_below n f

pub sum_below-ext :
    (n : ℕ) (f g : ℕ → ℕ) → ((i : ℕ) → i < n → f i ≡ g i) → sum_below n f ≡ sum_below n g
unfolding sum_below
sum_below-ext zero f g h = refl
sum_below-ext (suc n) f g h =
    omega (arith, h n (omega arith), sum_below-ext n f g (λ i l. h i (omega arith)))

-- The sum after one slot is replaced.
pub sum_below-put :
    (n i : ℕ) (f g : ℕ → ℕ)
    → i < n
    → ((j : ℕ) → j ≢ i → g j ≡ f j)
    → sum_below n g + f i ≡ sum_below n f + g i
unfolding sum_below
sum_below-put zero i f g h e = absurd (omega arith)
sum_below-put (suc n) i f g h e = elim (ℕ_discrete i n) [
  | yes same ↦
      let rest = sum_below-ext n g f (λ j l. e j (λ q. omega arith)) in
      let at : g i ≡ g n = rw same in let at' : f i ≡ f n = rw same in omega (arith, rest)
  | no other ↦ omega (arith, sum_below-put n i f g (omega arith) e, e n (λ q. other (sym q)))
]

pub weight-append {ℓ} :
    {A : Type ℓ} (p : A → ℕ) (xs ys : List A) → weight p (xs ++ ys) ≡ weight p xs + weight p ys
weight-append p [] ys = omega arith
weight-append p (x ∷ xs) ys = omega (arith, weight-append p xs ys)

pub sum_below_zero : (n : ℕ) (f : ℕ → ℕ) → ((i : ℕ) → i < n → f i ≡ 0) → sum_below n f ≡ 0
unfolding sum_below
sum_below_zero zero f h = refl
sum_below_zero (suc n) f h =
    omega (arith, h n (omega arith), sum_below_zero n f (λ i l. h i (omega arith)))

pub term-le-sum : (n i : ℕ) (f : ℕ → ℕ) → i < n → f i ≤ sum_below n f
unfolding sum_below
term-le-sum zero i f l = absurd (omega arith)
term-le-sum (suc n) i f l = elim (ℕ_discrete i n) [
  | yes e ↦ rw e (omega arith)
  | no ne ↦ omega (arith, term-le-sum n i f (omega arith))
]

pub sum_below-add :
    (m n : ℕ) (f : ℕ → ℕ) → sum_below (n + m) f ≡ sum_below m f + sum_below n (λ i. f (i + m))
unfolding sum_below
sum_below-add m zero f = rw (let e : 0 + m ≡ m = omega arith in e) (omega arith)
sum_below-add m (suc n) f =
    let e : suc n + m ≡ suc (n + m) = omega arith in rw e (omega (arith, sum_below-add m n f))

pub sum_below_const : (n k : ℕ) (f : ℕ → ℕ) → ((i : ℕ) → i < n → f i ≡ k) → sum_below n f ≡ n * k
unfolding sum_below
sum_below_const zero k f h = omega arith
sum_below_const (suc n) k f h =
    let e : suc n * k ≡ k + n * k = ground arith in
    omega (arith, h n (omega arith), sum_below_const n k f (λ i l. h i (omega arith)), e)
