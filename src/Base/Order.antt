-- ===== src/Base/Order.antt =====
-- Go's `<` on strings: by bytes, which is the order of the characters' numbers.
use Prim.Native.Nat.{ℕ, Ordering, compare as compare_ℕ}
use Prim.Native.Char.{code}
use Prim.Native.String.{String, then, compare}
use Prim.Native.String.compare
use mathlib.Core.Path.{◌≡◌, refl}
use mathlib.Core.Bool.{Bool, true, false}
use native.Mathlib.Omega.{arith}
use remnanode_setup_bot.Base.Tests.{◌==◌, string_comparable}

abbrev pub before : String → String → Bool
before s t = elim (compare s t) [ Ordering.lt ↦ true | _ ↦ false ]

abbrev reverse : Ordering → Ordering
reverse Ordering.lt = Ordering.gt
reverse Ordering.eq = Ordering.eq
reverse Ordering.gt = Ordering.lt

compare_ℕ_swap : (m n : ℕ) → compare_ℕ n m ≡ reverse (compare_ℕ m n)
compare_ℕ_swap m n = ground arith

then-reverse : (o r : Ordering) → then (reverse o) (reverse r) ≡ reverse (then o r)
then-reverse Ordering.lt r = refl
then-reverse Ordering.eq r = refl
then-reverse Ordering.gt r = refl

compare_swap : (s t : String) → compare t s ≡ reverse (compare s t)
compare_swap String.[] String.[] = rw compare.nil-nil
compare_swap String.[] (String.◌∷◌ d t) = rw (compare.nil-cons, compare.cons-nil)
compare_swap (String.◌∷◌ c s) String.[] = rw (compare.nil-cons, compare.cons-nil)
compare_swap (String.◌∷◌ c s) (String.◌∷◌ d t) =
    rw (compare.cons-cons d c t s, compare.cons-cons c d s t)
      (rw (compare_swap s t, compare_ℕ_swap (code c) (code d)) (then-reverse _ _))

-- Of two different texts one comes before the other.
pub before_total : (s t : String) → before t s ≡ false → (s == t) ≡ false → before s t ≡ true
before_total s t h d = ground (arith, compare_swap s t)

-- Of two texts not both come before the other.
pub before_asym : (s t : String) → before s t ≡ true → before t s ≡ false
before_asym s t h = ground (arith, compare_swap s t, h)
