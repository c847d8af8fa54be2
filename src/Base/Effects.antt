-- ===== src/Base/Effects.antt =====
-- Go functions that change a state and return an error: a state monad whose state outlives an
-- error, and postconditions for it.
use Prim.Native.Nat.{ℕ}
use mathlib.Core.Path.{◌≡◌, refl}
use mathlib.Core.Logic.{◌⊎◌, inl, inr}
use mathlib.Core.Bool.{Bool, true, false}
use remnanode_setup_bot.Base.Tests.{if◌then◌else◌}

pub data Result {ℓ κ} (E : Type ℓ) (A : Type κ) : Type (ℓ ⊔ κ) where
  ok : A → Result E A
  err : E → Result E A

pub Result-cases {ℓ κ} :
    {E : Type ℓ} {A : Type κ} (r : Result E A) → ((a : A) × (r ≡ ok a)) ⊎ ((e : E) × (r ≡ err e))
Result-cases (ok a) = inl (a, refl)
Result-cases (err e) = inr (e, refl)

-- A call on the state `W`: what it returns, and the state that it leaves.
abbrev pub Call : Type 0 → Type 0 → Type 0 → Type 0
Call W E A = W → Result E A × W

module _ {W E A B : Type 0} where
  abbrev pub resume : Result E A × W → (A → W → Result E B × W) → Result E B × W
  resume (ok a, w) f = f a w
  resume (err e, w) f = (err e, w)

  infixl 5 ◌>>=◌
  unfoldable pub ◌>>=◌ : (W → Result E A × W) → (A → W → Result E B × W) → W → Result E B × W
  ◌>>=◌ m f w = resume (m w) f

module _ {W E B : Type 0} where
  infixl 5 ◌>>◌
  abbrev pub ◌>>◌ : (W → Result E (Unit {0}) × W) → (W → Result E B × W) → W → Result E B × W
  m >> k = m >>= λ _. k

module _ {W E A : Type 0} where
  unfoldable pub return : A → W → Result E A × W
  return a w = (ok a, w)

  unfoldable pub throw : E → W → Result E A × W
  throw e w = (err e, w)

  -- `x, err := m` where the code goes on to look at `err`.
  abbrev pub caught : Result E A × W → Result E (Result E A) × W
  caught (r, w) = (ok r, w)

  unfoldable pub attempt : (W → Result E A × W) → W → Result E (Result E A) × W
  attempt m w = caught (m w)

-- A computation without effects, as a call.
module _ {W E A : Type 0} where
  unfoldable pub lift : Result E A → W → Result E A × W
  lift r w = (r, w)

-- On an `unfolding` line: the calls that carry effects compute.
unfoldable pub run_effects : ℕ
unfolding ◌>>=◌ return throw attempt lift
run_effects = 0

-- `m` keeps `I`, whether it returns or fails.
pub record Keeps {W E A : Type 0} (I : W → Type 0) (m : W → Result E A × W) : Type 0 where
  pub run : (w : W) → I w → I (m w).1

module _ {W E A B : Type 0} (I : W → Type 0) where
  resume-keeps :
      (r : Result E A × W) (f : A → W → Result E B × W)
      → I r.1
      → ((a : A) → Keeps I (f a))
      → I (resume r f).1
  resume-keeps (ok a, w) f h k = (k a).run w h
  resume-keeps (err e, w) f h k = h

  pub Keeps-bind :
      {m : W → Result E A × W} {f : A → W → Result E B × W}
      → Keeps I m
      → ((a : A) → Keeps I (f a))
      → Keeps I (m >>= f)
  unfolding ◌>>=◌
  Keeps-bind {m} {f} h k = record { run = λ w i. resume-keeps (m w) f (h.run w i) k }

module _ {W E A : Type 0} (I : W → Type 0) where
  pub Keeps-return : (a : A) → Keeps {E = E} I (return a)
  unfolding return
  Keeps-return a = record { run = λ w i. i }

  pub Keeps-throw : (e : E) → Keeps {A = A} I (throw e)
  unfolding throw
  Keeps-throw e = record { run = λ w i. i }

  pub Keeps-lift : (r : Result E A) → Keeps I (lift r)
  unfolding lift
  Keeps-lift r = record { run = λ w i. i }

  pub Keeps-if :
      (b : Bool) {m n : W → Result E A × W} → Keeps I m → Keeps I n → Keeps I (if b then m else n)
  Keeps-if true hm hn = hm
  Keeps-if false hm hn = hn

  -- The same, each branch with the outcome of the test.
  pub Keeps-on :
      (b : Bool) {m n : W → Result E A × W}
      → (b ≡ true → Keeps I m)
      → (b ≡ false → Keeps I n)
      → Keeps I (if b then m else n)
  Keeps-on true hm hn = hm refl
  Keeps-on false hm hn = hn refl

  caught-keeps : (r : Result E A × W) → I r.1 → I (caught r).1
  caught-keeps (ok a, w) h = h
  caught-keeps (err e, w) h = h

  pub Keeps-attempt : {m : W → Result E A × W} → Keeps I m → Keeps I (attempt m)
  unfolding attempt
  Keeps-attempt {m} h = record { run = λ w i. caught-keeps (m w) (h.run w i) }

-- The rules by which `search` proves that a call keeps a predicate.
pub ruleset keeping = (Keeps-bind, Keeps-return, Keeps-throw, Keeps-lift, Keeps-if, Keeps-attempt)
