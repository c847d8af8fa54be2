-- ===== src/Base/Triples.antt =====
-- Conditions before and after a call: one for its result, one for its error.
use mathlib.Core.Path.{◌≡◌, refl, ap, subst}
use native.Mathlib.Omega.{arith}
use mathlib.Core.Bool.{Bool, true, false}
use remnanode_setup_bot.Base.Tests.{if◌then◌else◌}
use remnanode_setup_bot.Base.Effects.{
  Result, ok, err, ◌>>=◌, resume, caught, return, throw, attempt, Keeps,
}

module _ {W E A : Type 0} where
  abbrev pub After : (A → W → Type 0) → (E → W → Type 0) → Result E A × W → Type 0
  After Q R (ok a, w) = Q a w
  After Q R (err e, w) = R e w

  pub record Triple (P : W → Type 0) (m : W → Result E A × W) (Q : A → W → Type 0)
      (R : E → W → Type 0) : Type 0 where
    pub run : (w : W) → P w → After Q R (m w)

module _ {W E A B : Type 0} {R : E → W → Type 0} where
  resume-After :
      {Q : A → W → Type 0} {Q' : B → W → Type 0} {f : A → W → Result E B × W} (r : Result E A × W)
      → After Q R r
      → ((a : A) → Triple (Q a) (f a) Q' R)
      → After Q' R (resume r f)
  resume-After (ok a, w) h k = (k a).run w h
  resume-After (err e, w) h k = h

  pub Triple-bind :
      {P : W → Type 0} {Q : A → W → Type 0} {Q' : B → W → Type 0} {m : W → Result E A × W}
      {f : A → W → Result E B × W}
      → Triple P m Q R
      → ((a : A) → Triple (Q a) (f a) Q' R)
      → Triple P (m >>= f) Q' R
  unfolding ◌>>=◌
  Triple-bind {m} h k = record { run = λ w p. resume-After (m w) (h.run w p) k }

module _ {W E A : Type 0} where
  weaker :
      {Q : A → W → Type 0} {R : E → W → Type 0} {Q' : A → W → Type 0} {R' : E → W → Type 0}
      (r : Result E A × W)
      → ((a : A) (w : W) → Q a w → Q' a w)
      → ((e : E) (w : W) → R e w → R' e w)
      → After Q R r
      → After Q' R' r
  weaker (ok a, w) f g h = f a w h
  weaker (err e, w) f g h = g e w h

  handed :
      (Q : A → W → Type 0) (R R' : E → W → Type 0) (r : Result E A × W)
      → After Q R r
      → After (λ r w. After Q R (r, w)) R' (caught r)
  handed Q R R' (ok a, w) h = h
  handed Q R R' (err e, w) h = h

  always : (m : Result E A × W) → After (λ _ _. Unit {0}) (λ _ _. Unit {0}) m
  always (ok _, _) = tt
  always (err _, _) = tt

  pub kept-After : (I : W → Type 0) (r : Result E A × W) → I r.1 → After (λ _. I) (λ _. I) r
  kept-After I (ok a, w) i = i
  kept-After I (err e, w) i = i

  caught-After :
      (I : W → Type 0) (R : E → W → Type 0) (r : Result E A × W)
      → After (λ _. I) (λ _. I) r
      → After (λ _. I) R (caught r)
  caught-After I R (ok a, w) h = h
  caught-After I R (err e, w) h = h

  pub After-kept : (I : W → Type 0) (r : Result E A × W) → After (λ _. I) (λ _. I) r → I r.1
  After-kept I (ok a, w) i = i
  After-kept I (err e, w) i = i

module _ {W E A : Type 0} {P : W → Type 0} {Q : A → W → Type 0} {R : E → W → Type 0} where
  pub Triple-return : (a : A) → ((w : W) → P w → Q a w) → Triple P (return a) Q R
  unfolding return
  Triple-return a h = record { run = h }

  pub Triple-throw : (e : E) → ((w : W) → P w → R e w) → Triple P (throw e) Q R
  unfolding throw
  Triple-throw e h = record { run = h }

  pub Triple-if :
      (b : Bool) {m n : W → Result E A × W}
      → (b ≡ true → Triple P m Q R)
      → (b ≡ false → Triple P n Q R)
      → Triple P (if b then m else n) Q R
  Triple-if true hm hn = hm refl
  Triple-if false hm hn = hn refl

  pub Triple-weaken :
      {P' : W → Type 0} {Q' : A → W → Type 0} {R' : E → W → Type 0} {m : W → Result E A × W}
      → Triple P m Q R
      → ((w : W) → P' w → P w)
      → ((a : A) (w : W) → Q a w → Q' a w)
      → ((e : E) (w : W) → R e w → R' e w)
      → Triple P' m Q' R'
  Triple-weaken {m} h p f g = record { run = λ w i. weaker (m w) f g (h.run w (p w i)) }

module _ {W E A : Type 0} {P : W → Type 0} where
  -- Of what a call does, nothing is said.
  pub Triple-any : (m : W → Result E A × W) → Triple P m (λ _ _. Unit {0}) (λ _ _. Unit {0})
  Triple-any m = record { run = λ w _. always (m w) }

module _ {W E A : Type 0} {I : W → Type 0} where
  pub Triple-attempt :
      {P : W → Type 0} {R : E → W → Type 0} {m : W → Result E A × W}
      → Triple P m (λ _. I) (λ _. I)
      → Triple P (attempt m) (λ _. I) R
  unfolding attempt
  Triple-attempt {R} {m} h = record { run = λ w p. caught-After I R (m w) (h.run w p) }

  pub Triple-Keeps : {m : W → Result E A × W} → Keeps I m → Triple I m (λ _. I) (λ _. I)
  Triple-Keeps {m} k = record { run = λ w i. kept-After I (m w) (k.run w i) }

  pub Keeps-Triple : {m : W → Result E A × W} → Triple I m (λ _. I) (λ _. I) → Keeps I m
  Keeps-Triple {m} h = record { run = λ w i. After-kept I (m w) (h.run w i) }

module _ {W E A : Type 0} {P : W → Type 0} {Q : A → W → Type 0} {R R' : E → W → Type 0} where
  -- What `attempt` hands on: the result, with what holds after it.
  pub Triple-caught :
      {m : W → Result E A × W} → Triple P m Q R → Triple P (attempt m) (λ r w. After Q R (r, w)) R'
  unfolding attempt
  Triple-caught {m} h = record { run = λ w p. handed Q R R' (m w) (h.run w p) }

module _ {W E A : Type 0} where
  both :
      (Q Q' : A → W → Type 0) (R R' : E → W → Type 0) (r : Result E A × W)
      → After Q R r
      → After Q' R' r
      → After (λ a w. Q a w × Q' a w) R r
  both Q Q' R R' (ok a, w) h k = (h, k)
  both Q Q' R R' (err e, w) h k = h

  -- Two conditions after a call, with the first's for an error.
  pub Triple-both :
      {P : W → Type 0} {Q Q' : A → W → Type 0} {R R' : E → W → Type 0} {m : W → Result E A × W}
      → Triple P m Q R
      → Triple P m Q' R'
      → Triple P m (λ a w. Q a w × Q' a w) R
  Triple-both {Q} {Q'} {R} {R'} {m} h k = record {
    run = λ w p. both Q Q' R R' (m w) (h.run w p) (k.run w p);
  }

module _ {W E A : Type 0} (Q : A → W → Type 0) where
  -- What holds after a call that is known to have failed, or to have returned.
  pub After-failed :
      (I : W → Type 0) {e : E} (r : Result E A × W) → r.0 ≡ err e → After Q (λ _. I) r → I r.1
  After-failed I (ok a, w) f h = absurd (ground arith)
  After-failed I (err e, w) f h = h

  abbrev value_or : A → Result E A → A
  value_or a (ok b) = b
  value_or a (err _) = a

  pub After-returned :
      (R : E → W → Type 0) {a : A} (r : Result E A × W) → r.0 ≡ ok a → After Q R r → Q a r.1
  After-returned R (ok b, w) f h = subst (λ a. Q a w) (ap (value_or b) f) h
  After-returned R (err e, w) f h = absurd (ground arith)
