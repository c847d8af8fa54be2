-- ===== src/Base/Sort.antt =====
-- `sort.Strings`: the texts in ascending order, here by insertion. Two lists with the same texts, in
-- whatever order, are sorted to one list.
use Prim.Native.Char.{Char, code}
use Prim.Native.String.{String}
use Prim.Native.String.compare
use mathlib.Core.Path.{◌≡◌, refl, ◌∙◌}
use mathlib.Core.Logic.{inl, inr, ∥∥₁_elim}
use mathlib.Core.Bool.{Bool, Bool-set, true, false, ◌||◌, ◌&&◌}
use mathlib.Core.List.{List, [], ◌∷◌, Perm, Permᴰ}
use mathlib.Core.List.Perm
use native.Mathlib.Omega.{arith}
use text.Mathlib.TextEquality.{eq_iff}
use remnanode_setup_bot.Base.Tests.{
  Bool-cases, ◌==◌, nat_comparable, ltb, string_comparable, if◌then◌else◌,
}
use remnanode_setup_bot.Base.Order.{before, before_total, before_asym}

-- Of two texts with first characters.
before_cons :
    (c d : Char) (s t : String)
    → before (String.◌∷◌ c s) (String.◌∷◌ d t)
      ≡ (ltb (code c) (code d) || (code c == code d && before s t))
before_cons c d s t = rw (before, compare.cons-cons c d s t) (ground arith)

before-nil : (c : Char) (s : String) → before (String.◌∷◌ c s) String.[] ≡ false
before-nil c s = rw (before, compare.cons-nil) refl

nil-before : (c : Char) (s : String) → before String.[] (String.◌∷◌ c s) ≡ true
nil-before c s = rw (before, compare.nil-cons) refl

before_trans : (s t u : String) → before s t ≡ true → before t u ≡ true → before s u ≡ true
before_trans String.[] String.[] u h k = absurd (ground (arith, h))
before_trans String.[] (String.◌∷◌ d t) String.[] h k = absurd (ground (arith, before-nil d t, k))
before_trans String.[] (String.◌∷◌ d t) (String.◌∷◌ e u) h k = nil-before e u
before_trans (String.◌∷◌ c s) String.[] u h k = absurd (ground (arith, before-nil c s, h))
before_trans (String.◌∷◌ c s) (String.◌∷◌ d t) String.[] h k =
    absurd (ground (arith, before-nil d t, k))
before_trans (String.◌∷◌ c s) (String.◌∷◌ d t) (String.◌∷◌ e u) h k =
    ground (
      arith,
      before_cons c d s t,
      before_cons d e t u,
      before_cons c e s u,
      before_trans s t u,
      h,
      k,
    )

insert : String → List String → List String
insert x [] = x ∷ []
insert x (y ∷ ys) = let rest = insert x ys in if before y x then y ∷ rest else x ∷ y ∷ ys

unfoldable pub sort_strings : List String → List String
unfolding insert
sort_strings [] = []
sort_strings (x ∷ xs) = insert x (sort_strings xs)

insert_swap : (x y : String) (l : List String) → insert x (insert y l) ≡ insert y (insert x l)
unfolding insert
insert_swap x y [] =
    ground (arith, before_total x y, before_total y x, eq_iff x y, eq_iff y x, before_asym x y)
insert_swap x y (z ∷ l) = ground (
  arith,
  insert_swap x y l,
  before_total x y,
  before_asym x y,
  eq_iff x y,
  before_trans z x y,
  before_trans z y x,
)

sort_strings-Permᴰ : {l m : List String} → Permᴰ l m → sort_strings l ≡ sort_strings m
unfolding sort_strings
sort_strings-Permᴰ Permᴰ.nil = refl
sort_strings-Permᴰ (Permᴰ.cons e p) = cc (e, sort_strings-Permᴰ p)
sort_strings-Permᴰ (Permᴰ.swap {a} {b} {l = l} e f) = rw (e, f) (insert_swap _ _ (sort_strings l))
sort_strings-Permᴰ (Permᴰ.trans p q) = sort_strings-Permᴰ p ∙ sort_strings-Permᴰ q

insert-Perm : (x : String) (l : List String) → Perm (insert x l) (x ∷ l)
unfolding insert
insert-Perm x [] = Perm.rfl
insert-Perm x (y ∷ l) = elim (Bool-cases (before y x)) [
  | inl e ↦ rw e (Perm.trans (Perm.cons y (insert-Perm x l)) (Perm.swap x y l))
  | inr e ↦ rw e Perm.rfl
]

sort_strings-Perm : (l : List String) → Perm (sort_strings l) l
unfolding sort_strings
sort_strings-Perm [] = Perm.rfl
sort_strings-Perm (x ∷ l) =
    Perm.trans (insert-Perm x (sort_strings l)) (Perm.cons x (sort_strings-Perm l))

-- A test on lists that holds of all lists sorted alike holds of the lists with the same texts.
pub sorted_alike :
    (l m : List String) (b : Bool)
    → (sort_strings l ≡ sort_strings m → b ≡ true)
    → Perm l m
    → b ≡ true
sorted_alike l m b h p = ∥∥₁_elim p (Bool-set b true) (λ d. h (sort_strings-Permᴰ d))

pub sorted_Perm : (l m : List String) → sort_strings l ≡ sort_strings m → Perm l m
sorted_Perm l m e = Perm.trans (Perm.symm (sort_strings-Perm l)) (rw e (sort_strings-Perm m))
