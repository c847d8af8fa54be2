-- ===== src/KeyedMutex/Invariant.antt =====
-- What holds of a locker at any time: internal/dnsbalancer/lock.go and internal/certmanager/lock.go.
use remnanode_setup_bot.Base.{
  ℕ, ◌+◌, ◌-◌, ◌<◌, String, ◌≡◌, refl, ap, ◌∙◌, Bool, true, false, ◌&&◌, Option, none, some, List,
  [], ◌∷◌, ◌++◌, if◌then◌else◌, ◌==◌, nat_comparable, string_comparable, All, All-append, arith,
  eq_iff, Bool-cases, Option-cases, inl, inr,
}
use mathlib.Core.Path.{subst}
use remnanode_setup_bot.KeyedMutex.{
  Phase, holding, leaving, Claim, Table, set, set_key, new_locker, make_entry, join_entry, enter,
  release, is_entry, Step, entered, taken, given_up, returned, left, IsReachable, start, then_,
}

abbrev pub bit : Bool → ℕ
bit b = if b then 1 else 0

abbrev pub count : (Claim → Bool) → List Claim → ℕ
count p [] = 0
count p (c ∷ cs) = bit (p c) + count p cs

count-append : (p : Claim → Bool) (l m : List Claim) → count p (l ++ m) ≡ count p l + count p m
count-append p [] m = omega arith
count-append p (c ∷ l) m = omega (arith, count-append p l m)

abbrev pub is_holding : Phase → Bool
is_holding holding = true
is_holding _ = false

-- The claims of an entry, and those that hold it.
abbrev pub claims_entry : ℕ → Claim → Bool
claims_entry e c = c.entry == e

abbrev pub holds_entry : ℕ → Claim → Bool
holds_entry e c = c.entry == e && is_holding c.phase

abbrev pub IsPlaced : Table → Claim → Type 0
IsPlaced s c = s.entries c.key ≡ some c.entry

pub record IsSound (s : Table) : Type 0 where
  pub counted : (e : ℕ) → s.refs e ≡ count (claims_entry e) s.claims
  pub single : (e : ℕ) → e < s.next → count (holds_entry e) s.claims + bit (s.token e) ≡ 1
  pub placed : All (IsPlaced s) s.claims
  pub bounded : (key : String) (e : ℕ) → s.entries key ≡ some e → e < s.next
  pub injective : (k l : String) (e : ℕ) → s.entries k ≡ some e → s.entries l ≡ some e → k ≡ l

-- An entry that no key has yet is of no claim.
unclaimed :
    (s : Table) (cs : List Claim)
    → ((key : String) (e : ℕ) → s.entries key ≡ some e → e < s.next)
    → All (IsPlaced s) cs
    → (count (claims_entry s.next) cs ≡ 0) × (count (holds_entry s.next) cs ≡ 0)
unclaimed s [] b h = (refl, refl)
unclaimed s (c ∷ cs) b (p, ps) =
    let (none_claims, none_holds) = unclaimed s cs b ps in
    let below = b c.key c.entry p in
    (ground (arith, none_claims, below), ground (arith, none_holds, below))

-- A key that is in the map keeps its claims when another key is added or removed.
keys_still :
    (s : Table) (key : String) (value : Option ℕ) (cs : List Claim)
    → All (λ (c : Claim). (c.key == key) ≡ false) cs
    → All (IsPlaced s) cs
    → All (λ (c : Claim). set_key s.entries key value c.key ≡ some c.entry) cs
keys_still s key value [] d h = tt
keys_still s key value (c ∷ cs) (d, ds) (p, ps) = (rw d p, keys_still s key value cs ds ps)

-- No claim has a key that is not in the map.
not_in_map :
    (s : Table) (key : String) (cs : List Claim)
    → s.entries key ≡ none
    → All (IsPlaced s) cs
    → All (λ (c : Claim). (c.key == key) ≡ false) cs
not_in_map s key [] n h = tt
not_in_map s key (c ∷ cs) n (p, ps) =
    (grind (arith, n, p, eq_iff c.key key), not_in_map s key cs n ps)

-- No claim is left of an entry that is not counted.
not_claimed :
    (s : Table) (key : String) (e : ℕ) (cs : List Claim)
    → s.entries key ≡ some e
    → count (claims_entry e) cs ≡ 0
    → All (IsPlaced s) cs
    → All (λ (c : Claim). (c.key == key) ≡ false) cs
not_claimed s key e [] m n h = tt
not_claimed s key e (c ∷ cs) m n (p, ps) =
    (grind (arith, m, n, p, eq_iff c.key key), not_claimed s key e cs m (omega (arith, n)) ps)

All-split : (Good : Claim → Type 0) (l m : List Claim) → All Good (l ++ m) → All Good l × All Good m
All-split Good [] m h = (tt, h)
All-split Good (c ∷ l) m (g, h) = let (a, b) = All-split Good l m h in ((g, a), b)

new_locker-IsSound : IsSound new_locker
new_locker-IsSound = record {
  counted = λ e. refl;
  single = λ e h. absurd (omega (arith, h));
  placed = tt;
  bounded = λ key e h. absurd (ground arith);
  injective = λ k l e h _. absurd (ground arith);
}

module _ (s : Table) (h : IsSound s) where
  make-IsSound : (key : String) → s.entries key ≡ none → IsSound (make_entry key s)
  make-IsSound key n =
      let (none_claims, none_holds) = unclaimed s s.claims h.bounded h.placed in
      record {
        counted = λ e. grind (arith, h.counted e, none_claims);
        single = λ e l. grind (arith, h.single e, none_holds);
        placed = (
          ground (arith, eq_iff key key),
          keys_still s key (some s.next) s.claims (not_in_map s key s.claims n h.placed) h.placed,
        );
        bounded = λ k e m. ground (arith, m, h.bounded k e);
        injective = λ k l e m n. grind (
          arith,
          m,
          n,
          h.injective k l e,
          h.bounded k e,
          h.bounded l e,
          eq_iff k key,
          eq_iff l key,
        );
      }

  join-IsSound :
      (key : String) (entry : ℕ) → s.entries key ≡ some entry → IsSound (join_entry key entry s)
  join-IsSound key entry m = record {
    counted = λ e. grind (arith, h.counted e, h.counted entry);
    single = λ e l. grind (arith, h.single e l);
    placed = (m, h.placed);
    bounded = h.bounded;
    injective = h.injective;
  }

  enter-IsSound : (key : String) → IsSound (enter key s)
  unfolding enter
  enter-IsSound key = elim (Option-cases (s.entries key)) [
    | inl n ↦ rw (n, enter) (make-IsSound key n)
    | inr (entry, m) ↦ rw (m, enter) (join-IsSound key entry m)
  ]

  module _ (front : List Claim) (c : Claim) (back : List Claim)
      (e : s.claims ≡ front ++ (c ∷ back)) where
    pub counts : (p : Claim → Bool) → count p s.claims ≡ count p front + (bit (p c) + count p back)
    counts p = ap (count p) e ∙ count-append p front (c ∷ back)

    pub IsPlaced-at : All (IsPlaced s) front × (IsPlaced s c × All (IsPlaced s) back)
    IsPlaced-at = All-split (IsPlaced s) front (c ∷ back) (subst (All (IsPlaced s)) e h.placed)

    -- One claim goes on to another phase, and the token with it.
    moves-IsSound :
        (phase : Phase) (token : Bool)
        → bit (is_holding c.phase) + bit (s.token c.entry) ≡ bit (is_holding phase) + bit token
        → IsSound (record s {
          token = set s.token c.entry token;
          claims = front ++ (record c { phase = phase } ∷ back);
        })
    moves-IsSound phase token t =
        let (before, (at, after)) = IsPlaced-at in
        record {
          counted = λ i. grind (
            arith,
            h.counted i,
            counts (claims_entry i),
            count-append (claims_entry i) front (record c { phase = phase } ∷ back),
          );
          single = λ i l. grind (
            arith,
            h.single i l,
            counts (holds_entry i),
            count-append (holds_entry i) front (record c { phase = phase } ∷ back),
            t,
          );
          placed = All-append (IsPlaced s) front _ before (at, after);
          bounded = h.bounded;
          injective = h.injective;
        }

    module _ (idle : is_holding c.phase ≡ false) where
      abbrev without : Table
      without = record s { claims = front ++ back }

      still-IsPlaced : All (IsPlaced s) (front ++ back)
      still-IsPlaced = All-append (IsPlaced s) front back IsPlaced-at.0 IsPlaced-at.1.1

      -- The last claim of an entry goes: no other has its key.
      none_left :
          ((s.refs c.entry - 1) == 0) ≡ true
          → All (λ (d : Claim). (d.key == c.key) ≡ false) (front ++ back)
      none_left z =
          not_claimed s c.key c.entry (front ++ back) IsPlaced-at.1.0
            (grind (
              arith,
              h.counted c.entry,
              counts (claims_entry c.entry),
              count-append (claims_entry c.entry) front back,
              z,
            ))
            still-IsPlaced

      release-IsPlaced : All (IsPlaced (release c.key c.entry without)) (front ++ back)
      unfolding release
      release-IsPlaced =
          elim (Bool-cases ((s.refs c.entry - 1) == 0 && is_entry c.entry (s.entries c.key))) [
            | inl z ↦ rw z (
                keys_still s c.key none (front ++ back) (none_left (ground (arith, z)))
                  still-IsPlaced)
            | inr z ↦ rw z still-IsPlaced
          ]

      release-IsSound : IsSound (release c.key c.entry without)
      unfolding release
      release-IsSound = record {
        counted = λ i.
            grind (
              arith,
              h.counted i,
              counts (claims_entry i),
              count-append (claims_entry i) front back,
            );
        single = λ i l. grind (
          arith,
          h.single i l,
          counts (holds_entry i),
          count-append (holds_entry i) front back,
          idle,
        );
        placed = release-IsPlaced;
        bounded = λ k i m. ground (arith, m, h.bounded k i);
        injective = λ k l i m n. ground (arith, m, n, h.injective k l i);
      }

Step-IsSound : {s s' : Table} → Step s s' → IsSound s → IsSound s'
Step-IsSound (entered key s) h = enter-IsSound s h key
Step-IsSound {s} (taken front c back e p t) h =
    moves-IsSound s h front c back e holding false (rw (p, t) refl)
Step-IsSound {s} (given_up front c back e p) h = release-IsSound s h front c back e (rw p refl)
Step-IsSound {s} (returned front c back e p t) h =
    moves-IsSound s h front c back e leaving true (rw (p, t) refl)
Step-IsSound {s} (left front c back e p) h = release-IsSound s h front c back e (rw p refl)

pub IsReachable-IsSound : {s : Table} → IsReachable s → IsSound s
IsReachable-IsSound start = new_locker-IsSound
IsReachable-IsSound (then_ r t) = Step-IsSound t (IsReachable-IsSound r)
