-- ===== src/KeyedMutex/Exclusion.antt =====
-- Mutual exclusion: internal/dnsbalancer/lock.go and internal/certmanager/lock.go.
use remnanode_setup_bot.Base.{
  ℕ, ◌≤◌, String, ◌≡◌, refl, Bool, true, false, ◌&&◌, none, some, List, [], ◌∷◌, ◌++◌, ◌==◌,
  nat_comparable, string_comparable, All, arith, eq_iff, Option-cases, inl, inr,
}
use remnanode_setup_bot.KeyedMutex.{holding, Claim, Table, IsReachable}
use remnanode_setup_bot.KeyedMutex.Invariant.{
  is_holding, count, holds_entry, IsPlaced, IsSound, counts, IsPlaced-at, IsReachable-IsSound,
}

-- The claims that hold a key.
abbrev pub holds_key : String → Claim → Bool
holds_key key c = c.key == key && is_holding c.phase

holds_none :
    (s : Table) (key : String) (cs : List Claim)
    → s.entries key ≡ none
    → All (IsPlaced s) cs
    → count (holds_key key) cs ≡ 0
holds_none s key [] n h = refl
holds_none s key (c ∷ cs) n (p, ps) =
    grind (arith, n, p, eq_iff c.key key, holds_none s key cs n ps)

holds_some :
    (s : Table) (key : String) (e : ℕ) (cs : List Claim)
    → s.entries key ≡ some e
    → All (IsPlaced s) cs
    → count (holds_key key) cs ≤ count (holds_entry e) cs
holds_some s key e [] m h = omega arith
holds_some s key e (c ∷ cs) m (p, ps) =
    grind (arith, m, p, eq_iff c.key key, holds_some s key e cs m ps)

-- Those that hold an entry hold its key.
holds_same :
    (s : Table) (key : String) (e : ℕ) (cs : List Claim)
    → IsSound s
    → s.entries key ≡ some e
    → All (IsPlaced s) cs
    → count (holds_entry e) cs ≤ count (holds_key key) cs
holds_same s key e [] h m a = omega arith
holds_same s key e (c ∷ cs) h m (p, ps) =
    grind (arith, m, p, h.injective c.key key e, eq_iff c.key key, holds_same s key e cs h m ps)

-- Whatever goroutines do with a locker, at most one of them holds a key.
pub holds-at_most_one :
    {s : Table} → IsReachable s → (key : String) → count (holds_key key) s.claims ≤ 1
holds-at_most_one {s} r key =
    let h = IsReachable-IsSound r in
    elim (Option-cases (s.entries key)) [
      | inl n ↦ omega (arith, holds_none s key s.claims n h.placed)
      | inr (e, m) ↦
          omega (arith, holds_some s key e s.claims m h.placed, h.single e (h.bounded key e m))
    ]

-- Whatever goroutines do with a locker, one that holds a key can return its token at once; and if
-- none holds a key that is claimed, the token is there for every claim of it.
pub token-ready :
    {s : Table} (front : List Claim) (c : Claim) (back : List Claim)
    → IsReachable s
    → s.claims ≡ front ++ (c ∷ back)
    → (c.phase ≡ holding → s.token c.entry ≡ false)
      × (count (holds_key c.key) s.claims ≡ 0 → s.token c.entry ≡ true)
token-ready {s} front c back r e =
    let h = IsReachable-IsSound r in
    let placed = (IsPlaced-at s h front c back e).1.0 in
    let single = h.single c.entry (h.bounded c.key c.entry placed) in
    (
      λ p. grind (arith, single, counts s h front c back e (holds_entry c.entry), p),
      λ z. grind (arith, single, z, holds_same s c.key c.entry s.claims h placed h.placed),
    )
