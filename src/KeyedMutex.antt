-- ===== src/KeyedMutex.antt =====
-- The mutex for each key: internal/dnsbalancer/lock.go, which internal/certmanager/lock.go repeats.
-- Entries are numbered as they are made; a claim is a call of Lock that has its entry. A step is what
-- one goroutine does under `mu`, or one send or receive of a token.
pub mod Invariant
pub mod Exclusion
use remnanode_setup_bot.Base.{
  ℕ, suc, ◌-◌, String, ◌≡◌, Bool, true, false, ◌&&◌, Option, none, some, List, [], ◌∷◌, ◌++◌,
  if◌then◌else◌, ◌==◌, nat_comparable, string_comparable,
}

-- Before and after the receive of the token, and after its return.
pub data Phase : Type 0 where
  waiting holding leaving : Phase

pub record Claim : Type 0 where
  pub key : String
  pub entry : ℕ
  pub phase : Phase

-- The fields of all entries, whether a token is in the channel and `refs`, with the map of entries.
pub record Table : Type 0 where
  pub next : ℕ
  pub token : ℕ → Bool
  pub refs : ℕ → ℕ
  pub entries : String → Option ℕ
  pub claims : List Claim

abbrev pub set {ℓ} : {A : Type ℓ} → (ℕ → A) → ℕ → A → ℕ → A
set f i a j = if j == i then a else f j

abbrev pub set_key : (String → Option ℕ) → String → Option ℕ → String → Option ℕ
set_key f key a other = if other == key then a else f other

-- `NewMemoryZoneLocker`.
abbrev pub new_locker : Table
new_locker = record {
  next = 0;
  token = λ _. false;
  refs = λ _. 0;
  entries = λ _. none;
  claims = [];
}

abbrev claim : String → ℕ → Claim
claim key entry = record { key = key; entry = entry; phase = waiting }

-- A key without an entry gets one, with its token in the channel.
abbrev pub make_entry : String → Table → Table
make_entry key s = record {
  next = suc s.next;
  token = set s.token s.next true;
  refs = set s.refs s.next 1;
  entries = set_key s.entries key (some s.next);
  claims = claim key s.next ∷ s.claims;
}

abbrev pub join_entry : String → ℕ → Table → Table
join_entry key entry s = record s {
  refs = set s.refs entry (suc (s.refs entry));
  claims = claim key entry ∷ s.claims;
}

-- The part of `Lock` under `mu`.
unfoldable pub enter : String → Table → Table
enter key s = elim (s.entries key) [ none ↦ make_entry key s | some entry ↦ join_entry key entry s ]

abbrev pub is_entry : ℕ → Option ℕ → Bool
is_entry entry none = false
is_entry entry (some other) = other == entry

-- `release`.
unfoldable pub release : String → ℕ → Table → Table
release key entry s =
    let refs = s.refs entry - 1 in
    record s {
      refs = set s.refs entry refs;
      entries =
          if refs == 0 && is_entry entry (s.entries key)
          then set_key s.entries key none
          else s.entries;
    }

pub data Step : Table → Table → Type 0 where
  entered : (key : String) (s : Table) → Step s (enter key s)
  taken :
      {s : Table} (front : List Claim) (c : Claim) (back : List Claim)
      → s.claims ≡ front ++ (c ∷ back)
      → c.phase ≡ waiting
      → s.token c.entry ≡ true
      → Step s (record s {
        token = set s.token c.entry false;
        claims = front ++ (record c { phase = holding } ∷ back);
      })
  given_up :
      {s : Table} (front : List Claim) (c : Claim) (back : List Claim)
      → s.claims ≡ front ++ (c ∷ back)
      → c.phase ≡ waiting
      → Step s (release c.key c.entry (record s { claims = front ++ back }))
  returned :
      {s : Table} (front : List Claim) (c : Claim) (back : List Claim)
      → s.claims ≡ front ++ (c ∷ back)
      → c.phase ≡ holding
      → s.token c.entry ≡ false
      → Step s (record s {
        token = set s.token c.entry true;
        claims = front ++ (record c { phase = leaving } ∷ back);
      })
  left :
      {s : Table} (front : List Claim) (c : Claim) (back : List Claim)
      → s.claims ≡ front ++ (c ∷ back)
      → c.phase ≡ leaving
      → Step s (release c.key c.entry (record s { claims = front ++ back }))

-- What goroutines make of a new locker.
pub data IsReachable : Table → Type 0 where
  start : IsReachable new_locker
  then_ : {s s' : Table} → IsReachable s → Step s s' → IsReachable s'
