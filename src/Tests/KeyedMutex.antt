-- ===== src/Tests/KeyedMutex.antt =====
-- Two calls for one key, and the theorems on internal/dnsbalancer/lock.go at them.
use remnanode_setup_bot.Base.{◌≤◌, ◌≡◌, refl, true, false, [], ◌∷◌}
use remnanode_setup_bot.KeyedMutex.{
  waiting, holding, Claim, Table, set, new_locker, enter, entered, taken, IsReachable, start, then_,
}
use remnanode_setup_bot.KeyedMutex.Invariant.{count}
use remnanode_setup_bot.KeyedMutex.Exclusion.{holds_key, holds-at_most_one, token-ready}

abbrev called : Table
called = enter "a" (enter "a" new_locker)

abbrev calls : IsReachable called
calls = then_ (then_ start (entered "a" new_locker)) (entered "a" (enter "a" new_locker))

abbrev first : Claim
first = record { key = "a"; entry = 0; phase = waiting }

-- The first call has the token.
abbrev held : Table
held = record called {
  token = set called.token 0 false;
  claims = record first { phase = holding } ∷ first ∷ [];
}

abbrev first_holds : IsReachable held
unfolding enter
first_holds = then_ calls (taken [] first (first ∷ []) refl refl refl)

holds_example : count (holds_key "a") held.claims ≤ 1
holds_example = holds-at_most_one first_holds "a"

token_example :
    (holding ≡ holding → held.token 0 ≡ false)
    × (count (holds_key "a") held.claims ≡ 0 → held.token 0 ≡ true)
unfolding enter
token_example = token-ready [] (record first { phase = holding }) (first ∷ []) first_holds refl
