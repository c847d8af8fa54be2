-- ===== src/Dns/Client/Locks.antt =====
-- The zone locks that the operations take: internal/dnsbalancer/client.go.
use remnanode_setup_bot.Base.{String, ◌≡◌, sym}
use remnanode_setup_bot.Base.{Bool, true, any, List, [], ◌∷◌}
use remnanode_setup_bot.Base.{◌==◌, nat_comparable, string_comparable, All}
use remnanode_setup_bot.Base.{◌>>=◌, keeping, before, Keeps}
use remnanode_setup_bot.Base.Net.{addr_comparable, Std}
use remnanode_setup_bot.Dns.Models.{ZoneMatch}
use remnanode_setup_bot.Dns.Wire.{PatchZoneRequest}
use remnanode_setup_bot.Dns.Matching.{normalize_fqdn, zone_fqdn}
use remnanode_setup_bot.Dns.Matching.Named.{IsNamed}
use mathlib.Core.Path.{subst}
use remnanode_setup_bot.Dns.Client.{
  Remote, Event, locked, unlocked, patched, World, Dns, get_domains, patch_zone,
}

abbrev rest_of : List String → List String
rest_of [] = []
rest_of (_ ∷ keys) = keys

-- The keys held after some events, the last one taken first.
abbrev pub held : List Event → List String
held [] = []
held (locked key ∷ events) = key ∷ held events
held (unlocked key ∷ events) = rest_of (held events)
held (patched _ _ _ ∷ events) = held events

module _ (std : Std) where
  -- A key is that of the zone.
  abbrev pub guards : List String → String → String → Bool
  guards keys domain zone =
      any (λ (key : String). normalize_fqdn std key == zone_fqdn std domain zone) keys

  -- Each key is taken while all the keys held come before it, and each zone is patched while the key of
  -- its complete name is held.
  abbrev pub IsAscending : List Event → Type 0
  IsAscending [] = Unit
  IsAscending (locked key ∷ events) =
      All (λ other. before other key ≡ true) (held events) × IsAscending events
  IsAscending (unlocked key ∷ events) = IsAscending events
  IsAscending (patched domain zone body ∷ events) =
      (guards (held events) domain zone ≡ true) × IsAscending events

  -- The keys held are `keys`, every lock was taken in ascending order, and every zone was patched under
  -- its lock.
  pub record Locks (keys : List String) (w : World) : Type 0 where
    pub held_keys : held w.events ≡ keys
    pub ascending : IsAscending w.events

module _ (std : Std) (remote : Remote) (keys : List String) where
  abbrev L : World → Type 0
  L = Locks std keys

  abbrev IsGuarded : ZoneMatch → Type 0
  IsGuarded found = guards std keys found.domain found.zone_name ≡ true

  get_domains-Keeps : Keeps (Locks std keys) (get_domains std remote)
  unfolding get_domains
  get_domains-Keeps = record {
    run = λ w i. record { held_keys = i.held_keys; ascending = i.ascending };
  }

  patch_zone-Keeps :
      (found : ZoneMatch) (request : PatchZoneRequest)
      → IsGuarded found
      → Keeps (Locks std keys) (patch_zone std remote found request)
  unfolding patch_zone
  patch_zone-Keeps found request g = record {
    run = λ w i. record {
      held_keys = i.held_keys;
      ascending = (
        subst (λ ks. guards std ks found.domain found.zone_name ≡ true) (sym i.held_keys) g,
        i.ascending,
      );
    };
  }

  ruleset rules = (keeping, get_domains-Keeps, patch_zone-Keeps)

  -- The key of a name guards the zone that is found by it.
  abbrev Names : String → Type 0
  Names key = (found : ZoneMatch) → IsNamed std (normalize_fqdn std key) found → IsGuarded found
