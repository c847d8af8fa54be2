-- ===== src/NodeChanges/Lookup/Offers.antt =====
-- What is offered to an operator and what is then carried out agree: `CanSync` of FindNodeForDNSSync,
-- and the branches of SyncNodeDNS, in internal/orchestrator/dns_sync.go.
use remnanode_setup_bot.Base.{
  Bool, true, String, ap, false, not, ◌&&◌, ◌≡◌, ◌↔◌, refl, arith, err, Result, run_effects, return,
  throw, ◌>>=◌, if◌then◌else◌, ◌==◌,
}
use remnanode_setup_bot.Base.Net.{Addr, is_valid, addr_comparable, addr_beq_iff, Std}
use remnanode_setup_bot.Dns.Models.{ZoneMatch}
use remnanode_setup_bot.Orchestrator.World.{
  Error, World, Run, Answer, refused, unchanged, changed, plain, dns_target_unknown,
}
use remnanode_setup_bot.NodeChanges.Calls.{Services, answer_of, replace_ip, include_ip}
use remnanode_setup_bot.NodeChanges.DnsSync.{
  SyncAction, replaced, added, already_present, done_as, change_dns, zone_contains_ip, has_nodes,
}
use remnanode_setup_bot.NodeChanges.Lookup.{can_sync}

-- The error of a zone that is not known.
abbrev IsUnknown : {A : Type 0} → Result Error A × World → Type 0
IsUnknown r = r.0 ≡ err (plain dns_target_unknown)

module _ (services : Services) (w : World) where
  done_as-known :
      (action : SyncAction) (answer : Answer) → IsUnknown (done_as services action answer w) → ⊥
  unfolding run_effects
  done_as-known action refused e = absurd (ground (arith, e))
  done_as-known action unchanged e = absurd (ground (arith, e))
  done_as-known action changed e = absurd (ground (arith, e))

module _ (services : Services) (w : World) where
  replaced_known :
      (fqdn : String) (from to : Addr)
      → IsUnknown ((replace_ip services fqdn from to >>= done_as services replaced) w)
      → ⊥
  unfolding replace_ip run_effects
  replaced_known fqdn from to =
      done_as-known services _ replaced (answer_of (services.replace_ip w.tick fqdn from to))

  included_known :
      (fqdn : String) (address : Addr)
      → IsUnknown ((include_ip services fqdn address >>= done_as services added) w)
      → ⊥
  unfolding include_ip run_effects
  included_known fqdn address =
      done_as-known services _ added (answer_of (services.add_ip w.tick fqdn address))

  -- The three tests of `SyncNodeDNS` on a zone, before the changes `m` and `n`.
  by_tests :
      (m n : Run SyncAction)
      → (IsUnknown (m w) → ⊥)
      → (IsUnknown (n w) → ⊥)
      → (takes holds advanced : Bool)
      → IsUnknown (
          (if takes
              then m
              else if holds
              then return already_present
              else if advanced
              then throw (plain dns_target_unknown)
              else n)
            w)
        ↔ ((not takes && not holds && advanced) ≡ true)
  unfolding run_effects
  by_tests m n hm hn true holds advanced = (λ e. absurd (hm e), λ e. absurd (ground (arith, e)))
  by_tests m n hm hn false true advanced =
      (λ e. absurd (ground (arith, e)), λ e. absurd (ground (arith, e)))
  by_tests m n hm hn false false true = (λ _. refl, λ _. refl)
  by_tests m n hm hn false false false = (λ e. absurd (hn e), λ e. absurd (ground (arith, e)))

-- The tests of the change and the test of the preview, of an address equal to the previous one too.
tests_agree :
    (valid same old new advanced : Bool)
    → (same ≡ true → old ≡ new)
    → ((not (valid && not same && old) && not new && advanced) ≡ true)
      ↔ (not (advanced && not new && not (valid && old)) ≡ false)
tests_agree true true true true advanced h = ground arith
tests_agree true true true false advanced h = absurd (ground (arith, h refl))
tests_agree true true false new advanced h = ground arith
tests_agree true false old new advanced h = ground arith
tests_agree false same old new advanced h = ground arith

-- A synchronisation refuses its zone exactly if it was not offered: whatever the balancer answers, it
-- ends with the error of an unknown target exactly if the preview of the same zone, previous and
-- current address says that it cannot be done.
pub can_sync-change_dns :
    (std : Std) (services : Services) (found : ZoneMatch) (previous address : Addr) (w : World)
    → ((change_dns services std found previous address w).0 ≡ err (plain dns_target_unknown))
      ↔ (can_sync std found previous address ≡ false)
unfolding change_dns run_effects
can_sync-change_dns std services found previous address w =
    let same = previous == address in
    let old = zone_contains_ip std found.zone previous in
    let new = zone_contains_ip std found.zone address in
    let tests =
      by_tests services w
        (replace_ip services found.fqdn previous address >>= done_as services replaced)
        (include_ip services found.fqdn address >>= done_as services added)
        (replaced_known services w found.fqdn previous address)
        (included_known services w found.fqdn address) (is_valid previous && not same && old) new
        (has_nodes found.zone.nodes) in
    let agree =
      tests_agree (is_valid previous) same old new (has_nodes found.zone.nodes)
        (λ e. ap (zone_contains_ip std found.zone) ((addr_beq_iff previous address).0 e)) in
    (λ e. agree.0 (tests.0 e), λ e. tests.1 (agree.1 e))
