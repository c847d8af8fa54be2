-- ===== src/Dns/Client/AddIp.antt =====
-- What AddIP does: internal/dnsbalancer/client.go.
use remnanode_setup_bot.Base.{◌≡◌, inl, inr}
use remnanode_setup_bot.Base.{true, false, not, ◌&&◌, ◌||◌, some, ◌∷◌, arith}
use remnanode_setup_bot.Base.{◌==◌, nat_comparable, string_comparable, if◌then◌else◌}
use remnanode_setup_bot.Base.{Result-cases, ok, run_effects, trim_space}
use remnanode_setup_bot.Base.Net.{Addr, unmap, addr_comparable, Std, IsLawful}
use remnanode_setup_bot.Dns.Models.{ZoneMatch, AddIpResult, items}
use remnanode_setup_bot.Dns.Wire.{ips_body, entry_addr}
use remnanode_setup_bot.Dns.Zones.{node_ips, scan, holds}
use remnanode_setup_bot.Dns.Zones.Scan.{scan-holds}
use remnanode_setup_bot.Dns.Zones.Move.{holds-appended_string}
use remnanode_setup_bot.Dns.Client.{Remote, patched, World, patch_zone, add_ip_found}

module _ (std : Std) (L : IsLawful std trim_space) (remote : Remote) where
  -- A zone read from the balancer, the address to add, and a successful run of AddIP on them: an
  -- address is added exactly when neither format of the zone holds it; the simple entries then hold
  -- what they held and the new address, else they are as they were; and the only effect is one PATCH
  -- of that complete list, sent exactly when an address is added.
  pub add_ip_found_effect :
      (found : ZoneMatch) (ip x : Addr) (w : World) {r : AddIpResult} {w' : World}
      → entry_addr std (std.addr_string ip) ≡ some ip
      → unmap ip ≡ ip
      → add_ip_found std remote found ip w ≡ (ok r, w')
      → (r.added
          ≡ not (
              holds std ip (items found.zone.ips)
              || holds std ip (node_ips (items found.zone.nodes))))
        × (holds std x r.ips ≡ (holds std x (items found.zone.ips) || (r.added && x == ip)))
        × (w'.events ≡ (
            if r.added
            then patched found.domain found.zone_name (ips_body (some r.ips)) ∷ w.events
            else w.events))
  unfolding add_ip_found patch_zone run_effects
  add_ip_found_effect found ip x w v u h =
      elim (Result-cases (scan std ip (items found.zone.ips))) [
        | inl (true, s) ↦ ground (arith, scan-holds std ip (items found.zone.ips) s)
        | inl (false, s) ↦ elim (Result-cases (scan std ip (node_ips (items found.zone.nodes)))) [
          | inl (b, t) ↦ ground (
            arith,
            scan-holds std ip (items found.zone.ips) s,
            scan-holds std ip (node_ips (items found.zone.nodes)) t,
            holds-appended_string std L ip x (items found.zone.ips) v u,
          )
          | inr (e, t) ↦ absurd (ground arith)
        ]
        | inr (e, s) ↦ absurd (ground arith)
      ]
