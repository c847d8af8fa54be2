-- ===== src/Dns/Client/ReplaceIp.antt =====
-- What ReplaceIP does: internal/dnsbalancer/client.go.
use remnanode_setup_bot.Base.{String, ◌≡◌, refl, ◌≢◌, inl, inr}
use remnanode_setup_bot.Base.{true, not, ◌&&◌, ◌||◌, some, List, [], ◌∷◌, ◌++◌, arith}
use remnanode_setup_bot.Base.{◌==◌, nat_comparable, string_comparable, if◌then◌else◌, Bool-cases}
use remnanode_setup_bot.Base.{Result-cases, ok, run_effects, trim_space}
use remnanode_setup_bot.Base.Net.{Addr, unmap, addr_comparable, addr_beq_iff, Std, IsLawful}
use remnanode_setup_bot.Dns.Models.{ZoneNode, ZoneMatch, ReplaceIpResult, items}
use remnanode_setup_bot.Dns.Wire.{entry_addr, Body, nodes_body, ips_body}
use remnanode_setup_bot.Dns.Zones.{node_ips, scan_both, Found, replace_nodes, keep_ips, holds}
use remnanode_setup_bot.Dns.Zones.Scan.{scan_both-holds}
use remnanode_setup_bot.Dns.Zones.Replace.{holds-keep_ips, holds-replace_nodes}
use remnanode_setup_bot.Dns.Zones.Move.{holds-appended_string, holds-already}
use remnanode_setup_bot.Dns.Client.{
  Remote, patched, World, patch_zone, replace_ip_found, replace_ip_dispatch, replace_in_nodes,
  replace_in_ips,
}

-- The format that ReplaceIP works on: the advanced one as soon as it has an entry.
abbrev pub used_entries : List ZoneNode → List String → List String
used_entries [] ips = ips
used_entries (node ∷ nodes) ips = node_ips (node ∷ nodes)

used_entries-nil : (nodes : List ZoneNode) → used_entries nodes [] ≡ node_ips nodes
used_entries-nil [] = refl
used_entries-nil (_ ∷ _) = refl

abbrev pub result_body : List ZoneNode → ReplaceIpResult → Body
result_body [] r = ips_body (some r.ips)
result_body (_ ∷ _) r = nodes_body r.nodes

module _ (std : Std) (L : IsLawful std trim_space) (remote : Remote) where
  module _ (old new x : Addr) (d : old ≢ new) (v : entry_addr std (std.addr_string new) ≡ some new)
      (u : unmap new ≡ new) where
    holds-final_ips :
        (ips : List String) {seen : Found}
        → scan_both std old new ips ≡ ok seen
        → holds std x (
            if seen.new
            then keep_ips std old new ips
            else keep_ips std old new ips ++ (std.addr_string new ∷ []))
          ≡ (x == new || (not (x == old) && holds std x ips))
    holds-final_ips ips {seen} s =
        let kept = keep_ips std old new ips in
        let (a, b) = scan_both-holds std old new ips d s in
        elim (Bool-cases seen.new) [
          | inl e ↦ rw e (
              ground (
                arith,
                holds-keep_ips std L old new v u x ips s,
                holds-keep_ips std L old new v u new ips s,
                addr_beq_iff x new,
                addr_beq_iff new old,
                b,
                e,
              ))
          | inr e ↦ rw e (
              ground (
                arith,
                holds-keep_ips std L old new v u x ips s,
                holds-appended_string std L new x kept v u,
              ))
        ]

    holds-final_nodes :
        (nodes : List ZoneNode) {seen : Found}
        → scan_both std old new (node_ips nodes) ≡ ok seen
        → seen.old ≡ true
        → holds std x (node_ips (replace_nodes std old new seen.new nodes))
          ≡ (x == new || (not (x == old) && holds std x (node_ips nodes)))
    holds-final_nodes nodes {seen} s o =
        let (a, b) = scan_both-holds std old new (node_ips nodes) d s in
        elim (Bool-cases (x == new)) [
          | inl e ↦ ground (
            arith,
            holds-replace_nodes std L old new v u x seen.new nodes s,
            (addr_beq_iff x new).0 e,
            addr_beq_iff x old,
            a,
            b,
            o,
          )
          | inr e ↦ ground (arith, holds-replace_nodes std L old new v u x seen.new nodes s)
        ]

  dispatch_effect :
      (found : ZoneMatch) (nodes : List ZoneNode) (old new x : Addr) (w : World)
      {r : ReplaceIpResult} {w' : World}
      → old ≢ new
      → entry_addr std (std.addr_string new) ≡ some new
      → unmap new ≡ new
      → replace_ip_dispatch std remote found nodes old new w ≡ (ok r, w')
      → let entries = used_entries nodes (items found.zone.ips) in
        (r.changed ≡ holds std old entries)
        × (holds std x (used_entries r.nodes r.ips)
            ≡ (x == new || (not (x == old) && holds std x entries)))
        × (w'.events ≡ (
            if r.changed
            then patched found.domain found.zone_name (result_body nodes r) ∷ w.events
            else w.events))
  unfolding replace_ip_dispatch replace_in_ips replace_in_nodes patch_zone run_effects
  dispatch_effect found [] old new x w d v u h =
      let ips = items found.zone.ips in
      elim (Result-cases (scan_both std old new ips)) [
        | inl (seen, s) ↦ ground (
          arith,
          s,
          holds-final_ips old new x d v u ips s,
          holds-keep_ips std L old new v u x ips s,
          scan_both-holds std old new ips d s,
          addr_beq_iff x new,
          addr_beq_iff x old,
        )
        | inr (e, s) ↦ absurd (ground arith)
      ]
  dispatch_effect found (node ∷ nodes) old new x w d v u h =
      elim (Result-cases (scan_both std old new (node_ips (node ∷ nodes)))) [
        | inl (seen, s) ↦ ground (
          arith,
          s,
          used_entries-nil (replace_nodes std old new seen.new (node ∷ nodes)),
          holds-final_nodes old new x d v u (node ∷ nodes) s,
          scan_both-holds std old new (node_ips (node ∷ nodes)) d s,
          holds-already std L new x (node_ips (node ∷ nodes)),
          addr_beq_iff x new,
          addr_beq_iff x old,
        )
        | inr (e, s) ↦ absurd (ground arith)
      ]

  -- A zone found, two different plain addresses and a successful run of ReplaceIP: it says that it
  -- changed the zone exactly when the old address was there; the entries that it returns hold the
  -- new address, every other address that the zone held, and not the old one; and the only effect is
  -- one PATCH of that complete list in the zone's own format, sent exactly when it changed the zone.
  pub replace_ip_found_effect :
      (found : ZoneMatch) (old new x : Addr) (w : World) {r : ReplaceIpResult} {w' : World}
      → old ≢ new
      → entry_addr std (std.addr_string new) ≡ some new
      → unmap new ≡ new
      → replace_ip_found std remote found old new w ≡ (ok r, w')
      → let entries = used_entries (items found.zone.nodes) (items found.zone.ips) in
        (r.changed ≡ holds std old entries)
        × (holds std x (used_entries r.nodes r.ips)
            ≡ (x == new || (not (x == old) && holds std x entries)))
        × (w'.events ≡ (
            if r.changed
            then patched found.domain found.zone_name (result_body (items found.zone.nodes) r)
              ∷ w.events
            else w.events))
  unfolding replace_ip_found
  replace_ip_found_effect found old new x w d v u h =
      dispatch_effect found (items found.zone.nodes) old new x w d v u h
