-- ===== src/Dns/Zones.antt =====
-- The entries of a zone, and the requests computed from them: the loops of
-- internal/dnsbalancer/client.go.
pub mod Scan
pub mod Replace
pub mod Move
use remnanode_setup_bot.Base.{String}
use remnanode_setup_bot.Base.{Bool, true, false, ◌||◌, Option, none, some, List, [], ◌∷◌, ◌++◌, map}
use remnanode_setup_bot.Base.{◌==◌, nat_comparable, string_comparable, if◌then◌else◌, is_some}
use remnanode_setup_bot.Base.{Result, ok, err}
use remnanode_setup_bot.Base.Net.{Addr, unmap, addr_comparable, Std}
use remnanode_setup_bot.Dns.Models.{
  Error, invalid_input, invalid_response, ZoneNode, Zone, items, and_then,
}
use remnanode_setup_bot.Dns.Wire.{PatchZoneRequest, entry_addr}

abbrev pub ips_request : List String → PatchZoneRequest
ips_request ips = record { ips = some ips; nodes = none }

abbrev pub nodes_request : List ZoneNode → PatchZoneRequest
nodes_request nodes = record { ips = none; nodes = some nodes }

abbrev pub node_ips : List ZoneNode → List String
node_ips nodes = map (λ (node : ZoneNode). node.ip) nodes

-- Whether the two addresses of a replacement occur.
pub record Found : Type 0 where
  pub old : Bool
  pub new : Bool

-- What `zoneWithoutIP` returns: the request, whether the address was there, its advanced entry.
pub record Removal : Type 0 where
  pub request : PatchZoneRequest
  pub found : Bool
  pub moved : Option ZoneNode

-- The loops of `zoneWithoutIP`. The last entry with the address is the one remembered.
pub record NodeSplit : Type 0 where
  pub nodes : List ZoneNode
  pub moved : Option ZoneNode

pub record IpSplit : Type 0 where
  pub ips : List String
  pub found : Bool

pub record Addition : Type 0 where
  pub request : PatchZoneRequest
  pub found : Bool

module _ (std : Std) where
  -- Whether the address occurs; an entry that does not parse is passed over (`FindZonesByIP`).
  unfoldable pub holds : Addr → List String → Bool
  unfolding entry_addr
  holds ip [] = false
  holds ip (text ∷ rest) = elim (entry_addr std text) [
    | none ↦ holds ip rest
    | some parsed ↦ unmap parsed == ip || holds ip rest
  ]

  -- Whether an entry equals `ip`; an entry that does not parse before that is an error.
  unfoldable pub scan : Addr → List String → Result Error Bool
  unfolding entry_addr
  scan ip [] = ok false
  scan ip (text ∷ rest) = elim (entry_addr std text) [
    | none ↦ err invalid_response
    | some parsed ↦ let later = scan ip rest in if unmap parsed == ip then ok true else later
  ]

  unfoldable pub scan_both : Addr → Addr → List String → Result Error Found
  unfolding entry_addr
  scan_both old new [] = ok (record { old = false; new = false })
  scan_both old new (text ∷ rest) = elim (entry_addr std text) [
    | none ↦ err invalid_response
    | some parsed ↦ and_then (scan_both old new rest) (λ found.
        if unmap parsed == old
        then ok (record found { old = true })
        else if unmap parsed == new
        then ok (record found { new = true })
        else ok found)
  ]

  -- The nodes with the old address replaced, or dropped if the new one is there already.
  unfoldable pub replace_nodes : Addr → Addr → Bool → List ZoneNode → List ZoneNode
  unfolding entry_addr
  replace_nodes old new found_new [] = []
  replace_nodes old new found_new (item ∷ rest) =
      let others = replace_nodes old new found_new rest in
      elim (entry_addr std item.ip) [
        | none ↦ item ∷ others
        | some parsed ↦
            if unmap parsed == old
            then if found_new then others else record item { ip = std.addr_string new } ∷ others
            else item ∷ others
      ]

  -- The simple entries that stay in a replacement, in canonical form.
  unfoldable pub keep_ips : Addr → Addr → List String → List String
  unfolding entry_addr
  keep_ips old new [] = []
  keep_ips old new (text ∷ rest) =
      let others = keep_ips old new rest in
      elim (entry_addr std text) [
        | none ↦ others
        | some parsed ↦
            if unmap parsed == old
            then others
            else if unmap parsed == new
            then std.addr_string new ∷ others
            else std.addr_string (unmap parsed) ∷ others
      ]

  unfoldable pub split_nodes : Addr → List ZoneNode → Option ZoneNode → Result Error NodeSplit
  unfolding entry_addr
  split_nodes ip [] moved = ok (record { nodes = []; moved = moved })
  split_nodes ip (item ∷ rest) moved = elim (entry_addr std item.ip) [
    | none ↦ err invalid_response
    | some parsed ↦
        and_then (split_nodes ip rest (if unmap parsed == ip then some item else moved)) (λ split.
          if unmap parsed == ip then ok split else ok (record split { nodes = item ∷ split.nodes }))
  ]

  unfoldable pub split_ips : Addr → List String → Result Error IpSplit
  unfolding entry_addr
  split_ips ip [] = ok (record { ips = []; found = false })
  split_ips ip (text ∷ rest) = elim (entry_addr std text) [
    | none ↦ err invalid_response
    | some parsed ↦ and_then (split_ips ip rest) (λ split.
        if unmap parsed == ip
        then ok (record split { found = true })
        else ok (record split { ips = std.addr_string (unmap parsed) ∷ split.ips }))
  ]

  -- `zoneWithoutIP`.
  unfoldable pub zone_without_ip : Zone → Addr → Result Error Removal
  zone_without_ip zone ip = elim (zone.nodes) [
    | some nodes ↦ and_then (split_nodes ip nodes none) (λ split. ok (record {
      request = nodes_request split.nodes;
      found = is_some split.moved;
      moved = split.moved;
    }))
    | none ↦ and_then (split_ips ip (items zone.ips)) (λ split.
        ok (record { request = ips_request split.ips; found = split.found; moved = none }))
  ]

  append_node : List ZoneNode → Option ZoneNode → Result Error Addition
  append_node nodes none = err invalid_input
  append_node nodes (some node) =
      ok (record { request = nodes_request (nodes ++ (node ∷ [])); found = false })

  -- `zoneWithIP`.
  unfoldable pub zone_with_ip : Zone → Addr → Option ZoneNode → Result Error Addition
  unfolding append_node
  zone_with_ip zone ip source_node = elim (zone.nodes) [
    | some nodes ↦ and_then (scan ip (node_ips nodes)) (λ found.
        if found
        then ok (record { request = nodes_request nodes; found = true })
        else append_node nodes source_node)
    | none ↦ and_then (scan ip (items zone.ips)) (λ found.
        if found
        then ok (record { request = ips_request (items zone.ips); found = true })
        else ok (record {
          request = ips_request (items zone.ips ++ (std.addr_string ip ∷ []));
          found = false;
        }))
  ]

-- `append([]T(nil), xs...)`: the copy of an empty slice is nil.
abbrev pub clone {ℓ} : {A : Type ℓ} → List A → Option (List A)
clone [] = none
clone (x ∷ xs) = some (x ∷ xs)

-- `zoneSnapshotRequest`.
unfoldable pub zone_snapshot_request : Zone → PatchZoneRequest
zone_snapshot_request zone = elim (zone.nodes) [
  | some nodes ↦ record { ips = none; nodes = clone nodes }
  | none ↦ record { ips = clone (items zone.ips); nodes = none }
]
