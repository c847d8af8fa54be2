-- ===== src/NodeChanges/Lookup.antt =====
-- What an operator is shown before a change of a Node: FindNodeForIPChange and FindNodeForDNSSync of
-- internal/orchestrator/ip_change.go and dns_sync.go, without their notes.
pub mod Offers
use remnanode_setup_bot.Base.{
  String, Bool, true, false, not, ◌&&◌, ◌||◌, Option, none, some, List, [], ◌∷◌, map, if◌then◌else◌,
  ◌==◌, string_comparable, ◌>>=◌, ◌>>◌, return, throw, trim_space, is_some, sort_strings,
}
use remnanode_setup_bot.Base.Net.{Addr, invalid, is_valid, unmap, addr_comparable, Std}
use remnanode_setup_bot.Deployment.{Deployment}
use remnanode_setup_bot.Remnawave.{Node}
use remnanode_setup_bot.Dns.Models.{ZoneMatch}
use remnanode_setup_bot.Orchestrator.World.{
  invalid_input, dns_update_failed, ip_change_failed, node_not_found, ambiguous_node,
  dns_sync_unavailable, plain, Config, Outside, Run,
}
use remnanode_setup_bot.Orchestrator.Calls.{ask_nodes}
use remnanode_setup_bot.NodeChanges.Calls.{Services, expect, managed_job, find_zones, find_zone}
use remnanode_setup_bot.NodeChanges.HostMove.Request.{node_address}
use remnanode_setup_bot.NodeChanges.DnsSync.{
  Located, located, zone_contains_ip, has_nodes, infer_zone, previous_of,
}

-- `NodeIPTarget`.
pub record IpTarget : Type 0 where
  pub uuid : String
  pub name : String
  pub address : Addr
  pub connected : Bool
  pub dns_zones : List String
  pub managed : Bool

-- `NodeDNSSyncTarget`, without its note.
pub record SyncTarget : Type 0 where
  pub uuid : String
  pub name : String
  pub address : Addr
  pub connected : Bool
  pub managed : Bool
  pub dns_zone : String
  pub previous_ip : Addr
  pub current_zones : List String
  pub current_present : Bool
  pub previous_present : Bool
  pub can_sync : Bool

abbrev same_ip : Addr → Option Addr → Bool
same_ip wanted none = false
same_ip wanted (some a) = unmap a == unmap wanted

module _ (std : Std) where
  -- A query that is an address asks for the address, any other for the name.
  abbrev is_asked : String → Option Addr → Node → Bool
  is_asked query none node = std.equal_fold (trim_space node.name) query
  is_asked query (some wanted) node = same_ip wanted (std.parse_addr (trim_space node.address))

  -- The loop over the Nodes.
  unfoldable pub asked_nodes : String → Option Addr → List Node → List Node
  asked_nodes query wanted [] = []
  asked_nodes query wanted (node ∷ nodes) =
      let rest = asked_nodes query wanted nodes in
      if is_asked query wanted node then node ∷ rest else rest

  abbrev the_node : List Node → Run Node
  the_node [] = throw (plain node_not_found)
  the_node (node ∷ []) = return node
  the_node (_ ∷ _ ∷ _) = throw (plain ambiguous_node)

  -- Whether a change of a zone can be offered: an advanced zone must hold the address, or the one that
  -- it takes the place of.
  abbrev pub previous_holds : ZoneMatch → Addr → Bool
  previous_holds found previous = is_valid previous && zone_contains_ip std found.zone previous

  abbrev pub can_sync : ZoneMatch → Addr → Addr → Bool
  can_sync found previous address = not (
      has_nodes found.zone.nodes
      && not (zone_contains_ip std found.zone address)
      && not (previous_holds found previous))

abbrev pub zone_names : List ZoneMatch → List String
zone_names zones = sort_strings (map (λ (zone : ZoneMatch). zone.fqdn) zones)

module _ (std : Std) (o : Outside) (config : Config) (services : Services) where
  -- `findExactNode`.
  unfoldable pub find_exact_node : String → Run Located
  unfolding asked_nodes
  find_exact_node text =
      let query = trim_space text in
      if query == "" then throw (plain invalid_input) else do
        nodes ← ask_nodes o >>= expect ip_change_failed
        node ← the_node std (asked_nodes std query (std.parse_addr query) nodes)
        located std o services node (node_address std node.address)

  -- The zones that contain an address, if there is DNS.
  abbrev zones_with : Addr → Run (List ZoneMatch)
  zones_with address =
      if config.dns_disabled
      then return []
      else find_zones services address >>= expect dns_update_failed

  -- `FindNodeForIPChange`.
  unfoldable pub find_node_for_ip_change : String → Run IpTarget
  unfolding find_exact_node
  find_node_for_ip_change query = do
    found ← find_exact_node query
    zones ← zones_with found.address
    job ← managed_job o config found.node.uuid
    return (record {
      uuid = found.node.uuid;
      name = found.node.name;
      address = found.address;
      connected = found.node.is_connected;
      dns_zones = zone_names zones;
      managed = is_some job;
    })

  -- The target of a Node whose zone is not known.
  abbrev unknown_target : Located → List ZoneMatch → SyncTarget
  unknown_target found zones = record {
    uuid = found.node.uuid;
    name = found.node.name;
    address = found.address;
    connected = found.node.is_connected;
    managed = false;
    dns_zone = "";
    previous_ip = invalid;
    current_zones = zone_names zones;
    current_present = false;
    previous_present = false;
    can_sync = false;
  }

  -- The target with its zone.
  abbrev pub known_target : Located → List ZoneMatch → Option Deployment → ZoneMatch → SyncTarget
  known_target found zones job match =
      let previous = previous_of job in
      record (unknown_target found zones) {
        managed = is_some job;
        dns_zone = match.fqdn;
        previous_ip = previous;
        current_present = zone_contains_ip std match.zone found.address;
        previous_present = previous_holds std match previous;
        can_sync = can_sync std match previous found.address;
      }

  abbrev inferred_target : Located → List ZoneMatch → Option ZoneMatch → Run SyncTarget
  inferred_target found zones none = return (unknown_target found zones)
  inferred_target found zones (some match) = return (known_target found zones none match)

  abbrev sync_target_of : Located → List ZoneMatch → Option Deployment → Run SyncTarget
  sync_target_of found zones none =
      infer_zone std o services found.node.active_profile found.node.active_inbounds
      >>= inferred_target found zones
  sync_target_of found zones (some job) = do
    match ← find_zone services job.sni_domain >>= expect dns_update_failed
    return (known_target found zones (some job) match)

  -- `FindNodeForDNSSync`.
  unfoldable pub find_node_for_dns_sync : String → Run SyncTarget
  unfolding find_exact_node
  find_node_for_dns_sync query =
      if config.dns_disabled then throw (plain dns_sync_unavailable) else do
        found ← find_exact_node query
        zones ← find_zones services found.address >>= expect dns_update_failed
        job ← managed_job o config found.node.uuid
        sync_target_of found zones job
