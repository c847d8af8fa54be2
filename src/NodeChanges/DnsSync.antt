-- ===== src/NodeChanges/DnsSync.antt =====
-- The synchronisation of DNS with the address that the panel has of a Node: `SyncNodeDNS` of
-- internal/orchestrator/dns_sync.go.
pub mod Only
use remnanode_setup_bot.Base.{
  String, Bool, true, false, not, ◌&&◌, ◌||◌, Option, none, some, List, [], ◌∷◌, if◌then◌else◌,
  ◌==◌, string_comparable, Result, ok, err, ◌>>=◌, ◌>>◌, return, throw, is_blank, trim_space,
  trim_dot, is_none,
}
use Prim.Native.String.{◌++◌ as ◌<>◌}
use remnanode_setup_bot.Base.Net.{Addr, invalid, is_valid, unmap, addr_comparable, Std}
use remnanode_setup_bot.Deployment.{Deployment}
use remnanode_setup_bot.Remnawave.{Host, DeploymentProfile, Node, profile_from_host}
use remnanode_setup_bot.Dns.Models.{Zone, ZoneNode, ZoneMatch, items}
use remnanode_setup_bot.Dns.Zones.{holds, node_ips}
use remnanode_setup_bot.Orchestrator.World.{
  invalid_input, persistence_failed, dns_update_failed, ip_change_failed, node_not_found,
  dns_sync_unavailable, dns_target_unknown, plain, Config, Outside, Answer, refused, unchanged,
  changed, Run,
}
use remnanode_setup_bot.Orchestrator.Calls.{ask_nodes, ask_hosts}
use remnanode_setup_bot.Orchestrator.Prepare.{public_ip}
use remnanode_setup_bot.Orchestrator.Stages.{is_in, with_execution, with_slot}
use remnanode_setup_bot.NodeChanges.Calls.{
  Services, expect, managed_job, set_target_ip, find_zone, include_ip, replace_ip,
}
use remnanode_setup_bot.NodeChanges.HostMove.Request.{node_address, find_node}

-- `NodeDNSSyncInput`.
pub record DnsSyncInput : Type 0 where
  pub node_uuid : String
  pub expected_ip : Addr

-- `DNSSyncAdded`, `DNSSyncReplaced` and `DNSSyncAlreadyPresent`.
pub data SyncAction : Type 0 where
  added replaced already_present : SyncAction

-- `NodeDNSSyncResult`.
pub record DnsSyncResult : Type 0 where
  pub node_name : String
  pub address : Addr
  pub dns_zone : String
  pub action : SyncAction
  pub previous_ip : Addr

-- A Node and its address.
pub record Located : Type 0 where
  pub node : Node
  pub address : Addr

abbrev pub has_nodes : Option (List ZoneNode) → Bool
has_nodes none = false
has_nodes (some []) = false
has_nodes (some (_ ∷ _)) = true

-- The loop that collects the active inbounds.
abbrev pub inbound_set : List String → List String
inbound_set [] = []
inbound_set (inbound ∷ inbounds) =
    let rest = inbound_set inbounds in
    if trim_space inbound == "" then rest else trim_space inbound ∷ rest

abbrev is_single : List String → List String → Bool
is_single (inbound ∷ []) active = is_in inbound active
is_single _ active = false

-- An assignment to the map of candidates, from the domain to the SNI.
unfoldable pub put : String → String → List (String × String) → List (String × String)
put key value [] = (key, value) ∷ []
put key value ((k, v) ∷ rest) =
    let later = put key value rest in if k == key then (key, value) ∷ rest else (k, v) ∷ later

module _ (std : Std) where
  -- `normalizeDomain`.
  unfoldable pub normalize_domain : String → String
  normalize_domain value = std.to_lower (trim_dot (trim_space value))

  -- `zoneContainsIP`.
  unfoldable pub zone_contains_ip : Zone → Addr → Bool
  zone_contains_ip zone address =
      is_valid address
      && (holds std (unmap address) (items zone.ips)
          || holds std (unmap address) (node_ips (items zone.nodes)))

  -- The key of a Host among the candidates, `none` if it is none.
  abbrev candidate_key : String → List String → Option DeploymentProfile → Option String
  candidate_key profile active none = none
  candidate_key profile active (some p) =
      if p.profile_uuid == profile
        && is_single p.inbounds active
        && not (normalize_domain p.sni_domain == "")
      then some p.sni_domain
      else none

  abbrev with_candidate : Option String → List (String × String) → List (String × String)
  with_candidate none found = found
  with_candidate (some sni) found = put (normalize_domain sni) sni found

  -- The loop over the Hosts.
  unfoldable pub candidates :
      String → List String → List Host → List (String × String) → List (String × String)
  unfolding put normalize_domain
  candidates profile active [] found = found
  candidates profile active (host ∷ hosts) found = candidates profile active hosts (
      if host.is_disabled
      then found
      else with_candidate (candidate_key profile active (profile_from_host host)) found)

module _ (std : Std) (o : Outside) (services : Services) where
  -- One candidate decides; none or several leave the zone unknown.
  abbrev pub zone_of_only : List (String × String) → Run (Option ZoneMatch)
  zone_of_only ((key, sni) ∷ []) = do
    found ← find_zone services sni >>= expect dns_update_failed
    return (some found)
  zone_of_only _ = return none

  -- `inferLegacyDNSZone`, without its notes.
  abbrev pub infer_zone : Option String → List String → Run (Option ZoneMatch)
  infer_zone none inbounds = return none
  infer_zone (some profile) [] = return none
  infer_zone (some profile) (inbound ∷ inbounds) = if is_blank profile then return none else do
    hosts ← ask_hosts o >>= expect ip_change_failed
    zone_of_only (candidates std (trim_space profile) (inbound_set (inbound ∷ inbounds)) hosts [])

  -- The zone of a Node: the persisted one if the Node is managed.
  abbrev pub zone_of : Node → Option Deployment → Run ZoneMatch
  zone_of node none =
      infer_zone node.active_profile node.active_inbounds >>= expect dns_target_unknown
  zone_of node (some job) = find_zone services job.sni_domain >>= expect dns_update_failed

  -- `findNodeByUUID`.
  abbrev pub located : Node → Option Addr → Run Located
  located node none = throw (plain ip_change_failed)
  located node (some address) = return (record { node = node; address = address })

  unfoldable pub find_node_by_uuid : String → Run Located
  find_node_by_uuid uuid = do
    nodes ← ask_nodes o >>= expect ip_change_failed
    node ← expect node_not_found (find_node (trim_space uuid) nodes)
    located node (node_address std node.address)

abbrev pub previous_of : Option Deployment → Addr
previous_of none = invalid
previous_of (some job) = unmap job.target_ip

module _ (services : Services) where
  abbrev pub done_as : SyncAction → Answer → Run SyncAction
  done_as action refused = throw (plain dns_update_failed)
  done_as action unchanged = return already_present
  done_as action changed = return action

  -- The change in DNS, if one is due.
  unfoldable pub change_dns : Std → ZoneMatch → Addr → Addr → Run SyncAction
  unfolding zone_contains_ip
  change_dns std found previous address =
      if is_valid previous && not (previous == address) && zone_contains_ip std found.zone previous
      then replace_ip services found.fqdn previous address >>= done_as replaced
      else if zone_contains_ip std found.zone address
      then return already_present
      else if has_nodes found.zone.nodes
      then throw (plain dns_target_unknown)
      else include_ip services found.fqdn address >>= done_as added

module _ (o : Outside) where
  -- The write of the address to the job of a managed Node. What DNS holds then is not undone.
  abbrev pub save_address : Addr → Option Deployment → Run (Unit {0})
  save_address address none = return tt
  save_address address (some job) = if unmap job.target_ip == address then return tt else do
    saved ← set_target_ip o job.id address
    if saved then return tt else throw (plain persistence_failed)

module _ (std : Std) (o : Outside) (config : Config) (services : Services) where
  -- `SyncNodeDNS` once the Node has the expected address.
  unfoldable pub sync_located : Located → Run DnsSyncResult
  sync_located found = do
    job ← managed_job o config found.node.uuid
    zone ← zone_of std o services found.node job
    action ← change_dns services std zone (previous_of job) found.address
    save_address o found.address job
    return (record {
      node_name = found.node.name;
      address = found.address;
      dns_zone = zone.fqdn;
      action = action;
      previous_ip = previous_of job;
    })

  -- `SyncNodeDNS` under its lock and slot.
  unfoldable pub sync_dns : DnsSyncInput → Run DnsSyncResult
  unfolding sync_located
  sync_dns input = do
    found ← find_node_by_uuid std o services input.node_uuid
    if found.address == unmap input.expected_ip
        then sync_located found
        else throw (plain ip_change_failed)

  abbrev pub refuses : DnsSyncInput → Bool
  refuses input =
      is_blank input.node_uuid
      || not (is_valid input.expected_ip)
      || not (public_ip input.expected_ip)

  abbrev pub sync_job : DnsSyncInput → String
  sync_job input = "node-dns:" <> trim_space input.node_uuid

  -- `SyncNodeDNS`.
  unfoldable pub sync_node_dns : DnsSyncInput → Run DnsSyncResult
  unfolding sync_dns
  sync_node_dns input =
      if config.dns_disabled
      then throw (plain dns_sync_unavailable)
      else if refuses input
      then throw (plain invalid_input)
      else with_execution (sync_job input) (with_slot o (sync_dns input))
