-- ===== src/Tests/NodeChanges.antt =====
-- A Node that runs one of two Hosts, and the theorems on the changes of a Node at it.
use remnanode_setup_bot.Base.{
  ℕ, String, ◌≡◌, refl, true, false, err, none, some, [], ◌∷◌, run_effects, trim_space, is_blank,
  sort_strings, ◌↔◌, if◌then◌else◌, ◌==◌, string_comparable,
}
use mathlib.Core.List.{Perm}
use remnanode_setup_bot.Base.Net.{v4, addr_beq, unmap}
use remnanode_setup_bot.Repository.{valid_uuid}
use remnanode_setup_bot.Repository.Unfinished.{valid_panel_id}
use remnanode_setup_bot.Remnawave.{Host, Node, profile_from_host}
use remnanode_setup_bot.Orchestrator.World.{Outside, World, plain, dns_target_unknown}
use remnanode_setup_bot.Orchestrator.Nodes.{find_host}
use remnanode_setup_bot.Orchestrator.Stages.{with_execution, with_slot}
use remnanode_setup_bot.Orchestrator.Calls.{ask_nodes, ask_hosts, ask_certificate}
use remnanode_setup_bot.Orchestrator.Prepare.{public_ip}
use remnanode_setup_bot.NodeChanges.Calls.{
  Services, expect, managed_job, find_job, latest_job, find_zones, update_address, update_profile,
  replace_ip, move_ip, switch_sni, set_host_binding,
}
use remnanode_setup_bot.NodeChanges.Fingerprint.{
  canonical_uuids, node_fingerprint, same_profile, hosts_of, matching_hosts, trimmed_ids,
  same_profile_iff,
}
use remnanode_setup_bot.NodeChanges.HostMove.{HostMoveResult, rollback, fail, apply_move}
use remnanode_setup_bot.NodeChanges.HostMove.Request.{
  HostMoveInput, find_node, previous_of, node_address, node_by_uuid, choose_hosts, plan_move,
  move_host, begin_move, move_node_to_host,
}
use remnanode_setup_bot.NodeChanges.HostMove.Outcome.{Restored}
use remnanode_setup_bot.NodeChanges.IpChange.{IpChangeInput}
use remnanode_setup_bot.NodeChanges.IpChange as IpChange
use remnanode_setup_bot.NodeChanges.DnsSync.{DnsSyncInput, change_dns, sync_node_dns}
use remnanode_setup_bot.NodeChanges.Lookup.{can_sync}
use remnanode_setup_bot.NodeChanges.Lookup.Offers.{can_sync-change_dns}
use remnanode_setup_bot.NodeChanges.DnsSync.Only.{all_allowed, sync_node_dns-all_allowed}
use remnanode_setup_bot.Dns.Models.{ZoneMatch}
use remnanode_setup_bot.Tests.Dns.{std}
use remnanode_setup_bot.Tests.Orchestrator.{host, host_id, node_id, node, outside, config, begun}

abbrev target_id : String
target_id = "00000000-0000-0000-0000-000000000004"

abbrev running_node : Node
running_node = record node { active_profile = some host_id; active_inbounds = host_id ∷ [] }

abbrev target_host : Host
target_host = record host {
  uuid = target_id;
  address = "example.org";
  inbound = record { profile_uuid = some host_id; inbound_uuid = some target_id };
}

abbrev panel : Outside
panel = record outside {
  hosts = λ _. some (host ∷ target_host ∷ []);
  nodes = λ _. some (running_node ∷ []);
}

abbrev services : Services
services = record {
  has_switcher = true;
  update_address = λ _ _ _. true;
  update_profile = λ _ _ _. some (record running_node { active_inbounds = target_id ∷ [] });
  find_zones = λ _ _. some [];
  find_zone = λ _ _. none;
  add_ip = λ _ _ _. some true;
  replace_ip = λ _ _ _ _. some true;
  move_ip = λ _ _ _ _. some true;
  switch_sni = λ _ _. true;
}

abbrev move_input : HostMoveInput
move_input = record {
  node_uuid = node_id;
  target_host_uuid = target_id;
  expected_profile = host_id;
  expected_inbounds = host_id ∷ [];
  password = "password";
}

-- On an `unfolding` line: the whole move computes.
unfoldable run_move : ℕ
unfolding run_effects valid_uuid valid_panel_id profile_from_host is_blank trim_space sort_strings
    addr_beq unmap find_host with_execution with_slot ask_nodes ask_hosts ask_certificate public_ip
    expect managed_job find_job latest_job update_profile move_ip switch_sni set_host_binding
    canonical_uuids node_fingerprint same_profile hosts_of matching_hosts find_node previous_of
    rollback fail apply_move node_address node_by_uuid choose_hosts plan_move move_host begin_move
run_move = 0

abbrev moved : World
moved = (move_node_to_host std panel config services move_input begun).1

abbrev move_result : HostMoveResult
move_result = record {
  node_name = "node";
  previous_host = "host";
  target_host = "host";
  target_address = "example.org";
  managed = false;
  dns_updated = true;
}

-- The balancer refuses the move.
abbrev no_dns : Services
no_dns = record services { move_ip = λ _ _ _ _. none }

same_profile_example :
    (same_profile (node_fingerprint running_node) (node_fingerprint node) ≡ true) ↔ (
      (trim_space (node_fingerprint running_node).profile
        ≡ trim_space (node_fingerprint node).profile)
      × Perm
          (trimmed_ids (node_fingerprint running_node).inbounds)
          (trimmed_ids (node_fingerprint node).inbounds))
same_profile_example = same_profile_iff (node_fingerprint running_node) (node_fingerprint node)

abbrev zone_named : String → ZoneMatch
zone_named name = record {
  domain = "example.com";
  zone_name = name;
  fqdn = name;
  zone = record { name = name; ttl = 60; proxied = false; ips = none; nodes = none };
}

-- The second of two zones cannot be changed.
abbrev two_zones : Services
two_zones = record services {
  find_zones = λ _ _. some (zone_named "a" ∷ zone_named "b" ∷ []);
  replace_ip = λ _ fqdn _ _. if fqdn == "a" then some true else none;
}

abbrev ip_input : IpChangeInput
ip_input = record { node_uuid = node_id; expected_ip = v4 1; new_ip = v4 2 }

abbrev with_zone : Services
with_zone = record services { find_zone = λ _ sni. some (zone_named sni) }

abbrev sync_input : DnsSyncInput
sync_input = record { node_uuid = node_id; expected_ip = v4 1 }

sync_node_dns_example :
    all_allowed (v4 1) (sync_node_dns std panel config with_zone sync_input begun).1.events ≡ true
unfolding unmap
sync_node_dns_example = sync_node_dns-all_allowed std panel config with_zone sync_input begun refl

-- An advanced zone that holds neither address.
abbrev advanced_zone : ZoneMatch
advanced_zone = record {
  domain = "example.com";
  zone_name = "a";
  fqdn = "a.example.com";
  zone = record {
    name = "a";
    ttl = 60;
    proxied = false;
    ips = none;
    nodes = some (record { ip = "10.0.0.2"; address = "10.0.0.1" } ∷ []);
  };
}

can_sync_example :
    ((change_dns services std advanced_zone (v4 3) (v4 1) begun).0 ≡ err (plain dns_target_unknown))
    ↔ (can_sync std advanced_zone (v4 3) (v4 1) ≡ false)
can_sync_example = can_sync-change_dns std services advanced_zone (v4 3) (v4 1) begun
