-- ===== src/NodeChanges/HostMove.antt =====
-- The changes of a move of a Node to another Host: the tail of `MoveNodeToHost`, and `rollbackNodeHostMove` of
-- internal/orchestrator/node_host_move.go.
pub mod Restored
pub mod Applied
pub mod Request
pub mod Planned
pub mod Checked
pub mod Outcome
use remnanode_setup_bot.Base.{
  String, Bool, true, false, not, ◌||◌, Option, none, some, List, [], ◌∷◌, if◌then◌else◌, ◌==◌,
  string_comparable, Result, ok, err, ◌>>=◌, ◌>>◌, return, throw, trim_space, is_some,
}
use Prim.Native.String.{◌++◌ as ◌<>◌}
use remnanode_setup_bot.Base.Net.{Addr, unmap, Std}
use remnanode_setup_bot.Deployment.{Deployment}
use remnanode_setup_bot.Remnawave.{Host, DeploymentProfile, Node, profile_from_host}
use remnanode_setup_bot.Orchestrator.World.{
  CertificateFailure, Material, SniSwitch, invalid_input, host_unavailable, certificate_unavailable,
  dns_update_failed, persistence_failed, node_not_found, node_host_move_failed, node_state_changed,
  node_host_unchanged, node_sni_switch_failed, Kind, plain, Config, Outside, Answer, refused,
  unchanged, changed, Run,
}
use remnanode_setup_bot.Orchestrator.Calls.{ask_nodes, ask_hosts, ask_certificate, unless}
use remnanode_setup_bot.Orchestrator.Nodes.{Selected, find_host}
use remnanode_setup_bot.Orchestrator.Prepare.{public_ip}
use remnanode_setup_bot.Orchestrator.Stages.{with_execution, with_slot}
use remnanode_setup_bot.NodeChanges.Fingerprint.{
  Fingerprint, canonical_uuids, node_fingerprint, same_profile, of_profile, matching_hosts,
}
use remnanode_setup_bot.NodeChanges.Calls.{
  Services, expect, managed_job, set_host_binding, update_profile, move_ip, switch_sni,
}

-- `NodeHostMoveResult`.
pub record HostMoveResult : Type 0 where
  pub node_name : String
  pub previous_host : String
  pub target_host : String
  pub target_address : String
  pub managed : Bool
  pub dns_updated : Bool

-- What a move works with once all is checked.
pub record Plan : Type 0 where
  pub node : Node
  pub previous : Selected
  pub target : Selected
  pub address : Addr
  pub job : Option Deployment
  pub password : String
  pub previous_certificate : Material
  pub target_certificate : Material

module _ (services : Services) (p : Plan) where
  -- The two switches of the server.
  abbrev pub forward : SniSwitch
  forward = record {
    address = p.address;
    previous_sni = p.previous.profile.sni_domain;
    target_sni = p.target.profile.sni_domain;
    password = p.password;
    previous_certificate = p.previous_certificate;
    certificate = p.target_certificate;
  }

  abbrev pub backward : String → SniSwitch
  backward sni = record {
    address = p.address;
    previous_sni = p.target.profile.sni_domain;
    target_sni = sni;
    password = p.password;
    previous_certificate = p.target_certificate;
    certificate = p.previous_certificate;
  }

  -- `rollbackNodeHostMove`, once the Host is mapped again.
  abbrev pub restore : Bool → Option DeploymentProfile → Run (Unit {0})
  restore dns_changed none = return tt
  restore dns_changed (some profile) = do
    unless (not dns_changed) (do
      _ ← move_ip services p.target.profile.sni_domain profile.sni_domain p.address
      return tt)
    _ ← switch_sni services (backward profile.sni_domain)
    return tt

  -- `rollbackNodeHostMove`.
  unfoldable pub rollback : Bool → Run (Unit {0})
  rollback dns_changed = do
    _ ← update_profile services p.node.uuid p.previous.host
    restore dns_changed (profile_from_host p.previous.host)

  -- A failure after the switch.
  unfoldable pub fail : {A : Type 0} → Bool → Kind → Run A
  unfolding rollback
  fail dns_changed kind = rollback dns_changed >> throw (plain kind)

  abbrev pub on_answer : Answer → Run Bool
  on_answer refused = fail false dns_update_failed
  on_answer unchanged = return false
  on_answer changed = return true

  -- The move in DNS; whether something changed.
  abbrev pub move_dns : Bool → Run Bool
  move_dns true = return false
  move_dns false =
      move_ip services p.previous.profile.sni_domain p.target.profile.sni_domain p.address
      >>= on_answer

  abbrev pub on_node : Option Node → Run (Unit {0})
  on_node none = fail false node_host_move_failed
  on_node (some node) =
      if same_profile (node_fingerprint node) (of_profile p.target.profile)
      then return tt
      else fail false node_host_move_failed

module _ (o : Outside) (services : Services) (p : Plan) where
  -- The write of the Host to the job of a managed Node.
  abbrev pub bind_host : Bool → Option Deployment → Run (Unit {0})
  bind_host dns_changed none = return tt
  bind_host dns_changed (some job) = do
    saved ← set_host_binding o job.id (record {
      host_uuid = p.target.host.uuid;
      host_remark = p.target.host.remark;
      sni_domain = p.target.profile.sni_domain;
    })
    if saved then return tt else fail services p dns_changed persistence_failed

  abbrev pub result_of : Config → HostMoveResult
  result_of config = record {
    node_name = p.node.name;
    previous_host = p.previous.host.remark;
    target_host = p.target.host.remark;
    target_address = p.target.profile.sni_domain;
    managed = is_some p.job;
    dns_updated = not config.dns_disabled;
  }

  abbrev pub on_switched : Config → Bool → Run HostMoveResult
  on_switched config false = throw (plain node_sni_switch_failed)
  on_switched config true = do
    update_profile services p.node.uuid p.target.host >>= on_node services p
    dns_changed ← move_dns services p config.dns_disabled
    bind_host dns_changed p.job
    return (result_of config)

  -- The changes, once all is checked.
  unfoldable pub apply_move : Config → Run HostMoveResult
  apply_move config = switch_sni services (forward services p) >>= on_switched config
