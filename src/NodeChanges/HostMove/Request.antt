-- ===== src/NodeChanges/HostMove/Request.antt =====
-- A request to move a Node to another Host, up to the changes: the checks of `MoveNodeToHost` in
-- internal/orchestrator/node_host_move.go, and its run.
use remnanode_setup_bot.Base.{
  String, Bool, not, ◌||◌, Option, none, some, List, [], ◌∷◌, if◌then◌else◌, ◌==◌,
  string_comparable, Result, ok, err, ◌>>=◌, ◌>>◌, return, throw, trim_space,
}
use Prim.Native.String.{◌++◌ as ◌<>◌}
use remnanode_setup_bot.Base.Net.{Addr, unmap, Std}
use remnanode_setup_bot.Remnawave.{Host, DeploymentProfile, Node, profile_from_host}
use remnanode_setup_bot.Orchestrator.World.{
  CertificateFailure, Material, invalid_input, host_unavailable, certificate_unavailable,
  node_not_found, node_host_move_failed, node_state_changed, node_host_unchanged, plain, Config,
  Outside, Run,
}
use remnanode_setup_bot.Orchestrator.Calls.{ask_nodes, ask_hosts, ask_certificate, unless}
use remnanode_setup_bot.Orchestrator.Nodes.{Selected, find_host}
use remnanode_setup_bot.Orchestrator.Prepare.{public_ip}
use remnanode_setup_bot.Orchestrator.Stages.{with_execution, with_slot}
use remnanode_setup_bot.NodeChanges.Fingerprint.{
  Fingerprint, canonical_uuids, node_fingerprint, same_profile, of_profile, matching_hosts,
}
use remnanode_setup_bot.NodeChanges.Calls.{Services, expect, managed_job}
use remnanode_setup_bot.NodeChanges.HostMove.{HostMoveResult, Plan, apply_move}

-- `NodeHostMoveInput`.
pub record HostMoveInput : Type 0 where
  pub node_uuid : String
  pub target_host_uuid : String
  pub expected_profile : String
  pub expected_inbounds : List String
  pub password : String

-- A Node, the Host that it runs and the Host that it is to run.
pub record Choice : Type 0 where
  pub node : Node
  pub previous : Selected
  pub target : Selected

-- The loop of `nodeByUUID`.
unfoldable pub find_node : String → List Node → Option Node
find_node uuid [] = none
find_node uuid (node ∷ nodes) = if node.uuid == uuid then some node else find_node uuid nodes

abbrev pub only : List Host → Option Host
only (host ∷ []) = some host
only _ = none

abbrev pub selected_of : Host → Option DeploymentProfile → Option Selected
selected_of host none = none
selected_of host (some profile) = some (record { host = host; profile = profile })

-- The one Host that the Node runs, with its profile.
unfoldable pub previous_of : Option Host → Option Selected
previous_of none = none
previous_of (some host) = selected_of host (profile_from_host host)

abbrev pub issued : Result CertificateFailure Material → Run Material
issued (ok material) = return material
issued (err _) = throw (plain certificate_unavailable)

module _ (std : Std) where
  -- `nodeAddress`.
  abbrev pub public_of : Option Addr → Option Addr
  public_of none = none
  public_of (some address) = if public_ip address then some (unmap address) else none

  unfoldable pub node_address : String → Option Addr
  node_address text = public_of (std.parse_addr (trim_space text))

module _ (std : Std) (o : Outside) (config : Config) (services : Services) where
  -- `nodeByUUID`.
  unfoldable pub node_by_uuid : String → Run Node
  unfolding find_node
  node_by_uuid uuid = do
    nodes ← ask_nodes o >>= expect node_host_move_failed
    expect node_not_found (find_node uuid nodes)

  abbrev pub expected : HostMoveInput → Fingerprint
  expected input = record {
    profile = trim_space input.expected_profile;
    inbounds = canonical_uuids input.expected_inbounds;
  }

  abbrev pub is_expected : HostMoveInput → Node → Bool
  is_expected input node = same_profile (node_fingerprint node) (expected input)

  abbrev pub runs_already : Node → Selected → Bool
  runs_already node target = same_profile (node_fingerprint node) (of_profile target.profile)

  abbrev pub same_sni : Selected → Selected → Bool
  same_sni previous target = std.equal_fold previous.profile.sni_domain target.profile.sni_domain

  -- `MoveNodeToHost` up to the choice of the Hosts.
  unfoldable pub choose_hosts : HostMoveInput → Run Choice
  choose_hosts input = do
    node ← node_by_uuid input.node_uuid
    unless (is_expected input node) (throw (plain node_state_changed))
    hosts ← ask_hosts o >>= expect node_host_move_failed
    target ← expect host_unavailable (find_host input.target_host_uuid hosts)
    unless (not (runs_already node target)) (throw (plain node_host_unchanged))
    previous ← expect node_host_move_failed (previous_of (only (matching_hosts node hosts)))
    unless (not (same_sni previous target)) (throw (plain node_host_move_failed))
    return (record { node = node; previous = previous; target = target })

  -- `MoveNodeToHost` from there to the first change.
  unfoldable pub plan_move : HostMoveInput → Choice → Run Plan
  plan_move input choice = do
    address ← expect node_host_move_failed (node_address std choice.node.address)
    job ← managed_job o config choice.node.uuid
    previous_certificate ← ask_certificate o choice.previous.profile.sni_domain >>= issued
    target_certificate ← ask_certificate o choice.target.profile.sni_domain >>= issued
    return (record {
      node = choice.node;
      previous = choice.previous;
      target = choice.target;
      address = address;
      job = job;
      password = input.password;
      previous_certificate = previous_certificate;
      target_certificate = target_certificate;
    })

  -- `MoveNodeToHost` under its lock and slot.
  unfoldable pub move_host : HostMoveInput → Run HostMoveResult
  unfolding choose_hosts plan_move apply_move
  move_host input = do
    choice ← choose_hosts input
    plan ← plan_move input choice
    apply_move o services plan config

  abbrev pub trimmed_input : HostMoveInput → HostMoveInput
  trimmed_input input = record input {
    node_uuid = trim_space input.node_uuid;
    target_host_uuid = trim_space input.target_host_uuid;
  }

  abbrev pub refuses : HostMoveInput → Bool
  refuses input =
      input.node_uuid == ""
      || input.target_host_uuid == ""
      || input.password == ""
      || not services.has_switcher

  abbrev pub move_job : HostMoveInput → String
  move_job input = "node-host:" <> input.node_uuid

  unfoldable pub begin_move : HostMoveInput → Run HostMoveResult
  unfolding move_host
  begin_move input =
      if refuses input
      then throw (plain invalid_input)
      else with_execution (move_job input) (with_slot o (move_host input))

  -- `MoveNodeToHost`.
  unfoldable pub move_node_to_host : HostMoveInput → Run HostMoveResult
  unfolding begin_move
  move_node_to_host input = begin_move (trimmed_input input)
