-- ===== src/NodeChanges/IpChange.antt =====
-- The change of a Node's address: `ReplaceNodeIP` of internal/orchestrator/ip_change.go.
pub mod Restored
pub mod Outcome
use remnanode_setup_bot.Base.{
  ℕ, String, Bool, true, false, not, ◌&&◌, ◌||◌, Option, none, some, List, [], ◌∷◌, if◌then◌else◌,
  ◌==◌, string_comparable, Result, ok, err, ◌>>=◌, ◌>>◌, return, throw, is_blank, trim_space,
  length, is_some,
}
use Prim.Native.String.{◌++◌ as ◌<>◌}
use remnanode_setup_bot.Base.Net.{Addr, is_valid, unmap, addr_comparable, Std}
use remnanode_setup_bot.Deployment.{Deployment}
use remnanode_setup_bot.Remnawave.{Node}
use remnanode_setup_bot.Dns.Models.{ZoneMatch}
use remnanode_setup_bot.Orchestrator.World.{
  invalid_input, persistence_failed, duplicate_address, dns_update_failed, ip_change_failed,
  node_not_found, plain, Kind, Config, Outside, Answer, refused, unchanged, changed, Run,
}
use remnanode_setup_bot.Orchestrator.Calls.{ask_nodes}
use remnanode_setup_bot.Orchestrator.Prepare.{public_ip}
use remnanode_setup_bot.Orchestrator.Stages.{with_execution, with_slot}
use remnanode_setup_bot.NodeChanges.Calls.{
  Services, expect, managed_job, set_target_ip, update_address, find_zones, replace_ip,
}

-- `NodeIPChangeInput`.
pub record IpChangeInput : Type 0 where
  pub node_uuid : String
  pub expected_ip : Addr
  pub new_ip : Addr

-- The message for the operator, as what it tells.
pub data IpChangeResult : Type 0 where
  already : Addr → IpChangeResult
  moved : String → Addr → Addr → ℕ → IpChangeResult

abbrev pub refuses : IpChangeInput → Bool
refuses input =
    is_blank input.node_uuid
    || not (is_valid input.expected_ip)
    || not (is_valid input.new_ip)
    || not (public_ip input.new_ip)

abbrev pub ip_job : IpChangeInput → String
ip_job input = "node-ip:" <> trim_space input.node_uuid

abbrev reads_as : Addr → Option Addr → Bool
reads_as address none = false
reads_as address (some a) = unmap a == address

module _ (std : Std) where
  -- The loop over the Nodes: another Node with the address is refused; the last with the id is taken.
  unfoldable pub select_node : String → Addr → List Node → Option Node → Result Kind (Option Node)
  select_node uuid new_ip [] selected = ok selected
  select_node uuid new_ip (node ∷ nodes) selected =
      let here = select_node uuid new_ip nodes (some node) in
      let other = select_node uuid new_ip nodes selected in
      if node.uuid == uuid
      then here
      else if reads_as new_ip (std.parse_addr (trim_space node.address))
      then err duplicate_address
      else other

  abbrev pub selected_of : Addr → Result Kind (Option Node) → Run Node
  selected_of old_ip (err kind) = throw (plain kind)
  selected_of old_ip (ok none) = throw (plain node_not_found)
  selected_of old_ip (ok (some node)) =
      if reads_as old_ip (std.parse_addr (trim_space node.address))
      then return node
      else throw (plain ip_change_failed)

module _ (services : Services) (uuid : String) (old_ip new_ip : Addr) where
  -- The loop of `rollbackNodeIP`, over the zones from the last changed to the first.
  unfoldable pub restore_zones : List ZoneMatch → Run (Unit {0})
  restore_zones [] = return tt
  restore_zones (zone ∷ zones) = do
    _ ← replace_ip services zone.fqdn new_ip old_ip
    restore_zones zones

  -- `rollbackNodeIP`.
  unfoldable pub rollback : List ZoneMatch → Run (Unit {0})
  unfolding restore_zones
  rollback zones = do restore_zones zones; _ ← update_address services uuid old_ip; return tt

  -- The loop over the zones, with those that it changed so far, the last first.
  abbrev pub on_answer :
      ZoneMatch
      → List ZoneMatch
      → (List ZoneMatch → Run (List ZoneMatch))
      → Answer
      → Run (List ZoneMatch)
  on_answer zone done next refused = rollback done >> throw (plain dns_update_failed)
  on_answer zone done next unchanged = next done
  on_answer zone done next changed = next (zone ∷ done)

  unfoldable pub replace_all : List ZoneMatch → List ZoneMatch → Run (List ZoneMatch)
  replace_all [] done = return done
  replace_all (zone ∷ zones) done =
      replace_ip services zone.fqdn old_ip new_ip >>= on_answer zone done (replace_all zones)

module _ (o : Outside) (services : Services) (old_ip new_ip : Addr) where
  -- The write of the address to the job of a managed Node.
  unfoldable pub save_target : String → List ZoneMatch → Option Deployment → Run (Unit {0})
  save_target uuid zones none = return tt
  save_target uuid zones (some job) = do
    saved ← set_target_ip o job.id new_ip
    if saved
        then return tt
        else rollback services uuid old_ip new_ip zones >> throw (plain persistence_failed)

  -- The changes of the zones and of the job, once the panel has changed.
  abbrev pub on_updated : Node → List ZoneMatch → Option Deployment → Bool → Run IpChangeResult
  on_updated node zones job false = throw (plain ip_change_failed)
  on_updated node zones job true = do
    done ← replace_all services node.uuid old_ip new_ip zones []
    save_target node.uuid done job
    return (moved node.name old_ip new_ip (length zones))

  -- The changes, once all is checked.
  unfoldable pub apply_change : Node → List ZoneMatch → Option Deployment → Run IpChangeResult
  apply_change node zones job =
      update_address services node.uuid new_ip >>= on_updated node zones job

module _ (std : Std) (o : Outside) (config : Config) (services : Services) where
  -- The zones that contain the address, if there is DNS to change.
  unfoldable pub zones_of : Addr → Run (List ZoneMatch)
  zones_of address =
      if config.dns_disabled
      then return []
      else find_zones services address >>= expect dns_update_failed

  -- `ReplaceNodeIP` under its lock and slot.
  unfoldable pub change_ip : String → Addr → Addr → Run IpChangeResult
  change_ip uuid old_ip new_ip = do
    nodes ← ask_nodes o >>= expect ip_change_failed
    node ← selected_of std old_ip (select_node std uuid new_ip nodes none)
    zones ← zones_of old_ip
    job ← managed_job o config node.uuid
    apply_change o services old_ip new_ip node zones job

  -- `ReplaceNodeIP`.
  unfoldable pub replace_node_ip : IpChangeInput → Run IpChangeResult
  replace_node_ip input =
      let old_ip = unmap input.expected_ip in
      let new_ip = unmap input.new_ip in
      if refuses input
      then throw (plain invalid_input)
      else if old_ip == new_ip
      then return (already new_ip)
      else with_execution (ip_job input) (with_slot o (change_ip input.node_uuid old_ip new_ip))
