-- ===== src/Orchestrator/Nodes.antt =====
-- The checks on the Nodes and Hosts of the panel: selectedHost, checkUnique and recoverableNode of
-- internal/orchestrator/service.go.
pub mod Laws
use remnanode_setup_bot.Base.{String}
use remnanode_setup_bot.Base.{Bool, true, false, not, ◌&&◌, Option, none, some, List, [], ◌∷◌}
use remnanode_setup_bot.Base.{◌==◌, nat_comparable, string_comparable, if◌then◌else◌, is_some}
use remnanode_setup_bot.Base.{Result, ok, err, trim_space}
use remnanode_setup_bot.Base.Net.{Addr, is_valid, unmap, addr_comparable, Std}
use remnanode_setup_bot.Remnawave.{Host, DeploymentProfile, Node, profile_from_host}
use remnanode_setup_bot.Orchestrator.World.{Kind, duplicate_name, duplicate_address, duplicate_both}

-- A Host with what it maps to.
pub record Selected : Type 0 where
  pub host : Host
  pub profile : DeploymentProfile

-- The loop of `selectedHost`: the first Host with the id decides.
unfoldable pub find_host : String → List Host → Option Selected
find_host id [] = none
find_host id (host ∷ hosts) =
    if not (host.uuid == id)
    then find_host id hosts
    else if host.is_disabled
    then none
    else elim (profile_from_host host) [
      | none ↦ none
      | some profile ↦ some (record { host = host; profile = profile })
    ]

abbrev pub conflict : Bool → Bool → Option Kind
conflict true true = some duplicate_both
conflict true false = some duplicate_name
conflict false true = some duplicate_address
conflict false false = none

module _ (std : Std) where
  -- `strings.TrimSpace(node.Name) == strings.TrimSpace(name)`.
  unfoldable pub name_matches : String → Node → Bool
  name_matches name node = trim_space node.name == trim_space name

  abbrev parsed_is : Addr → Option Addr → Bool
  parsed_is address none = false
  parsed_is address (some a) = is_valid a && unmap a == unmap address

  -- `nodeIP.IsValid() && nodeIP.Unmap() == address.Unmap()`.
  unfoldable pub address_matches : Addr → Node → Bool
  address_matches address node = parsed_is address (std.parse_addr (trim_space node.address))

  -- The body of the loop of `checkUnique`.
  unfoldable pub node_conflict : String → Addr → String → Bool → Node → Option Kind
  node_conflict name address own allow_recovery node =
      let n = name_matches name node in
      let a = address_matches address node in
      if not (own == "") && node.uuid == own
      then none
      else if allow_recovery && own == "" && n && a
      then none
      else conflict n a

  -- The loop of `checkUnique`; `none` is success.
  unfoldable pub find_conflict : String → Addr → String → Bool → List Node → Option Kind
  find_conflict name address own allow_recovery [] = none
  find_conflict name address own allow_recovery (node ∷ nodes) =
      let later = find_conflict name address own allow_recovery nodes in
      elim (node_conflict name address own allow_recovery node) [
        | none ↦ later
        | some kind ↦ some kind
      ]

  -- The loop of `recoverableNode`, with the Node recovered before.
  unfoldable pub recover : String → Addr → List Node → Option Node → Result Kind (Option Node)
  recover name address [] recovered = ok recovered
  recover name address (node ∷ nodes) recovered =
      let again = recover name address nodes (some node) in
      let rest = recover name address nodes recovered in
      let n = name_matches name node in
      let a = address_matches address node in
      if n && a
      then if is_some recovered then err duplicate_both else again
      else if n
      then err duplicate_name
      else if a
      then err duplicate_address
      else rest

  -- `recoverableNode`.
  unfoldable pub recoverable_node : List Node → String → Addr → Result Kind (Option Node)
  unfolding recover
  recoverable_node nodes name address = recover name address nodes none
