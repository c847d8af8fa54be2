-- ===== src/Remnawave.antt =====
-- The Remnawave panel's data and the mapping from a Host to a Node: internal/remnawave/models.go and
-- validation.go.
use remnanode_setup_bot.Base.{ℕ, suc, String}
use remnanode_setup_bot.Base.{Bool, false, not, ◌&&◌, ◌||◌, Option, none, some, List, [], ◌∷◌}
use remnanode_setup_bot.Base.{leb, ◌==◌, nat_comparable, string_comparable, if◌then◌else◌}
use remnanode_setup_bot.Base.{trim_space, is_blank}
use remnanode_setup_bot.Base.Net.{Addr, is_valid, addr_comparable, Std}
use remnanode_setup_bot.Repository.{valid_uuid}

pub record HostInbound : Type 0 where
  pub profile_uuid : Option String
  pub inbound_uuid : Option String

pub record Host : Type 0 where
  pub uuid : String
  pub remark : String
  pub address : String
  pub is_disabled : Bool
  pub inbound : HostInbound

pub record DeploymentProfile : Type 0 where
  pub sni_domain : String
  pub profile_uuid : String
  pub inbounds : List String

-- A Node, with the state that polling reads and the profile that it runs.
pub record Node : Type 0 where
  pub uuid : String
  pub name : String
  pub address : String
  pub is_connected : Bool
  pub is_connecting : Bool
  pub active_profile : Option String
  pub active_inbounds : List String

abbrev given : Option String → Bool
given none = false
given (some text) = not (is_blank text)

abbrev trimmed : Option String → String
trimmed none = ""
trimmed (some text) = trim_space text

-- `DeploymentProfileFromHost`; its one kind of error is `none`.
unfoldable pub profile_from_host : Host → Option DeploymentProfile
profile_from_host host =
    let profile = trimmed host.inbound.profile_uuid in
    let inbound = trimmed host.inbound.inbound_uuid in
    if trim_space host.address == ""
    then none
    else if not (given host.inbound.profile_uuid)
    then none
    else if not (given host.inbound.inbound_uuid)
    then none
    else if not (valid_uuid profile) || not (valid_uuid inbound)
    then none
    else some (record {
      sni_domain = trim_space host.address;
      profile_uuid = profile;
      inbounds = inbound ∷ [];
    })

-- Which uniqueness checks failed: `DuplicateError`.
pub record Duplicate : Type 0 where
  pub name : Bool
  pub address : Bool

pub data CheckError : Type 0 where
  invalid_input : CheckError
  duplicate : Duplicate → CheckError

char_count : String → ℕ
char_count String.[] = 0
char_count (String.◌∷◌ c s) = suc (char_count s)

-- `ValidateNodeName`: three to thirty characters once trimmed.
unfoldable pub valid_node_name : String → Bool
unfolding char_count
valid_node_name name = let n = char_count (trim_space name) in leb 3 n && leb n 30

module _ (std : Std) where
  abbrev same_address : Addr → Option Addr → Bool
  same_address address none = false
  same_address address (some a) = a == address

  -- The loop of `CheckNodeDuplicates`.
  unfoldable pub duplicates : String → Addr → List Node → Duplicate
  duplicates name address [] = record { name = false; address = false }
  duplicates name address (node ∷ nodes) =
      let rest = duplicates name address nodes in
      record {
        name = trim_space node.name == name || rest.name;
        address = same_address address (std.parse_addr (trim_space node.address)) || rest.address;
      }

  -- `CheckNodeDuplicates`.
  unfoldable pub check_node_duplicates : List Node → String → Addr → Option CheckError
  unfolding duplicates
  check_node_duplicates nodes name address =
      let trimmed = trim_space name in
      let found = duplicates trimmed address nodes in
      if not (valid_node_name trimmed) || not (is_valid address)
      then some invalid_input
      else if found.name || found.address
      then some (duplicate found)
      else none
