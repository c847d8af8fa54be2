-- ===== src/Dns/Wire.antt =====
-- The JSON of the balancer read into the data of the client, and the body of a PATCH:
-- internal/dnsbalancer/wire.go. A JSON field that may be absent is an option.
use remnanode_setup_bot.Base.{ℕ, String}
use remnanode_setup_bot.Base.{Bool, true, ◌&&◌, ◌||◌, Option, none, some, List, [], ◌∷◌}
use remnanode_setup_bot.Base.{
  ltb, ◌==◌, nat_comparable, string_comparable, if◌then◌else◌, is_none, is_some,
}
use remnanode_setup_bot.Base.{Result, ok, err, trim_space, is_blank}
use remnanode_setup_bot.Base.Net.{Addr, addr_comparable, Std}
use remnanode_setup_bot.Dns.Models.{Error, invalid_response, ZoneNode, Zone, Domain, and_then}
use remnanode_setup_bot.Dns.Matching.{normalize_fqdn}

pub record ZoneNodeWire : Type 0 where
  pub ip : Option String
  pub address : Option String

pub record ZoneWire : Type 0 where
  pub name : Option String
  pub ttl : Option ℕ
  pub proxied : Option Bool
  pub ips : Option (List String)
  pub nodes : Option (List ZoneNodeWire)

pub record DomainWire : Type 0 where
  pub domain : Option String
  pub zones : Option (List ZoneWire)

pub record PatchZoneRequest : Type 0 where
  pub ips : Option (List String)
  pub nodes : Option (List ZoneNode)

-- The JSON object that is sent: one of the two formats, never both.
pub data Body : Type 0 where
  nodes_body : List ZoneNode → Body
  ips_body : Option (List String) → Body

-- `patchZoneRequest.MarshalJSON`.
unfoldable pub marshal : PatchZoneRequest → Body
marshal r = elim (r.nodes) [ some nodes ↦ nodes_body nodes | none ↦ ips_body r.ips ]

module _ (std : Std) where
  -- The text of an entry, as an address.
  unfoldable pub entry_addr : String → Option Addr
  entry_addr text = std.parse_addr (trim_space text)

  all_parse : List String → Bool
  all_parse [] = true
  all_parse (ip ∷ ips) = is_some (entry_addr ip) && all_parse ips

  abbrev or_default : String → Option String → String
  or_default ip none = ip
  or_default ip (some address) = address

  node_model : ZoneNodeWire → Result Error ZoneNode
  node_model item = elim (item.ip) [
    | none ↦ err invalid_response
    | some ip ↦
        if is_none (entry_addr ip)
        then err invalid_response
        else ok (record { ip = ip; address = or_default ip item.address })
  ]

  nodes_model : List ZoneNodeWire → Result Error (List ZoneNode)
  nodes_model [] = ok []
  nodes_model (item ∷ rest) =
      and_then (node_model item) (λ node. and_then (nodes_model rest) (λ nodes. ok (node ∷ nodes)))

  ips_model : Option (List String) → Result Error (Option (List String))
  ips_model none = ok none
  ips_model (some ips) = if all_parse ips then ok (some ips) else err invalid_response

  zone_nodes_model : Option (List ZoneNodeWire) → Result Error (Option (List ZoneNode))
  zone_nodes_model none = ok none
  zone_nodes_model (some nodes) = and_then (nodes_model nodes) (λ models. ok (some models))

  zone_fields : Option String → Option ℕ → Option Bool → ZoneWire → Result Error Zone
  zone_fields (some name) (some ttl) (some proxied) z =
      if is_blank name || ltb ttl 1 || (is_none z.ips && is_none z.nodes)
      then err invalid_response
      else and_then (ips_model z.ips) (λ ips. and_then (zone_nodes_model z.nodes) (λ nodes.
        ok (record { name = name; ttl = ttl; proxied = proxied; ips = ips; nodes = nodes })))
  zone_fields _ _ _ z = err invalid_response

  -- `zoneWire.model`.
  unfoldable pub zone_model : ZoneWire → Result Error Zone
  unfolding zone_fields ips_model zone_nodes_model nodes_model node_model all_parse entry_addr
  zone_model z = zone_fields z.name z.ttl z.proxied z

  zones_model : List ZoneWire → Result Error (List Zone)
  zones_model [] = ok []
  zones_model (item ∷ rest) =
      and_then (zone_model item) (λ zone. and_then (zones_model rest) (λ zones. ok (zone ∷ zones)))

  domain_fields : Option String → Option (List ZoneWire) → Result Error Domain
  domain_fields (some name) (some zones) =
      if normalize_fqdn std name == ""
      then err invalid_response
      else and_then (zones_model zones) (λ models. ok (record { name = name; zones = models }))
  domain_fields _ _ = err invalid_response

  -- `domainWire.model`.
  unfoldable pub domain_model : DomainWire → Result Error Domain
  unfolding domain_fields zones_model zone_model
  domain_model d = domain_fields d.domain d.zones
