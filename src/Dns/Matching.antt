-- ===== src/Dns/Matching.antt =====
-- How a zone is found by its complete name: internal/dnsbalancer/matching.go.
pub mod Laws
pub mod Named
use remnanode_setup_bot.Base.{String}
use remnanode_setup_bot.Base.{not, ◌||◌, Option, none, some, List, [], ◌∷◌}
use remnanode_setup_bot.Base.{◌==◌, nat_comparable, string_comparable, if◌then◌else◌, is_some}
use remnanode_setup_bot.Base.{Result, ok, err, trim_space, trim_dot}
use remnanode_setup_bot.Base.Net.{addr_comparable, Std}
use remnanode_setup_bot.Dns.Models.{
  Error, not_found, ambiguous_zone, invalid_input, Zone, Domain, ZoneMatch, and_then,
}
use Prim.Native.String.{◌++◌ as ◌<>◌}

abbrev the_match : Option ZoneMatch → Result Error ZoneMatch
the_match none = err not_found
the_match (some found) = ok found

module _ (std : Std) where
  -- `normalizeFQDN`.
  unfoldable pub normalize_fqdn : String → String
  normalize_fqdn value = std.to_lower (trim_dot (trim_space value))

  -- `zoneFQDN`.
  unfoldable pub zone_fqdn : String → String → String
  zone_fqdn domain zone =
      let d = normalize_fqdn domain in
      let z = normalize_fqdn zone in
      if z == "@" then d else if d == "" || z == "" then "" else z <> "." <> d

  -- The body of the loop over the zones of one domain.
  locate_step : String → Domain → Option ZoneMatch → Zone → Result Error (Option ZoneMatch)
  locate_step target domain found zone =
      let candidate = zone_fqdn domain.name zone.name in
      if not (candidate == target)
      then ok found
      else if is_some found
      then err ambiguous_zone
      else ok (
          some
            (record { domain = domain.name; zone_name = zone.name; fqdn = candidate; zone = zone }))

  locate_zones : String → Domain → List Zone → Option ZoneMatch → Result Error (Option ZoneMatch)
  locate_zones target domain [] found = ok found
  locate_zones target domain (zone ∷ zones) found =
      and_then (locate_step target domain found zone) (locate_zones target domain zones)

  locate_domains : String → List Domain → Option ZoneMatch → Result Error (Option ZoneMatch)
  locate_domains target [] found = ok found
  locate_domains target (domain ∷ domains) found =
      and_then (locate_zones target domain domain.zones found) (locate_domains target domains)

  -- `LocateZone`.
  unfoldable pub locate_zone : List Domain → String → Result Error ZoneMatch
  unfolding locate_domains locate_zones locate_step
  locate_zone domains fqdn =
      let target = normalize_fqdn fqdn in
      if target == ""
      then err invalid_input
      else and_then (locate_domains target domains none) the_match
