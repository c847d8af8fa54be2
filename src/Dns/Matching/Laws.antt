-- ===== src/Dns/Matching/Laws.antt =====
-- What LocateZone finds.
use remnanode_setup_bot.Base.{String, ◌≡◌, refl}
use remnanode_setup_bot.Base.{false, Option, none, some, List, [], ◌∷◌, ◌++◌, arith}
use remnanode_setup_bot.Base.{◌==◌, nat_comparable, string_comparable, if◌then◌else◌}
use remnanode_setup_bot.Base.{Result, ok, err}
use remnanode_setup_bot.Base.Net.{addr_comparable, Std}
use remnanode_setup_bot.Dns.Models.{
  Error, not_found, ambiguous_zone, Zone, Domain, ZoneMatch, and_then,
}
use mathlib.Core.Path.{fun_ext}
use remnanode_setup_bot.Dns.Matching.{
  normalize_fqdn, zone_fqdn, locate_step, locate_zones, locate_domains, the_match, locate_zone,
}

abbrev pub the_only : List ZoneMatch → Result Error ZoneMatch
the_only [] = err not_found
the_only (found ∷ []) = ok found
the_only (_ ∷ _ ∷ _) = err ambiguous_zone

-- The result of the loop, from what is found before and the matches that follow.
abbrev joined : Option ZoneMatch → List ZoneMatch → Result Error (Option ZoneMatch)
joined found [] = ok found
joined none (m ∷ []) = ok (some m)
joined none (_ ∷ _ ∷ _) = err ambiguous_zone
joined (some _) (_ ∷ _) = err ambiguous_zone

abbrev rejoin : List ZoneMatch → Option ZoneMatch → Result Error (Option ZoneMatch)
rejoin ms found = joined found ms

joined-append :
    (found : Option ZoneMatch) (xs ys : List ZoneMatch)
    → and_then (joined found xs) (rejoin ys) ≡ joined found (xs ++ ys)
joined-append none [] ys = refl
joined-append (some m) [] ys = refl
joined-append none (x ∷ []) [] = refl
joined-append none (x ∷ []) (_ ∷ _) = refl
joined-append none (_ ∷ _ ∷ _) ys = refl
joined-append (some m) (_ ∷ _) ys = refl

the_match-joined : (ms : List ZoneMatch) → and_then (joined none ms) the_match ≡ the_only ms
the_match-joined [] = refl
the_match-joined (m ∷ []) = refl
the_match-joined (_ ∷ _ ∷ _) = refl

module _ (std : Std) where
  abbrev pub match_of : Domain → Zone → ZoneMatch
  match_of domain zone = record {
    domain = domain.name;
    zone_name = zone.name;
    fqdn = zone_fqdn std domain.name zone.name;
    zone = zone;
  }

  -- Every zone whose complete name is the one wanted, in the order of the configuration.
  unfoldable pub matches_in : String → Domain → List Zone → List ZoneMatch
  matches_in target domain [] = []
  matches_in target domain (zone ∷ zones) =
      let others = matches_in target domain zones in
      if zone_fqdn std domain.name zone.name == target
      then match_of domain zone ∷ others
      else others

  unfoldable pub matches : String → List Domain → List ZoneMatch
  matches target [] = []
  matches target (domain ∷ domains) =
      matches_in target domain domain.zones ++ matches target domains

  locate_zones-joined :
      (target : String) (domain : Domain) (zones : List Zone) (found : Option ZoneMatch)
      → locate_zones std target domain zones found ≡ joined found (matches_in target domain zones)
  unfolding locate_zones locate_step matches_in
  locate_zones-joined target domain [] found = refl
  locate_zones-joined target domain (zone ∷ zones) found = ground (
    arith,
    locate_zones-joined target domain zones found,
    locate_zones-joined target domain zones (some (match_of domain zone)),
  )

  locate_domains-joined :
      (target : String) (domains : List Domain) (found : Option ZoneMatch)
      → locate_domains std target domains found ≡ joined found (matches target domains)
  unfolding locate_domains matches
  locate_domains-joined target [] found = refl
  locate_domains-joined target (domain ∷ domains) found =
      rw (locate_zones-joined target domain domain.zones found) (
        rw (fun_ext (locate_domains-joined target domains))
          (joined-append found (matches_in target domain domain.zones) (matches target domains)))

  -- A name that is not empty once normalised is located exactly if one zone of the configuration has
  -- it as its complete name; with none it is not found, and with more than one it is ambiguous.
  pub locate_zone-the_only :
      (domains : List Domain) (fqdn : String)
      → (normalize_fqdn std fqdn == "") ≡ false
      → locate_zone std domains fqdn ≡ the_only (matches (normalize_fqdn std fqdn) domains)
  unfolding locate_zone
  locate_zone-the_only domains fqdn h =
      rw (h, locate_domains-joined (normalize_fqdn std fqdn) domains none) (the_match-joined _)
