-- ===== src/Dns/Matching/Named.antt =====
-- A zone that is found has the complete name that was asked for: internal/dnsbalancer/matching.go.
use remnanode_setup_bot.Base.{
  String, ◌≡◌, sym, ◌∙◌, inl, inr, List, [], ◌∷◌, arith, eq_iff, ◌==◌, string_comparable,
  Bool-cases, ok, All, All-append,
}
use remnanode_setup_bot.Base.Net.{Std}
use remnanode_setup_bot.Dns.Models.{Zone, Domain, ZoneMatch}
use remnanode_setup_bot.Dns.Matching.{normalize_fqdn, zone_fqdn, locate_zone}
use remnanode_setup_bot.Dns.Matching.Laws.{the_only, matches_in, matches, locate_zone-the_only}

module _ (std : Std) (target : String) where
  abbrev pub IsNamed : ZoneMatch → Type 0
  IsNamed found = zone_fqdn std found.domain found.zone_name ≡ target

  matches_in-IsNamed :
      (domain : Domain) (zones : List Zone) → All IsNamed (matches_in std target domain zones)
  unfolding matches_in
  matches_in-IsNamed domain [] = tt
  matches_in-IsNamed domain (zone ∷ zones) =
      elim (Bool-cases (zone_fqdn std domain.name zone.name == target)) [
        | inl e ↦ rw e (
          (eq_iff (zone_fqdn std domain.name zone.name) target).0 e,
          matches_in-IsNamed domain zones,
        )
        | inr e ↦ rw e (matches_in-IsNamed domain zones)
      ]

  matches-IsNamed : (domains : List Domain) → All IsNamed (matches std target domains)
  unfolding matches
  matches-IsNamed [] = tt
  matches-IsNamed (domain ∷ domains) =
      All-append IsNamed _ _ (matches_in-IsNamed domain domain.zones) (matches-IsNamed domains)

  the_only-IsNamed :
      (ms : List ZoneMatch) (found : ZoneMatch)
      → All IsNamed ms
      → the_only ms ≡ ok found
      → IsNamed found
  the_only-IsNamed [] found a h = absurd (ground (arith, h))
  the_only-IsNamed (m ∷ []) found (a, _) h = ground (arith, h, a)
  the_only-IsNamed (_ ∷ _ ∷ _) found a h = absurd (ground (arith, h))

module _ (std : Std) where
  pub locate_zone-IsNamed :
      (domains : List Domain) (fqdn : String) (found : ZoneMatch)
      → locate_zone std domains fqdn ≡ ok found
      → IsNamed std (normalize_fqdn std fqdn) found
  unfolding locate_zone
  locate_zone-IsNamed domains fqdn found h = elim (Bool-cases (normalize_fqdn std fqdn == "")) [
    | inl e ↦ absurd (ground (arith, e, h))
    | inr e ↦
        the_only-IsNamed std (normalize_fqdn std fqdn) _ found
          (matches-IsNamed std (normalize_fqdn std fqdn) domains)
          (sym (locate_zone-the_only std domains fqdn e) ∙ h)
  ]
