-- ===== src/Tests/Dns.antt =====
-- A balancer with two zones, and the theorems on the client of internal/dnsbalancer at it.
use remnanode_setup_bot.Base.{ok}
use remnanode_setup_bot.Base.{String, ◌≡◌, refl}
use remnanode_setup_bot.Base.{
  true, false, not, ◌&&◌, ◌||◌, Option, none, some, List, [], ◌∷◌, arith,
}
use remnanode_setup_bot.Base.{
  ◌==◌, nat_comparable, string_comparable, if◌then◌else◌, Bool-cases, inl, inr,
}
use remnanode_setup_bot.Base.{run_effects, trim_space}
use remnanode_setup_bot.Base.Net.{
  addr_comparable, addr_beq, Addr, v4, v4_in_6, unmap, Std, IsLawful,
}
use mathlib.Core.Path.{subst}
use mathlib.Core.Logic.{◌⊎◌}
use remnanode_setup_bot.Dns.Models.{Zone, ZoneMatch, http_error}
use remnanode_setup_bot.Dns.Wire.{marshal, ZoneNodeWire, ZoneWire, DomainWire, ips_body}
use remnanode_setup_bot.Dns.Zones.{
  holds, scan, scan_both, keep_ips, Removal, Addition, zone_without_ip, zone_with_ip, split_ips,
  zone_snapshot_request,
}
use remnanode_setup_bot.Dns.Client.{
  Remote, reply, World, patched, add_ip_found, replace_ip_found, patch_zone, move_ip_found,
}
use remnanode_setup_bot.Dns.Matching.{normalize_fqdn, locate_zone}
use remnanode_setup_bot.Dns.Matching.Laws.{the_only, matches, locate_zone-the_only}
use remnanode_setup_bot.Dns.Zones.Move.{request_entries}
use remnanode_setup_bot.Base.{trim_dot}
use remnanode_setup_bot.Dns.Client.AddIp.{add_ip_found_effect}
use remnanode_setup_bot.Dns.Client.ReplaceIp.{replace_ip_found_effect}
use remnanode_setup_bot.Dns.Client.MoveIp.{
  requests_move, move_ip_found_effect, move_ip_found_failed, move_events, sent, snapshot_body,
}
use remnanode_setup_bot.Dns.Client.Locks.{Locks}

abbrev pub parse : String → Option Addr
parse text =
    if text == "10.0.0.1"
    then some (v4 1)
    else if text == "10.0.0.2"
    then some (v4 2)
    else if text == "::ffff:10.0.0.1"
    then some (v4_in_6 1 "")
    else none

abbrev pub show : Addr → String
show (v4 n) = if n == 1 then "10.0.0.1" else "10.0.0.2"
show _ = "::ffff:10.0.0.1"

abbrev pub std : Std
std = record {
  to_lower = λ text. text;
  equal_fold = λ s t. s == t;
  parse_addr = parse;
  addr_string = show;
}

abbrev ReadsBack : Addr → Type 0
ReadsBack a = parse (trim_space (show (unmap a))) ≡ some (unmap a)

parse-show : (text : String) (a : Addr) → parse text ≡ some a → ReadsBack a
unfolding trim_space unmap
parse-show text a h = elim (Bool-cases (text == "10.0.0.1")) [
  | inl e ↦ subst ReadsBack {x = v4 1} (ground (arith, e)) refl
  | inr e ↦ elim (Bool-cases (text == "10.0.0.2")) [
    | inl f ↦ subst ReadsBack {x = v4 2} (ground (arith, e, f)) refl
    | inr f ↦ elim (Bool-cases (text == "::ffff:10.0.0.1")) [
      | inl g ↦ subst ReadsBack {x = v4_in_6 1 ""} (ground (arith, e, f, g)) refl
      | inr g ↦ absurd (ground (arith, e, f, g))
    ]
  ]
]

std-IsLawful : IsLawful std trim_space
std-IsLawful = record { parse-print = λ text a h. parse-show (trim_space text) a h }

-- A reply with two zones in the simple format, and one in the advanced.
abbrev simple : String → List String → ZoneWire
simple name ips = record {
  name = some name;
  ttl = some 60;
  proxied = some false;
  ips = some ips;
  nodes = none;
}

abbrev advanced : String → List ZoneNodeWire → ZoneWire
advanced name nodes = record {
  name = some name;
  ttl = some 60;
  proxied = some false;
  ips = none;
  nodes = some nodes;
}

abbrev one : ZoneNodeWire
one = record { ip = some "10.0.0.1"; address = none }

abbrev configuration : List DomainWire
configuration =
    record {
      domain = some "example.com";
      zones = some (
          simple "a" ("10.0.0.1" ∷ [])
          ∷ simple "b" ("10.0.0.2" ∷ [])
          ∷ advanced "c" (one ∷ [])
          ∷ advanced "d" []
          ∷ []);
    }
    ∷ []

-- Every PATCH is accepted but those of one zone.
abbrev remote_but : String → Remote
remote_but refused = record {
  domains = λ _. reply 200 (some (some configuration));
  patch = λ _ _ zone _. if zone == refused then reply 500 none else reply 200 (some (some "ok"));
  lock = λ _ _. true;
}

abbrev remote : Remote
remote = remote_but ""

abbrev begun : World
begun = record { tick = 0; events = [] }

abbrev simple_zone : String → List String → ZoneMatch
simple_zone name ips = record {
  domain = "example.com";
  zone_name = name;
  fqdn = name;
  zone = record { name = name; ttl = 60; proxied = false; ips = some ips; nodes = none };
}

abbrev zone_a : ZoneMatch
zone_a = simple_zone "a" ("10.0.0.1" ∷ [])

abbrev zone_b : ZoneMatch
zone_b = simple_zone "b" ("10.0.0.2" ∷ [])

abbrev zone_c : ZoneMatch
zone_c = record {
  domain = "example.com";
  zone_name = "c";
  fqdn = "c.example.com";
  zone = record {
    name = "c";
    ttl = 60;
    proxied = false;
    ips = none;
    nodes = some (record { ip = "10.0.0.1"; address = "vps" } ∷ []);
  };
}

-- The address of `a` is added to `b`.
add_ip_example :
    (true ≡ not (holds std (v4 1) ("10.0.0.2" ∷ []) || holds std (v4 1) []))
    × (holds std (v4 2) ("10.0.0.2" ∷ "10.0.0.1" ∷ [])
        ≡ (holds std (v4 2) ("10.0.0.2" ∷ []) || (true && v4 2 == v4 1)))
    × ((add_ip_found std remote zone_b (v4 1) begun).1.events
        ≡ patched "example.com" "b" (ips_body (some ("10.0.0.2" ∷ "10.0.0.1" ∷ []))) ∷ [])
unfolding add_ip_found scan trim_space unmap addr_beq run_effects patch_zone
add_ip_example =
    add_ip_found_effect std std-IsLawful remote zone_b (v4 1) (v4 2) begun refl refl refl

-- In `b` one address takes the place of the other.
replace_ip_example :
    (true ≡ holds std (v4 2) ("10.0.0.2" ∷ []))
    × (holds std (v4 2) ("10.0.0.1" ∷ [])
        ≡ (v4 2 == v4 1 || (not (v4 2 == v4 2) && holds std (v4 2) ("10.0.0.2" ∷ []))))
    × ((replace_ip_found std remote zone_b (v4 2) (v4 1) begun).1.events
        ≡ patched "example.com" "b" (ips_body (some ("10.0.0.1" ∷ []))) ∷ [])
unfolding replace_ip_found scan_both keep_ips trim_space unmap addr_beq run_effects patch_zone
replace_ip_example =
    replace_ip_found_effect std std-IsLawful remote zone_b (v4 2) (v4 1) (v4 2) begun (λ e. cc) refl
      refl refl

abbrev removal_a : Removal
removal_a = record { request = record { ips = some []; nodes = none }; found = true; moved = none }

abbrev addition_b : Addition
addition_b = record {
  request = record { ips = some ("10.0.0.2" ∷ "10.0.0.1" ∷ []); nodes = none };
  found = false;
}

requests_move_example :
    (holds std (v4 1) [] ≡ (not (v4 1 == v4 1) && holds std (v4 1) ("10.0.0.1" ∷ [])))
    × (holds std (v4 1) ("10.0.0.2" ∷ "10.0.0.1" ∷ [])
        ≡ (v4 1 == v4 1 || holds std (v4 1) ("10.0.0.2" ∷ [])))
    × (true ≡ holds std (v4 1) ("10.0.0.1" ∷ []))
    × (false ≡ holds std (v4 1) ("10.0.0.2" ∷ []))
unfolding zone_without_ip split_ips zone_with_ip scan trim_space unmap addr_beq
requests_move_example =
    requests_move std std-IsLawful zone_a.zone zone_b.zone (v4 1) (v4 1) {removal = removal_a}
      {addition = addition_b} refl refl refl refl

-- A move from `a` to `b`.
move_ip_example :
    (removal : Removal) × (addition : Addition) × (true ≡ holds std (v4 1) ("10.0.0.1" ∷ []))
    × ((move_ip_found std remote zone_a zone_b (v4 1) begun).1.events
        ≡ move_events zone_a zone_b removal addition [])
    × (holds std (v4 1) (request_entries removal.request)
        ≡ (not (v4 1 == v4 1) && holds std (v4 1) ("10.0.0.1" ∷ [])))
    × (holds std (v4 1) (request_entries addition.request)
        ≡ (v4 1 == v4 1 || holds std (v4 1) ("10.0.0.2" ∷ [])))
    × (addition.found ≡ holds std (v4 1) ("10.0.0.2" ∷ []))
    × ((true || addition.found) ≡ true)
unfolding move_ip_found zone_without_ip split_ips zone_with_ip scan trim_space unmap addr_beq
    run_effects patch_zone
move_ip_example =
    move_ip_found_effect std std-IsLawful remote zone_a zone_b (v4 1) (v4 1) begun refl refl refl

-- The PATCH of `a` is refused, after that of `b`.
move_ip_failed_example :
    let w' = (move_ip_found std (remote_but "a") zone_a zone_b (v4 1) begun).1 in
    (w'.events ≡ [])
    ⊎ ((removal : Removal) × (addition : Addition) × (zone_without_ip std zone_a.zone (v4 1)
          ≡ ok removal)
        × (zone_with_ip std zone_b.zone (v4 1) removal.moved ≡ ok addition)
        × (removal.found ≡ true)
        × (((addition.found ≡ false) × (w'.events ≡ sent zone_b addition.request ∷ []))
            ⊎ ((addition.found ≡ true) × (w'.events ≡ sent zone_a removal.request ∷ []))
            ⊎ ((addition.found ≡ false)
                × (w'.events
                    ≡ sent zone_b (zone_snapshot_request zone_b.zone)
                      ∷ sent zone_a removal.request
                      ∷ sent zone_b addition.request
                      ∷ []))))
unfolding move_ip_found zone_without_ip split_ips zone_with_ip scan trim_space unmap addr_beq
    run_effects patch_zone
move_ip_failed_example =
    move_ip_found_failed std (remote_but "a") zone_a zone_b (v4 1) begun {e = http_error 500} refl

abbrev empty_zone : Zone
empty_zone = record { name = "d"; ttl = 60; proxied = false; ips = none; nodes = some [] }

snapshot_body_example : marshal (zone_snapshot_request empty_zone) ≡ ips_body none
snapshot_body_example = snapshot_body empty_zone [] refl

locate_zone_example :
    locate_zone std
      (record { name = "example.com"; zones = zone_a.zone ∷ zone_b.zone ∷ [] } ∷ [])
      "b.example.com"
    ≡ the_only (
        matches std
          (normalize_fqdn std "b.example.com")
          (record { name = "example.com"; zones = zone_a.zone ∷ zone_b.zone ∷ [] } ∷ []))
unfolding normalize_fqdn trim_space trim_dot
locate_zone_example =
    locate_zone-the_only std
      (record { name = "example.com"; zones = zone_a.zone ∷ zone_b.zone ∷ [] } ∷ []) "b.example.com"
      refl
