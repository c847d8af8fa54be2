-- ===== src/Dns/Client/MoveIp.antt =====
-- What MoveIP does: internal/dnsbalancer/client.go.
use remnanode_setup_bot.Base.{◌≡◌, ◌⊎◌, inl, inr}
use remnanode_setup_bot.Base.{true, false, not, ◌&&◌, ◌||◌, none, some, List, [], ◌∷◌, arith}
use remnanode_setup_bot.Base.{
  ◌==◌, nat_comparable, string_comparable, if◌then◌else◌, Bool-cases, is_none, is_some,
}
use remnanode_setup_bot.Base.{Result-cases, ok, err, run_effects, trim_space}
use remnanode_setup_bot.Base.Net.{Addr, unmap, addr_comparable, Std, IsLawful}
use remnanode_setup_bot.Dns.Models.{Error, ZoneNode, Zone, ZoneMatch, MoveIpResult}
use remnanode_setup_bot.Dns.Wire.{entry_addr, PatchZoneRequest, Body, nodes_body, ips_body, marshal}
use remnanode_setup_bot.Dns.Zones.{
  Removal, zone_without_ip, Addition, zone_with_ip, zone_snapshot_request, holds,
}
use remnanode_setup_bot.Dns.Zones.Move.{
  entries, request_entries, holds-zone_without_ip, holds-zone_with_ip, carries-zone_without_ip,
}
use remnanode_setup_bot.Dns.Client.{
  Remote, Event, patched, World, patch_zone, move_patches, patch_target, after_source,
  move_ip_found,
}

abbrev pub sent : ZoneMatch → PatchZoneRequest → Event
sent found request = patched found.domain found.zone_name (marshal request)

-- The requests of a move that is carried out: the target's unless it holds the address, then the
-- source's.
abbrev pub move_events : ZoneMatch → ZoneMatch → Removal → Addition → List Event → List Event
move_events source target removal addition events =
    sent source removal.request
    ∷ (if addition.found then events else sent target addition.request ∷ events)

module _ (std : Std) (L : IsLawful std trim_space) where
  -- What the two requests of a move hold.
  pub requests_move :
      (source target : Zone) (ip x : Addr) {removal : Removal} {addition : Addition}
      → entry_addr std (std.addr_string ip) ≡ some ip
      → unmap ip ≡ ip
      → zone_without_ip std source ip ≡ ok removal
      → zone_with_ip std target ip removal.moved ≡ ok addition
      → (holds std x (request_entries removal.request)
          ≡ (not (x == ip) && holds std x (entries source)))
        × (holds std x (request_entries addition.request)
            ≡ (x == ip || holds std x (entries target)))
        × (removal.found ≡ holds std ip (entries source))
        × (addition.found ≡ holds std ip (entries target))
  requests_move source target ip x {removal} v u h k =
      let (a, b) = holds-zone_without_ip std L source ip x h in
      let (c, d) =
        holds-zone_with_ip std L target ip x removal.moved v u
          (carries-zone_without_ip std L source ip h) k in
      (a, c, b, d)

module _ (std : Std) (L : IsLawful std trim_space) (remote : Remote) where
  -- Two zones found and a successful run of MoveIP on a plain address: the source held the address
  -- exactly when the move is reported as a change; then the requests sent are those of a move, and
  -- they take exactly the address out of the source and put exactly it into the target. Otherwise
  -- nothing is sent, and the target holds the address.
  pub move_ip_found_effect :
      (source target : ZoneMatch) (ip x : Addr) (w : World) {r : MoveIpResult} {w' : World}
      → entry_addr std (std.addr_string ip) ≡ some ip
      → unmap ip ≡ ip
      → move_ip_found std remote source target ip w ≡ (ok r, w')
      → (removal : Removal) × (addition : Addition) × (r.changed
          ≡ holds std ip (entries source.zone))
        × (w'.events
            ≡ (if r.changed then move_events source target removal addition w.events else w.events))
        × (holds std x (request_entries removal.request)
            ≡ (not (x == ip) && holds std x (entries source.zone)))
        × (holds std x (request_entries addition.request)
            ≡ (x == ip || holds std x (entries target.zone)))
        × (addition.found ≡ holds std ip (entries target.zone))
        × ((r.changed || addition.found) ≡ true)
  unfolding move_ip_found move_patches patch_target after_source run_effects patch_zone
  move_ip_found_effect source target ip x w v u h =
      elim (Result-cases (zone_without_ip std source.zone ip)) [
        | inl (removal, s) ↦ elim (Result-cases (zone_with_ip std target.zone ip removal.moved)) [
          | inl (addition, t) ↦
              let (a, b, c, d) = requests_move std L source.zone target.zone ip x v u s t in
              (removal, addition, ground arith, ground arith, a, b, d, ground arith)
          | inr (e, t) ↦ absurd (ground arith)
        ]
        | inr (e, s) ↦ absurd (ground arith)
      ]

module _ (std : Std) (remote : Remote) where
  -- Two zones found and a run of MoveIP that fails: either nothing was sent, or requests of the move
  -- that takes the address out of the source and puts it into the target. Then, unless the addition
  -- finds the address in the target, the target's PATCH was sent alone, or before the source's and a
  -- PATCH of the target to the snapshot of it that was read; if it does, the source's alone.
  pub move_ip_found_failed :
      (source target : ZoneMatch) (ip : Addr) (w : World) {e : Error} {w' : World}
      → move_ip_found std remote source target ip w ≡ (err e, w')
      → (w'.events ≡ w.events)
        ⊎ ((removal : Removal) × (addition : Addition) × (zone_without_ip std source.zone ip
              ≡ ok removal)
            × (zone_with_ip std target.zone ip removal.moved ≡ ok addition)
            × (removal.found ≡ true)
            × (((addition.found ≡ false) × (w'.events ≡ sent target addition.request ∷ w.events))
                ⊎ ((addition.found ≡ true) × (w'.events ≡ sent source removal.request ∷ w.events))
                ⊎ ((addition.found ≡ false)
                    × (w'.events
                        ≡ sent target (zone_snapshot_request target.zone)
                          ∷ sent source removal.request
                          ∷ sent target addition.request
                          ∷ w.events))))
  unfolding move_ip_found move_patches patch_target after_source run_effects patch_zone
  move_ip_found_failed source target ip w h =
      elim (Result-cases (zone_without_ip std source.zone ip)) [
        | inl (removal, s) ↦ elim (Result-cases (zone_with_ip std target.zone ip removal.moved)) [
          | inl (addition, t) ↦ elim (Bool-cases removal.found) [
            | inl f ↦
                elim (Bool-cases (
                  is_some source.zone.nodes && is_none target.zone.nodes
                  || is_none source.zone.nodes && is_some target.zone.nodes)) [
                    | inl g ↦ inl (ground arith)
                    | inr g ↦ inr (removal, addition, s, t, f, ground arith)
                  ]
            | inr f ↦ inl (ground arith)
          ]
          | inr (_, t) ↦ inl (ground arith)
        ]
        | inr (_, s) ↦ inl (ground arith)
      ]

abbrev pub undo_body : List ZoneNode → Body
undo_body [] = ips_body none
undo_body (node ∷ nodes) = nodes_body (node ∷ nodes)

-- The snapshot that undoes a PATCH of a zone in the advanced format: its entries in that format if
-- there are any, but for a zone with no entry a simple body with no list.
pub snapshot_body :
    (zone : Zone) (nodes : List ZoneNode)
    → zone.nodes ≡ some nodes
    → marshal (zone_snapshot_request zone) ≡ undo_body nodes
unfolding zone_snapshot_request marshal
snapshot_body zone [] h = ground arith
snapshot_body zone (node ∷ nodes) h = ground arith
