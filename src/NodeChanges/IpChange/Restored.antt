-- ===== src/NodeChanges/IpChange/Restored.antt =====
-- What `rollbackNodeIP` of internal/orchestrator/ip_change.go leaves of the changes of the zones.
use remnanode_setup_bot.Base.{
  String, Bool, true, false, not, ◌&&◌, ◌||◌, List, [], ◌∷◌, if◌then◌else◌, ◌==◌, string_comparable,
  ◌≡◌, refl, arith, any, Triple, Triple-bind, Triple-return, Triple-throw,
}
use remnanode_setup_bot.Base.Net.{Addr, addr_comparable, addr_beq_iff}
use remnanode_setup_bot.Dns.Models.{ZoneMatch}
use remnanode_setup_bot.Orchestrator.World.{
  Error, Event, World, Run, address_updated, ip_replaced, Answer, changed, refused, unchanged,
}
use remnanode_setup_bot.NodeChanges.Calls.{
  Services, answer_of, took_effect, replace_ip, update_address,
}
use remnanode_setup_bot.NodeChanges.Calls.Reads.{}
use remnanode_setup_bot.NodeChanges.IpChange.{restore_zones, rollback, on_answer, replace_all}

-- In a record of calls, newest first: no zone is left with a change that was not asked back. The
-- last request on the zone that could change it asks for the old address.
abbrev pub zone_back : Addr → String → List Event → Bool
zone_back old zone [] = true
zone_back old zone (ip_replaced fqdn from to answer ∷ before) =
    let rest = zone_back old zone before in
    if not (fqdn == zone) then rest else to == old || (not (took_effect answer) && rest)
zone_back old zone (_ ∷ before) = zone_back old zone before

-- The same of the address of a Node in the panel.
abbrev pub node_back : Addr → String → List Event → Bool
node_back old node [] = true
node_back old node (address_updated uuid address done ∷ before) =
    let rest = node_back old node before in
    if not (uuid == node) then rest else address == old || (not done && rest)
node_back old node (_ ∷ before) = node_back old node before

abbrev named : String → List ZoneMatch → Bool
named fqdn = any (λ (zone : ZoneMatch). zone.fqdn == fqdn)

module _ (services : Services) (uuid : String) (old new : Addr) where
  -- At most the zones of a list are left with the new address.
  abbrev ZonesLeft : List ZoneMatch → World → Type 0
  ZonesLeft zones w =
      (fqdn : String) → named fqdn zones ≡ false → zone_back old fqdn w.events ≡ true

  -- And only the one Node is.
  abbrev pub OthersBack : World → Type 0
  OthersBack w = (node : String) → (uuid == node) ≡ false → node_back old node w.events ≡ true

  abbrev pub Left : List ZoneMatch → World → Type 0
  Left zones w = OthersBack w × ZonesLeft zones w

  abbrev Unzoned : List Event → Type 0
  Unzoned es = (fqdn : String) → zone_back old fqdn es ≡ true

  restored-step :
      {R : Error → World → Type 0} (zone : ZoneMatch) (zones : List ZoneMatch)
      → Triple (Left (zone ∷ zones)) (replace_ip services zone.fqdn new old) (λ _. Left zones) R
  unfolding replace_ip
  restored-step zone zones = record {
    run = λ w (k, h). (k, λ fqdn n. ground (arith, h fqdn, n, addr_beq_iff old old));
  }

  restore_zones-Left :
      {R : Error → World → Type 0} (zones : List ZoneMatch)
      → Triple (Left zones) (restore_zones services uuid old new zones) (λ _. Left []) R
  unfolding restore_zones
  restore_zones-Left [] = Triple-return tt (λ w h. h)
  restore_zones-Left (zone ∷ zones) =
      Triple-bind (restored-step zone zones) λ _. restore_zones-Left zones

-- All changes of the addresses are taken back.
module _ (old : Addr) where
  abbrev pub Back : List Event → Type 0
  Back es =
      ((node : String) → node_back old node es ≡ true)
      × ((fqdn : String) → zone_back old fqdn es ≡ true)

  abbrev pub IsBack : World → Type 0
  IsBack w = Back w.events

module _ (services : Services) (uuid : String) (old new : Addr) where
  readdressed :
      {R : Error → World → Type 0}
      → Triple
          (Left services uuid old new [])
          (update_address services uuid old)
          (λ _. IsBack old)
          R
  unfolding update_address
  readdressed = record {
    run = λ w (k, h). (λ node. ground (arith, addr_beq_iff old old, k node), λ fqdn. h fqdn refl);
  }

  pub rollback-IsBack :
      {R : Error → World → Type 0} (zones : List ZoneMatch)
      → Triple
          (Left services uuid old new zones)
          (rollback services uuid old new zones)
          (λ _. IsBack old)
          R
  unfolding rollback
  rollback-IsBack zones =
      Triple-bind (restore_zones-Left services uuid old new zones)
        λ _. Triple-bind readdressed λ _. Triple-return tt (λ w h. h)

  abbrev with_answer : ZoneMatch → Answer → List ZoneMatch → List ZoneMatch
  with_answer zone changed done = zone ∷ done
  with_answer zone _ done = done

  replaced-step :
      {R : Error → World → Type 0} (zone : ZoneMatch) (done : List ZoneMatch)
      → Triple
          (Left services uuid old new done)
          (replace_ip services zone.fqdn old new)
          (λ answer. Left services uuid old new (with_answer zone answer done))
          R
  unfolding replace_ip
  replaced-step zone done = record {
    run = λ w (k, h). (k, by_answer (answer_of (services.replace_ip w.tick zone.fqdn old new)) w h);
  }
    where
      by_answer :
          (answer : Answer) (w : World)
          → ZonesLeft services uuid old new done w
          → (fqdn : String) → named fqdn (with_answer zone answer done) ≡ false
          → zone_back old fqdn (ip_replaced zone.fqdn old new answer ∷ w.events) ≡ true
      by_answer refused w h fqdn n = ground (arith, h fqdn n)
      by_answer unchanged w h fqdn n = ground (arith, h fqdn n)
      by_answer changed w h fqdn n = ground (arith, h fqdn, n)

  on_answer-Left :
      (zone : ZoneMatch) (done : List ZoneMatch) (next : List ZoneMatch → Run (List ZoneMatch))
      → ((done : List ZoneMatch)
          → Triple
              (Left services uuid old new done)
              (next done)
              (λ done. Left services uuid old new done)
              (λ _. IsBack old))
      → (answer : Answer)
      → Triple
          (Left services uuid old new (with_answer zone answer done))
          (on_answer services uuid old new zone done next answer)
          (λ done. Left services uuid old new done)
          (λ _. IsBack old)
  on_answer-Left zone done next h refused =
      Triple-bind (rollback-IsBack done) λ _. Triple-throw _ (λ w h. h)
  on_answer-Left zone done next h unchanged = h done
  on_answer-Left zone done next h changed = h (zone ∷ done)

  pub replace_all-Left :
      (zones done : List ZoneMatch)
      → Triple
          (Left services uuid old new done)
          (replace_all services uuid old new zones done)
          (λ done. Left services uuid old new done)
          (λ _. IsBack old)
  unfolding replace_all
  replace_all-Left [] done = Triple-return done (λ w h. h)
  replace_all-Left (zone ∷ zones) done =
      Triple-bind (replaced-step zone done) (on_answer-Left zone done _ (replace_all-Left zones))
