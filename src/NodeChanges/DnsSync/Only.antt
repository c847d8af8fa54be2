-- ===== src/NodeChanges/DnsSync/Only.antt =====
-- What a synchronisation of DNS may do, and what it has done when it returns.
use remnanode_setup_bot.Base.{
  String, Bool, true, false, not, ◌&&◌, Option, none, some, List, [], ◌∷◌, ◌==◌, ◌≡◌, arith, Keeps,
  Keeps-bind, Keeps-return, Keeps-throw, Keeps-if, Keeps-on, ◌>>=◌, is_blank,
}
use mathlib.Core.Path.{subst}
use remnanode_setup_bot.Base.Net.{Addr, unmap, is_valid, addr_comparable, addr_beq_iff, Std}
use remnanode_setup_bot.Deployment.{Deployment}
use remnanode_setup_bot.Remnawave.{Node}
use remnanode_setup_bot.Dns.Models.{ZoneMatch}
use remnanode_setup_bot.Orchestrator.World.{
  Kind, ip_change_failed, dns_update_failed, dns_target_unknown, node_not_found, Config, Outside,
  Event, World, Answer, refused, unchanged, changed, nodes_listed, ip_included, ip_replaced,
  target_saved,
}
use remnanode_setup_bot.Orchestrator.Execution.{with_execution-Keeps, with_slot-Keeps}
use remnanode_setup_bot.NodeChanges.Calls.{
  Services, expect, find_zone, set_target_ip, include_ip, replace_ip,
}
use remnanode_setup_bot.NodeChanges.Calls.Reads.{
  ask_nodes-Keeps, ask_hosts-Keeps, expect-Keeps, managed_job-Keeps, find_zone-Keeps,
}
use remnanode_setup_bot.NodeChanges.DnsSync.{
  Located, SyncAction, replaced, added, DnsSyncInput, change_dns, done_as, save_address,
  sync_located, sync_dns, sync_node_dns, refuses, sync_job, zone_of, infer_zone, zone_of_only,
  located, find_node_by_uuid, previous_of, zone_contains_ip, has_nodes,
}

-- The calls that a synchronisation to an address may make: the address is added to a zone, or takes the
-- place of another there, or is written to a job. The panel only lists Nodes.
abbrev pub is_allowed : Addr → Event → Bool
is_allowed address (nodes_listed _) = true
is_allowed address (ip_included fqdn included answer) = included == address
is_allowed address (ip_replaced fqdn from to answer) = not (from == address) && to == address
is_allowed address (target_saved id saved done) = saved == address
is_allowed address _ = false

abbrev pub all_allowed : Addr → List Event → Bool
all_allowed address [] = true
all_allowed address (e ∷ before) = is_allowed address e && all_allowed address before

module _ (address : Addr) where
  abbrev F : List Event → Type 0
  F es = all_allowed address es ≡ true

  abbrev I : World → Type 0
  I w = F w.events

  included : (services : Services) (fqdn : String) → Keeps I (include_ip services fqdn address)
  unfolding include_ip
  included services fqdn = record { run = λ w h. ground (arith, h, addr_beq_iff address address) }

  replaced_by :
      (services : Services) (fqdn : String) (from : Addr)
      → (from == address) ≡ false
      → Keeps I (replace_ip services fqdn from address)
  unfolding replace_ip
  replaced_by services fqdn from d = record {
    run = λ w h. ground (arith, h, d, addr_beq_iff address address);
  }

  saved : (o : Outside) (id : String) → Keeps I (set_target_ip o id address)
  unfolding set_target_ip
  saved o id = record { run = λ w h. ground (arith, h, addr_beq_iff address address) }

  done_as-Keeps :
      (services : Services) (action : SyncAction) (answer : Answer)
      → Keeps I (done_as services action answer)
  done_as-Keeps services action refused = Keeps-throw I _
  done_as-Keeps services action unchanged = Keeps-return I _
  done_as-Keeps services action changed = Keeps-return I _

  change_dns-Keeps :
      (services : Services) (std : Std) (found : ZoneMatch) (previous : Addr)
      → Keeps I (change_dns services std found previous address)
  unfolding change_dns
  change_dns-Keeps services std found previous =
      Keeps-on I
        (is_valid previous && not (previous == address) && zone_contains_ip std found.zone previous)
        (λ e.
          Keeps-bind I (replaced_by services found.fqdn previous (ground (arith, e)))
            (done_as-Keeps services replaced))
        (λ _. Keeps-if I (zone_contains_ip std found.zone address) (Keeps-return I _) (
          Keeps-if I (has_nodes found.zone.nodes) (Keeps-throw I _)
            (Keeps-bind I (included services found.fqdn) (done_as-Keeps services added))))

  save_address-Keeps :
      (o : Outside) (job : Option Deployment) → Keeps I (save_address o address job)
  save_address-Keeps o none = Keeps-return I tt
  save_address-Keeps o (some job) =
      Keeps-if I (unmap job.target_ip == address) (Keeps-return I tt)
        (Keeps-bind I (saved o job.id) λ b. Keeps-if I b (Keeps-return I tt) (Keeps-throw I _))

  listed-F : (nodes : List Node) (es : List Event) → F es → F (nodes_listed nodes ∷ es)
  listed-F nodes es h = h

  module _ (std : Std) (o : Outside) (services : Services) where
    find_zone_or-Keeps :
        (sni : String) (kind : Kind) → Keeps I (find_zone services sni >>= expect kind)
    find_zone_or-Keeps sni kind =
        Keeps-bind I (find_zone-Keeps F listed-F services sni) (expect-Keeps F listed-F kind)

    zone_of_only-Keeps :
        (found : List (String × String)) → Keeps I (zone_of_only std o services found)
    zone_of_only-Keeps [] = Keeps-return I none
    zone_of_only-Keeps ((key, sni) ∷ []) =
        Keeps-bind I (find_zone_or-Keeps sni dns_update_failed) λ zone. Keeps-return I (some zone)
    zone_of_only-Keeps (_ ∷ _ ∷ _) = Keeps-return I none

    infer_zone-Keeps :
        (profile : Option String) (inbounds : List String)
        → Keeps I (infer_zone std o services profile inbounds)
    infer_zone-Keeps none inbounds = Keeps-return I none
    infer_zone-Keeps (some profile) [] = Keeps-return I none
    infer_zone-Keeps (some profile) (inbound ∷ inbounds) =
        Keeps-if I (is_blank profile) (Keeps-return I none) (
          Keeps-bind I
            (Keeps-bind I (ask_hosts-Keeps F listed-F o) (expect-Keeps F listed-F ip_change_failed))
            λ hosts. zone_of_only-Keeps _)

    zone_of-Keeps :
        (node : Node) (job : Option Deployment) → Keeps I (zone_of std o services node job)
    zone_of-Keeps node none =
        Keeps-bind I (infer_zone-Keeps node.active_profile node.active_inbounds)
          (expect-Keeps F listed-F dns_target_unknown)
    zone_of-Keeps node (some job) = find_zone_or-Keeps job.sni_domain dns_update_failed

    located-Keeps :
        (node : Node) (found : Option Addr) → Keeps I (located std o services node found)
    located-Keeps node none = Keeps-throw I _
    located-Keeps node (some a) = Keeps-return I _

    find_node_by_uuid-Keeps : (uuid : String) → Keeps I (find_node_by_uuid std o services uuid)
    unfolding find_node_by_uuid
    find_node_by_uuid-Keeps uuid =
        Keeps-bind I
          (Keeps-bind I (ask_nodes-Keeps F listed-F o) (expect-Keeps F listed-F ip_change_failed))
          λ nodes.
            Keeps-bind I (expect-Keeps F listed-F node_not_found _) λ node. located-Keeps node _

module _ (std : Std) (o : Outside) (config : Config) (services : Services) where
  -- Past its test, a synchronisation acts on the address that the Node has.
  sync_located-Keeps :
      (found : Located) → Keeps (I found.address) (sync_located std o config services found)
  unfolding sync_located
  sync_located-Keeps found =
      let J = I found.address in
      Keeps-bind J
        (managed_job-Keeps (F found.address) (listed-F found.address) o config found.node.uuid)
        λ job. Keeps-bind J (zone_of-Keeps found.address std o services found.node job) λ zone.
          Keeps-bind J (change_dns-Keeps found.address services std zone (previous_of job))
            λ action. Keeps-bind J (save_address-Keeps found.address o job) λ _. Keeps-return J _

  sync_dns-Keeps :
      (input : DnsSyncInput)
      → Keeps (I (unmap input.expected_ip)) (sync_dns std o config services input)
  unfolding sync_dns
  sync_dns-Keeps input =
      let J = I (unmap input.expected_ip) in
      Keeps-bind J
        (find_node_by_uuid-Keeps (unmap input.expected_ip) std o services input.node_uuid)
        λ found.
          Keeps-on J (found.address == unmap input.expected_ip)
            (λ e.
              subst (λ a. Keeps (I a) (sync_located std o config services found))
                ((addr_beq_iff found.address (unmap input.expected_ip)).0 e)
                (sync_located-Keeps found))
            (λ _. Keeps-throw J _)

  -- A synchronisation never changes the panel, and DNS and the tables only towards the address that was
  -- confirmed. On every outcome, errors included, and whatever else answers: its calls list Nodes, add
  -- the expected address to a zone, put it in the place of another address there, or write it to a job.
  pub sync_node_dns-all_allowed :
      (input : DnsSyncInput) (w : World)
      → all_allowed (unmap input.expected_ip) w.events ≡ true
      → all_allowed (unmap input.expected_ip) (sync_node_dns std o config services input w).1.events
        ≡ true
  unfolding sync_node_dns
  sync_node_dns-all_allowed input w h =
      let J = I (unmap input.expected_ip) in
      (Keeps-if J config.dns_disabled (Keeps-throw J _) (
          Keeps-if J (refuses std o config services input) (Keeps-throw J _) (
            with_execution-Keeps o (λ _. F (unmap input.expected_ip))
              (sync_job std o config services input)
              (with_slot-Keeps o (λ _. F (unmap input.expected_ip)) (sync_dns-Keeps input))))).run
        w h
