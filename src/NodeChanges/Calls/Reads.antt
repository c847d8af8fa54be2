-- ===== src/NodeChanges/Calls/Reads.antt =====
-- The calls that read: what is said of the record of calls stays true, but for a list of Nodes.
use remnanode_setup_bot.Base.{
  String, Option, none, some, List, ◌∷◌, Result, ok, err, Keeps, Keeps-bind, Keeps-return,
  Keeps-throw, Keeps-attempt, Option-cases, inl, inr,
}
use remnanode_setup_bot.Base.Net.{Addr}
use remnanode_setup_bot.Deployment.{Deployment}
use remnanode_setup_bot.Remnawave.{Node}
use remnanode_setup_bot.Orchestrator.World.{
  Kind, Error, Config, Outside, Event, World, nodes_listed, not_found, plain, safe, context_done,
  out_of_fuel, message, nil_pointer,
}
use remnanode_setup_bot.Orchestrator.Calls.{ask_nodes, ask_hosts, ask_certificate}
use remnanode_setup_bot.NodeChanges.Calls.{
  Services, expect, managed_job, managed_of, find_job, find_zones, find_zone,
}

module _ (F : List Event → Type 0)
    (listed : (nodes : List Node) (es : List Event) → F es → F (nodes_listed nodes ∷ es)) where
  abbrev Holds : World → Type 0
  Holds w = F w.events

  pub ask_nodes-Keeps : (o : Outside) → Keeps Holds (ask_nodes o)
  unfolding ask_nodes
  ask_nodes-Keeps o = record {
    run = λ w h. elim (Option-cases (o.nodes w.tick)) [
      | inl e ↦ rw e h
      | inr (nodes, e) ↦ rw e (listed nodes w.events h)
    ];
  }

  pub ask_hosts-Keeps : (o : Outside) → Keeps Holds (ask_hosts o)
  unfolding ask_hosts
  ask_hosts-Keeps o = record { run = λ w h. h }

  pub ask_certificate-Keeps : (o : Outside) (sni : String) → Keeps Holds (ask_certificate o sni)
  unfolding ask_certificate
  ask_certificate-Keeps o sni = record { run = λ w h. h }

  pub find_zones-Keeps :
      (services : Services) (address : Addr) → Keeps Holds (find_zones services address)
  unfolding find_zones
  find_zones-Keeps services address = record { run = λ w h. h }

  pub find_zone-Keeps : (services : Services) (sni : String) → Keeps Holds (find_zone services sni)
  unfolding find_zone
  find_zone-Keeps services sni = record { run = λ w h. h }

  pub expect-Keeps :
      {A : Type 0} (kind : Kind) (answer : Option A) → Keeps Holds (expect kind answer)
  unfolding expect
  expect-Keeps kind none = Keeps-throw Holds _
  expect-Keeps kind (some a) = Keeps-return Holds a

  managed_of-Keeps : (r : Result Error Deployment) → Keeps Holds (managed_of r)
  managed_of-Keeps (ok d) = Keeps-return Holds _
  managed_of-Keeps (err not_found) = Keeps-return Holds _
  managed_of-Keeps (err (plain _)) = Keeps-throw Holds _
  managed_of-Keeps (err (safe _ _)) = Keeps-throw Holds _
  managed_of-Keeps (err context_done) = Keeps-throw Holds _
  managed_of-Keeps (err out_of_fuel) = Keeps-throw Holds _
  managed_of-Keeps (err (message _)) = Keeps-throw Holds _
  managed_of-Keeps (err nil_pointer) = Keeps-throw Holds _

  find_job-Keeps : (o : Outside) (panel uuid : String) → Keeps Holds (find_job o panel uuid)
  unfolding find_job
  find_job-Keeps o panel uuid = record { run = λ w h. h }

  pub managed_job-Keeps :
      (o : Outside) (config : Config) (uuid : String) → Keeps Holds (managed_job o config uuid)
  unfolding managed_job
  managed_job-Keeps o config uuid =
      Keeps-bind Holds (Keeps-attempt Holds (find_job-Keeps o config.panel_id uuid))
        managed_of-Keeps
