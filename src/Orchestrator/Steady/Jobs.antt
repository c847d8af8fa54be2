-- ===== src/Orchestrator/Steady/Jobs.antt =====
-- That an invariant is kept by the whole of Deploy and RetryDNS, from what each call keeps.
use remnanode_setup_bot.Base.{String, refl}
use remnanode_setup_bot.Base.{Bool, Option, none, some, List}
use remnanode_setup_bot.Base.{
  Result, ok, err, keeping, Keeps, Keeps-bind, Keeps-return, Keeps-throw, Keeps-if, Keeps-attempt,
  Keeps-lift,
}
use remnanode_setup_bot.Base.Net.{Addr, Std}
use remnanode_setup_bot.Deployment.{Deployment}
use remnanode_setup_bot.Remnawave.{Host, Node}
use remnanode_setup_bot.Orchestrator.World.{Kind, Error, Config, Outside, World}
use remnanode_setup_bot.Orchestrator.Nodes.{Selected}
use remnanode_setup_bot.Orchestrator.Connect.{wait_for_healthy_node, add_dns}
use remnanode_setup_bot.Orchestrator.Deploy.{
  StartInput, Entry, finished, refused, runnable, hosts_of, no_conflict, nodes_of, selected_host,
  check_unique, fail_host, host_of, unique_of, recheck, reload, vps_stage, node_stage, wait_stage,
  dns_stage, run_stages, enter, deploy_job, retry_from, retry_dns_job,
}
use remnanode_setup_bot.Orchestrator.Steady.{
  Steady, check_context-Keeps, get_deployment-Keeps, ask_nodes-Keeps, ask_hosts-Keeps,
  or_else-Keeps, begin_stage-Keeps, fail_stage-Keeps, deployment_for_panel-Keeps,
  prepare_and_provision-Keeps, create_node-Keeps, wait_for_uuid-Keeps, add_dns_for-Keeps,
}

module _ {std : Std} {o : Outside} {config : Config} {I : World → Type 0}
    (S : Steady std o config I) where
  hosts_of-Keeps :
      (id : String) (answer : Option (List Host)) → Keeps I (hosts_of std o config id answer)
  unfolding hosts_of
  hosts_of-Keeps id none = Keeps-bind I (check_context-Keeps S) (λ _. Keeps-throw I _)
  hosts_of-Keeps id (some hosts) = Keeps-lift I _

  selected_host-Keeps : (id : String) → Keeps I (selected_host std o config id)
  unfolding selected_host
  selected_host-Keeps id = Keeps-bind I (ask_hosts-Keeps S) (hosts_of-Keeps id)

  no_conflict-Keeps : (found : Option Kind) → Keeps I (no_conflict std o config found)
  unfolding no_conflict
  no_conflict-Keeps none = Keeps-return I tt
  no_conflict-Keeps (some kind) = Keeps-throw I _

  nodes_of-Keeps :
      (name : String) (address : Addr) (own : String) (b : Bool) (answer : Option (List Node))
      → Keeps I (nodes_of std o config name address own b answer)
  unfolding nodes_of
  nodes_of-Keeps name address own b none =
      Keeps-bind I (check_context-Keeps S) (λ _. Keeps-throw I _)
  nodes_of-Keeps name address own b (some nodes) = no_conflict-Keeps _

  check_unique-Keeps :
      (name : String) (address : Addr) (own : String) (b : Bool)
      → Keeps I (check_unique std o config name address own b)
  unfolding check_unique
  check_unique-Keeps name address own b =
      Keeps-bind I (ask_nodes-Keeps S) (nodes_of-Keeps name address own b)

  host_of-Keeps :
      (current : Deployment) (answer : Result Error Selected)
      → Keeps I (host_of std o config current answer)
  unfolding host_of fail_host
  host_of-Keeps current (ok selected) =
      Keeps-if I _ (Keeps-return I selected) (fail_stage-Keeps S _ _ _ _ _ refl)
  host_of-Keeps current (err _) = fail_stage-Keeps S _ _ _ _ _ refl

  unique_of-Keeps :
      (current : Deployment) (answer : Result Error (Unit {0}))
      → Keeps I (unique_of std o config current answer)
  unfolding unique_of
  unique_of-Keeps current (ok _) = Keeps-return I tt
  unique_of-Keeps current (err e) =
      Keeps-bind I (check_context-Keeps S) (λ _. fail_stage-Keeps S _ _ _ _ _ refl)

  recheck-Keeps : (current : Deployment) → Keeps I (recheck std o config current)
  unfolding recheck
  recheck-Keeps current =
      Keeps-bind I (Keeps-attempt I (selected_host-Keeps current.host_uuid)) λ chosen.
        Keeps-bind I (check_context-Keeps S) λ _.
          Keeps-bind I (host_of-Keeps current chosen) λ selected.
            Keeps-bind I (Keeps-attempt I (check_unique-Keeps _ _ _ _)) λ unique.
              Keeps-bind I (unique_of-Keeps current unique) λ _. Keeps-return I selected.host

  reload-Keeps : (id : String) → Keeps I (reload std o config id)
  unfolding reload
  reload-Keeps id = or_else-Keeps S _ _ (get_deployment-Keeps S id)

  vps_stage-Keeps : (current : Deployment) → Keeps I (vps_stage std o config current)
  unfolding vps_stage
  vps_stage-Keeps current =
      Keeps-if I _
        (Keeps-bind I (prepare_and_provision-Keeps S current) (λ _. reload-Keeps current.id))
        (Keeps-return I current)

  node_stage-Keeps :
      (host : Host) (current : Deployment) → Keeps I (node_stage std o config host current)
  unfolding node_stage
  node_stage-Keeps host current =
      Keeps-if I _ (Keeps-bind I (create_node-Keeps S current host) (λ _. reload-Keeps current.id))
        (Keeps-return I current)

  wait_stage-Keeps : (current : Deployment) → Keeps I (wait_stage std o config current)
  unfolding wait_stage wait_for_healthy_node
  wait_stage-Keeps current =
      Keeps-if I _
        (Keeps-bind I (wait_for_uuid-Keeps S current current.node_uuid)
          (λ _. reload-Keeps current.id))
        (Keeps-return I current)

  add_dns-Keeps : (current : Deployment) → Keeps I (add_dns o config current)
  unfolding add_dns
  add_dns-Keeps current = add_dns_for-Keeps S current current.node_uuid

  dns_stage-Keeps : (current : Deployment) → Keeps I (dns_stage std o config current)
  unfolding dns_stage
  dns_stage-Keeps current = Keeps-if I _ (add_dns-Keeps current) (Keeps-throw I _)

  run_stages-Keeps : (current : Deployment) → Keeps I (run_stages std o config current)
  unfolding run_stages
  run_stages-Keeps current =
      search
        (
          keeping, recheck-Keeps, vps_stage-Keeps, node_stage-Keeps, wait_stage-Keeps,
          dns_stage-Keeps,
        )
        depth 20

  enter-Keeps : (current : Deployment) (e : Entry) → Keeps I (enter std o config current e)
  unfolding enter
  enter-Keeps current finished = Keeps-return I tt
  enter-Keeps current (refused kind) = Keeps-throw I _
  enter-Keeps current runnable = run_stages-Keeps current

  pub deploy_job-Keeps : (input : StartInput) → Keeps I (deploy_job std o config input)
  unfolding deploy_job
  deploy_job-Keeps input =
      Keeps-bind I (or_else-Keeps S _ _ (deployment_for_panel-Keeps S input.deployment_id))
        (λ current. Keeps-if I _ (enter-Keeps current _) (Keeps-throw I _))

  retry_from-Keeps :
      (current : Deployment) (e : Entry) → Keeps I (retry_from std o config current e)
  unfolding retry_from
  retry_from-Keeps current finished = Keeps-return I tt
  retry_from-Keeps current (refused kind) =
      Keeps-if I _ (Keeps-bind I (begin_stage-Keeps S _ _ _ refl) (λ _. add_dns-Keeps _))
        (Keeps-throw I _)
  retry_from-Keeps current runnable =
      Keeps-if I _ (Keeps-bind I (begin_stage-Keeps S _ _ _ refl) (λ _. add_dns-Keeps _))
        (Keeps-throw I _)

  pub retry_dns_job-Keeps : (id : String) → Keeps I (retry_dns_job std o config id)
  unfolding retry_dns_job
  retry_dns_job-Keeps id =
      Keeps-bind I (or_else-Keeps S _ _ (deployment_for_panel-Keeps S id))
        (λ current. retry_from-Keeps current _)
