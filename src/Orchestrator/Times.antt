-- ===== src/Orchestrator/Times.antt =====
-- The times of every job in the tables, over a run of Deploy and RetryDNS.
use remnanode_setup_bot.Base.{Bool, true, false}
use remnanode_setup_bot.Base.{if◌then◌else◌}
use remnanode_setup_bot.Base.{Result}
use remnanode_setup_bot.Base.Net.{Std}
use remnanode_setup_bot.Orchestrator.World.{Error, Config, Outside, World, check_context}
use remnanode_setup_bot.Orchestrator.Stages.{
  get_deployment, update_deployment_state, record_deployment_step, set_remnawave_node_uuid,
}
use remnanode_setup_bot.Orchestrator.Calls.{
  ask_certificate, ask_secret_key, ask_provision, ask_nodes, ask_create, ask_node, ask_add_ip,
  ask_poll_time, ask_hosts,
}
use remnanode_setup_bot.Orchestrator.Deploy.{StartInput, deploy}
use remnanode_setup_bot.Repository.Laws.{
  AllTimed, with_state-IsTimed, touch-IsTimed, with_node_uuid-IsTimed, update_row-AllTimed,
}
use remnanode_setup_bot.Orchestrator.Steady.Stable.{Stable, Stable-Steady}
use remnanode_setup_bot.Orchestrator.Execution.{deploy-Keeps}

abbrev Timed : World → Type 0
Timed w = AllTimed w.db.deployments

module _ (o : Outside) where
  if_Timed :
      (b : Bool) (w v : World) (r e : Result Error (Unit {0}))
      → Timed w
      → Timed v
      → Timed (let both : Result Error (Unit {0}) × World = if b then (r, v) else (e, w) in both.1)
  if_Timed true w v r e t s = s
  if_Timed false w v r e t s = t

  Timed-Stable : Stable o Timed
  unfolding check_context get_deployment update_deployment_state record_deployment_step
      set_remnawave_node_uuid ask_certificate ask_secret_key ask_provision ask_nodes ask_create
      ask_node ask_add_ip ask_poll_time ask_hosts
  Timed-Stable = record {
    context = record { run = λ w h. h };
    read = λ id. record { run = λ w h. h };
    write = λ id p. record {
      run = λ w h. if_Timed _ _ _ _ _ h (
          update_row-AllTimed id _ w.db.deployments (λ d _. with_state-IsTimed p (o.now w.tick) d)
            h);
    };
    record_step = λ id name status. record {
      run = λ w h. if_Timed _ _ _ _ _ h (
          update_row-AllTimed id _ w.db.deployments
            (λ d t. touch-IsTimed status name (o.now w.tick) d t) h);
    };
    record_node = λ id uuid. record {
      run = λ w h. if_Timed _ _ _ _ _ h (
          update_row-AllTimed id _ w.db.deployments
            (λ d t. with_node_uuid-IsTimed uuid (o.now w.tick) d t) h);
    };
    certificate = λ sni. record { run = λ w h. h };
    secret_key = record { run = λ w h. h };
    provision = λ input. record { run = λ w h. h };
    nodes = record { run = λ w h. h };
    create = λ input. record { run = λ w h. h };
    node = λ uuid. record { run = λ w h. h };
    add_ip = λ sni ip. record { run = λ w h. h };
    poll_time = record { run = λ w h. h };
    hosts = record { run = λ w h. h };
  }

  -- If every job in the tables has a completion time exactly when its status is terminal, and a start
  -- time unless it was only created, the same holds after a run of Deploy.
  pub deploy-AllTimed :
      (std : Std) (config : Config) (input : StartInput) (w : World)
      → AllTimed w.db.deployments
      → AllTimed (deploy std o config input w).1.db.deployments
  deploy-AllTimed std config input w h =
      (deploy-Keeps o (λ db _. AllTimed db.deployments) input (Stable-Steady Timed-Stable)).run w h
