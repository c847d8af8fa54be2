-- ===== src/Orchestrator/Ordered.antt =====
-- What the events of the workflow must come after: the order of its calls to the panel and to the
-- balancer, in publish and createNode of internal/orchestrator/service.go.
pub mod Runs
pub mod Own
pub mod Published
use remnanode_setup_bot.Base.{String, ◌≡◌}
use remnanode_setup_bot.Base.{Bool, true, false, not, ◌&&◌, ◌||◌, List, [], ◌∷◌, arith}
use remnanode_setup_bot.Base.{any}
use remnanode_setup_bot.Base.{before, Keeps}
use remnanode_setup_bot.Base.Net.{Addr, Std}
use remnanode_setup_bot.Deployment.{StepStatus}
use remnanode_setup_bot.Repository.{StateParams}
use remnanode_setup_bot.Orchestrator.World.{
  ProvisionInput, Config, Outside, Event, node_created, nodes_listed, node_read, ip_added,
  state_written, World, check_context,
}
use remnanode_setup_bot.Orchestrator.Stages.{
  get_deployment, update_deployment_state, record_deployment_step, set_remnawave_node_uuid,
}
use remnanode_setup_bot.Orchestrator.Calls.{
  ask_certificate, ask_secret_key, ask_provision, ask_nodes, ask_node, ask_poll_time, ask_hosts,
}
use remnanode_setup_bot.Orchestrator.Nodes.Laws.{takes}
use remnanode_setup_bot.Orchestrator.Steady.{not_completed}

abbrev pub read_connected : List Event → Bool
read_connected (node_read uuid up ∷ _) = up
read_connected _ = false

abbrev pub just_added : List Event → Bool
just_added (ip_added sni ip added ∷ _) = added
just_added _ = false

module _ (std : Std) where
  abbrev pub listed_free : String → Addr → List Event → Bool
  listed_free name address (nodes_listed nodes ∷ _) = not (any (takes std name address) nodes)
  listed_free name address _ = false

  module _ (config : Config) where
    -- Whether an event may come after those before it, the latest first. A Node is created directly
    -- after the panel listed no Node with its name or its address; an address is added to the balancer
    -- directly after the panel said that a Node is connected; a job is completed directly after an
    -- address was added, or where the panel has no balancer. Whose Node and address they are is not
    -- seen here; Published ties them to one job.
    abbrev pub may_follow : Event → List Event → Bool
    may_follow (node_created name address) before = listed_free name address before
    may_follow (ip_added sni ip added) before = read_connected before
    may_follow (state_written id status) before =
        not_completed status || config.dns_disabled || just_added before
    may_follow _ before = true

    abbrev pub in_order : List Event → Bool
    in_order [] = true
    in_order (event ∷ before) = may_follow event before && in_order before

    abbrev pub InOrder : World → Type 0
    InOrder w = in_order w.events ≡ true

module _ (std : Std) (o : Outside) (config : Config) where
  abbrev I : World → Type 0
  I = InOrder std config

  pub check_context-InOrder : Keeps I (check_context o)
  unfolding check_context
  check_context-InOrder = record { run = λ w i. i }

  pub get_deployment-InOrder : (id : String) → Keeps I (get_deployment o id)
  unfolding get_deployment
  get_deployment-InOrder id = record { run = λ w i. i }

  pub update-InOrder :
      (id : String) (p : StateParams) (w : World)
      → not_completed p.status || config.dns_disabled || just_added w.events ≡ true
      → I w
      → I (update_deployment_state o id p w).1
  unfolding update_deployment_state
  update-InOrder id p w n i = ground arith

  pub record_step-InOrder :
      (id name : String) (status : StepStatus) → Keeps I (record_deployment_step o id name status)
  unfolding record_deployment_step
  record_step-InOrder id name status = record { run = λ w i. ground arith }

  pub set_uuid-InOrder : (id uuid : String) → Keeps I (set_remnawave_node_uuid o id uuid)
  unfolding set_remnawave_node_uuid
  set_uuid-InOrder id uuid = record { run = λ w i. ground arith }

  pub certificate-InOrder : (sni : String) → Keeps I (ask_certificate o sni)
  unfolding ask_certificate
  certificate-InOrder sni = record { run = λ w i. i }

  pub secret_key-InOrder : Keeps I (ask_secret_key o)
  unfolding ask_secret_key
  secret_key-InOrder = record { run = λ w i. i }

  pub provision-InOrder : (input : ProvisionInput) → Keeps I (ask_provision o input)
  unfolding ask_provision
  provision-InOrder input = record { run = λ w i. i }

  pub nodes-InOrder : Keeps I (ask_nodes o)
  unfolding ask_nodes
  nodes-InOrder = record { run = λ w i. ground arith }

  pub node-InOrder : (uuid : String) → Keeps I (ask_node o uuid)
  unfolding ask_node
  node-InOrder uuid = record { run = λ w i. ground arith }

  pub poll_time-InOrder : Keeps I (ask_poll_time o)
  unfolding ask_poll_time
  poll_time-InOrder = record { run = λ w i. i }

  pub hosts-InOrder : Keeps I (ask_hosts o)
  unfolding ask_hosts
  hosts-InOrder = record { run = λ w i. i }
