-- ===== src/Orchestrator/Steady/Stable.antt =====
-- Invariants that every single call keeps, whatever the calls before it answered.
use remnanode_setup_bot.Base.{String}
use remnanode_setup_bot.Base.{Option, none, some, List}
use remnanode_setup_bot.Base.{
  Result, ok, err, keeping, Keeps, Keeps-bind, Keeps-return, Keeps-throw, Keeps-attempt,
}
use remnanode_setup_bot.Base.Net.{Addr, Std}
use remnanode_setup_bot.Deployment.{Status, StepStatus, Deployment}
use remnanode_setup_bot.Repository.{StateParams}
use remnanode_setup_bot.Remnawave.{Host, Node}
use remnanode_setup_bot.Orchestrator.World.{
  Kind, Error, CreateNodeInput, ProvisionInput, Config, Outside, World, Run, check_context, or_fail,
  or_else,
}
use remnanode_setup_bot.Orchestrator.Stages.{
  get_deployment, update_deployment_state, record_deployment_step, set_remnawave_node_uuid,
  set_state, complete_stage, fail_stage,
}
use remnanode_setup_bot.Orchestrator.Calls.{
  ask_certificate, ask_secret_key, ask_provision, ask_nodes, ask_create, ask_node, ask_add_ip,
  ask_poll_time, ask_hosts,
}
use remnanode_setup_bot.Orchestrator.Connect.{
  listed_of, recovered_of, created_of, node_for, find_or_create, publish, skip_dns,
}
use remnanode_setup_bot.Orchestrator.Steady.{Steady}

pub record Stable (o : Outside) (I : World → Type 0) : Type 0 where
  pub context : Keeps I (check_context o)
  pub read : (id : String) → Keeps I (get_deployment o id)
  pub write : (id : String) (p : StateParams) → Keeps I (update_deployment_state o id p)
  pub record_step :
      (id name : String) (status : StepStatus) → Keeps I (record_deployment_step o id name status)
  pub record_node : (id uuid : String) → Keeps I (set_remnawave_node_uuid o id uuid)
  pub certificate : (sni : String) → Keeps I (ask_certificate o sni)
  pub secret_key : Keeps I (ask_secret_key o)
  pub provision : (input : ProvisionInput) → Keeps I (ask_provision o input)
  pub nodes : Keeps I (ask_nodes o)
  pub create : (input : CreateNodeInput) → Keeps I (ask_create o input)
  pub node : (uuid : String) → Keeps I (ask_node o uuid)
  pub add_ip : (sni : String) (ip : Addr) → Keeps I (ask_add_ip o sni ip)
  pub poll_time : Keeps I (ask_poll_time o)
  pub hosts : Keeps I (ask_hosts o)

module _ {o : Outside} {I : World → Type 0} (S : Stable o I) where
  context-Keeps : Keeps I (check_context o)
  context-Keeps = S.context

  or_fail-Keeps : {A : Type 0} (e : Error) (result : Result Error A) → Keeps I (or_fail o e result)
  unfolding or_fail
  or_fail-Keeps e (ok a) = Keeps-return I a
  or_fail-Keeps e (err _) = Keeps-bind I context-Keeps (λ _. Keeps-throw I e)

  or_else-Keeps : {A : Type 0} (m : Run A) (e : Error) → Keeps I m → Keeps I (or_else o m e)
  unfolding or_else
  or_else-Keeps m e k = Keeps-bind I (Keeps-attempt I k) (or_fail-Keeps e)

  ruleset single = (keeping, context-Keeps, or_else-Keeps)

  fail_stage-Keeps :
      {A : Type 0} (id step : String) (status : Status) (code : String) (e : Error)
      → Keeps I (fail_stage o {A = A} id step status code e)
  unfolding fail_stage
  fail_stage-Keeps id step status code e = search (single, S.write, S.record_step) depth 12

  complete_stage-Keeps : (id step : String) → Keeps I (complete_stage o id step)
  unfolding complete_stage
  complete_stage-Keeps id step = search (single, S.record_step) depth 8

  set_state-Keeps :
      (id : String) (status : Status) (step code : String)
      → Keeps I (set_state o id status step code)
  unfolding set_state
  set_state-Keeps id status step code = search (single, S.write) depth 8

  publish-Keeps :
      (config : Config) (current : Deployment) (uuid : String)
      → Keeps I (publish o config current uuid)
  unfolding publish
  publish-Keeps config current uuid =
      search (single, fail_stage-Keeps, complete_stage-Keeps, set_state-Keeps, S.node, S.add_ip)
        depth 30

  skip_dns-Keeps : (config : Config) (current : Deployment) → Keeps I (skip_dns o config current)
  unfolding skip_dns
  skip_dns-Keeps config current = search (single, set_state-Keeps, S.record_step) depth 12

  listed_of-Keeps :
      (current : Deployment) (answer : Option (List Node)) → Keeps I (listed_of o current answer)
  unfolding listed_of
  listed_of-Keeps current none = fail_stage-Keeps _ _ _ _ _
  listed_of-Keeps current (some nodes) = Keeps-return I nodes

  recovered_of-Keeps :
      (current : Deployment) (found : Result Kind (Option Node))
      → Keeps I (recovered_of o current found)
  unfolding recovered_of
  recovered_of-Keeps current (ok found) = Keeps-return I found
  recovered_of-Keeps current (err kind) = fail_stage-Keeps _ _ _ _ _

  created_of-Keeps :
      (current : Deployment) (made : Option Node) → Keeps I (created_of o current made)
  unfolding created_of
  created_of-Keeps current none = fail_stage-Keeps _ _ _ _ _
  created_of-Keeps current (some node) = Keeps-return I node

  node_for-Keeps :
      (current : Deployment) (host : Host) (found : Option Node)
      → Keeps I (node_for o current host found)
  unfolding node_for
  node_for-Keeps current host (some node) = Keeps-return I node
  node_for-Keeps current host none =
      Keeps-bind I (S.create _)
        λ made. Keeps-bind I context-Keeps λ _. created_of-Keeps current made

  find_or_create-Keeps :
      (std : Std) (current : Deployment) (host : Host) → Keeps I (find_or_create o std current host)
  unfolding find_or_create
  find_or_create-Keeps std current host = Keeps-bind I S.nodes λ answer.
      Keeps-bind I context-Keeps λ _. Keeps-bind I (listed_of-Keeps current answer) λ nodes.
        Keeps-bind I (recovered_of-Keeps current _) λ found.
          Keeps-bind I (node_for-Keeps current host found)
            λ node. or_else-Keeps _ _ (S.record_node current.id node.uuid)

  pub Stable-Steady : {std : Std} {config : Config} → Steady std o config I
  Stable-Steady = record {
    context = S.context;
    read = S.read;
    write = λ id p _. S.write id p;
    record_step = S.record_step;
    certificate = S.certificate;
    secret_key = S.secret_key;
    provision = S.provision;
    nodes = S.nodes;
    node = S.node;
    poll_time = S.poll_time;
    hosts = S.hosts;
    creation = find_or_create-Keeps _;
    publication = publish-Keeps _;
    omission = λ current _. skip_dns-Keeps _ current;
  }
