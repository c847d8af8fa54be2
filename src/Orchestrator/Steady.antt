-- ===== src/Orchestrator/Steady.antt =====
-- How an invariant is kept by a whole run of Deploy or RetryDNS: what each call of it must keep.
pub mod Jobs
pub mod Stable
use remnanode_setup_bot.Base.{ℕ, zero, suc, String, ◌≡◌, refl}
use remnanode_setup_bot.Base.{Bool, true, false, Option, none, some}
use remnanode_setup_bot.Base.{
  Result, ok, err, keeping, Keeps, Keeps-bind, Keeps-return, Keeps-throw, Keeps-if, Keeps-attempt,
  is_blank,
}
use remnanode_setup_bot.Base.Net.{Std}
use remnanode_setup_bot.Deployment.{Status, completed, StepStatus, Deployment}
use remnanode_setup_bot.Repository.{StateParams}
use remnanode_setup_bot.Remnawave.{Host}
use remnanode_setup_bot.Orchestrator.World.{
  Error, out_of_fuel, CertificateFailure, Material, ProvisionInput, Config, Outside, World, Run,
  check_context, or_fail, or_else,
}
use remnanode_setup_bot.Orchestrator.Stages.{
  get_deployment, update_deployment_state, record_deployment_step, set_state, begin_stage,
  complete_stage, fail_stage, deployment_for_panel,
}
use remnanode_setup_bot.Orchestrator.Calls.{
  is_adding, ask_certificate, ask_secret_key, ask_provision, ask_nodes, ask_node, ask_poll_time,
  ask_hosts,
}
use remnanode_setup_bot.Orchestrator.Provision.{
  certificate_of, no_key, secret_of, provisioned_of, prepare_and_provision,
}
use remnanode_setup_bot.Orchestrator.Connect.{
  Polled, connected, rejected, timed_out, find_or_create, create_node, keep_polling, poll_loop,
  poll_node, polled_of, wait_for_uuid, publish, skip_dns, dns_step, add_dns_for,
}

abbrev pub not_completed : Status → Bool
not_completed completed = false
not_completed _ = true

-- What is to be shown of an invariant: that the single calls keep it, and three groups of calls, in
-- which one call rests on the answer of the one before.
pub record Steady (std : Std) (o : Outside) (config : Config) (I : World → Type 0) : Type 0 where
  pub context : Keeps I (check_context o)
  pub read : (id : String) → Keeps I (get_deployment o id)
  pub write :
      (id : String) (p : StateParams)
      → not_completed p.status ≡ true
      → Keeps I (update_deployment_state o id p)
  pub record_step :
      (id name : String) (status : StepStatus) → Keeps I (record_deployment_step o id name status)
  pub certificate : (sni : String) → Keeps I (ask_certificate o sni)
  pub secret_key : Keeps I (ask_secret_key o)
  pub provision : (input : ProvisionInput) → Keeps I (ask_provision o input)
  pub nodes : Keeps I (ask_nodes o)
  pub node : (uuid : String) → Keeps I (ask_node o uuid)
  pub poll_time : Keeps I (ask_poll_time o)
  pub hosts : Keeps I (ask_hosts o)
  pub creation : (current : Deployment) (host : Host) → Keeps I (find_or_create o std current host)
  pub publication : (current : Deployment) (uuid : String) → Keeps I (publish o config current uuid)
  pub omission :
      (current : Deployment) → config.dns_disabled ≡ true → Keeps I (skip_dns o config current)

module _ {std : Std} {o : Outside} {config : Config} {I : World → Type 0}
    (S : Steady std o config I) where
  pub check_context-Keeps : Keeps I (check_context o)
  check_context-Keeps = S.context

  pub get_deployment-Keeps : (id : String) → Keeps I (get_deployment o id)
  get_deployment-Keeps id = S.read id

  record_deployment_step-Keeps :
      (id name : String) (status : StepStatus) → Keeps I (record_deployment_step o id name status)
  record_deployment_step-Keeps id name status = S.record_step id name status

  ask_certificate-Keeps : (sni : String) → Keeps I (ask_certificate o sni)
  ask_certificate-Keeps sni = S.certificate sni

  ask_secret_key-Keeps : Keeps I (ask_secret_key o)
  ask_secret_key-Keeps = S.secret_key

  ask_provision-Keeps : (input : ProvisionInput) → Keeps I (ask_provision o input)
  ask_provision-Keeps input = S.provision input

  pub ask_nodes-Keeps : Keeps I (ask_nodes o)
  ask_nodes-Keeps = S.nodes

  ask_node-Keeps : (uuid : String) → Keeps I (ask_node o uuid)
  ask_node-Keeps uuid = S.node uuid

  ask_poll_time-Keeps : Keeps I (ask_poll_time o)
  ask_poll_time-Keeps = S.poll_time

  pub ask_hosts-Keeps : Keeps I (ask_hosts o)
  ask_hosts-Keeps = S.hosts

  ruleset calls = (
    keeping, check_context-Keeps, get_deployment-Keeps, record_deployment_step-Keeps,
    ask_certificate-Keeps, ask_secret_key-Keeps, ask_provision-Keeps, ask_nodes-Keeps,
    ask_node-Keeps, ask_poll_time-Keeps, ask_hosts-Keeps,
  )

  pub or_fail-Keeps :
      {A : Type 0} (e : Error) (result : Result Error A) → Keeps I (or_fail o e result)
  unfolding or_fail
  or_fail-Keeps e (ok a) = search calls
  or_fail-Keeps e (err _) = search calls

  pub or_else-Keeps : {A : Type 0} (m : Run A) (e : Error) → Keeps I m → Keeps I (or_else o m e)
  unfolding or_else
  or_else-Keeps m e k = Keeps-bind I (Keeps-attempt I k) (or_fail-Keeps e)

  pub set_state-Keeps :
      (id : String) (status : Status) (step code : String)
      → not_completed status ≡ true
      → Keeps I (set_state o id status step code)
  unfolding set_state
  set_state-Keeps id status step code n = search (calls, or_else-Keeps, S.write) depth 8

  pub begin_stage-Keeps :
      (id : String) (status : Status) (step : String)
      → not_completed status ≡ true
      → Keeps I (begin_stage o id status step)
  unfolding begin_stage
  begin_stage-Keeps id status step n = search (calls, or_else-Keeps, set_state-Keeps) depth 8

  pub complete_stage-Keeps : (id step : String) → Keeps I (complete_stage o id step)
  unfolding complete_stage
  complete_stage-Keeps id step = search (calls, or_else-Keeps) depth 8

  pub fail_stage-Keeps :
      {A : Type 0} (id step : String) (status : Status) (code : String) (e : Error)
      → not_completed status ≡ true
      → Keeps I (fail_stage o {A = A} id step status code e)
  unfolding fail_stage
  fail_stage-Keeps id step status code e n = search (calls, S.write) depth 12

  pub deployment_for_panel-Keeps : (id : String) → Keeps I (deployment_for_panel o config id)
  unfolding deployment_for_panel
  deployment_for_panel-Keeps id = search calls depth 8

  ruleset stages = (
    calls, or_else-Keeps, set_state-Keeps, begin_stage-Keeps, complete_stage-Keeps,
    fail_stage-Keeps,
  )

  certificate_of-Keeps :
      (current : Deployment) (answer : Result CertificateFailure Material)
      → Keeps I (certificate_of o current answer)
  unfolding certificate_of
  certificate_of-Keeps current (ok material) = search stages
  certificate_of-Keeps current (err failure) = fail_stage-Keeps _ _ _ _ _ refl

  secret_of-Keeps : (current : Deployment) (key : Option String) → Keeps I (secret_of o current key)
  unfolding secret_of no_key
  secret_of-Keeps current none = fail_stage-Keeps _ _ _ _ _ refl
  secret_of-Keeps current (some secret) =
      Keeps-if I (is_blank secret) (fail_stage-Keeps _ _ _ _ _ refl) (Keeps-return I secret)

  provisioned_of-Keeps : (current : Deployment) (b : Bool) → Keeps I (provisioned_of o current b)
  unfolding provisioned_of
  provisioned_of-Keeps current true = Keeps-return I tt
  provisioned_of-Keeps current false = fail_stage-Keeps _ _ _ _ _ refl

  pub prepare_and_provision-Keeps :
      (current : Deployment) → Keeps I (prepare_and_provision o current)
  unfolding prepare_and_provision
  prepare_and_provision-Keeps current =
      search (stages, certificate_of-Keeps, secret_of-Keeps, provisioned_of-Keeps) depth 40

  pub create_node-Keeps :
      (current : Deployment) (host : Host) → Keeps I (create_node o std current host)
  unfolding create_node
  create_node-Keeps current host = search (stages, S.creation) depth 20

  keep_polling-Keeps :
      (answer : Option Polled) (next : Run Polled)
      → Keeps I next
      → Keeps I (keep_polling o config answer next)
  unfolding keep_polling
  keep_polling-Keeps (some polled) next k = Keeps-return I polled
  keep_polling-Keeps none next k = Keeps-bind I check_context-Keeps (λ _. k)

  poll_loop-Keeps :
      (fuel : ℕ) (uuid : String) (elapsed backoff : ℕ)
      → Keeps I (poll_loop o config fuel uuid elapsed backoff)
  unfolding poll_loop
  poll_loop-Keeps zero uuid elapsed backoff = Keeps-throw I out_of_fuel
  poll_loop-Keeps (suc fuel) uuid elapsed backoff =
      search (calls, keep_polling-Keeps, poll_loop-Keeps fuel uuid) depth 12

  polled_of-Keeps :
      (current : Deployment) (polled : Polled) → Keeps I (polled_of o config current polled)
  unfolding polled_of
  polled_of-Keeps current connected = Keeps-return I tt
  polled_of-Keeps current rejected = fail_stage-Keeps _ _ _ _ _ refl
  polled_of-Keeps current timed_out = fail_stage-Keeps _ _ _ _ _ refl

  pub wait_for_uuid-Keeps :
      (current : Deployment) (uuid : Option String) → Keeps I (wait_for_uuid o config current uuid)
  unfolding wait_for_uuid poll_node
  wait_for_uuid-Keeps current none = fail_stage-Keeps _ _ _ _ _ refl
  wait_for_uuid-Keeps current (some uuid) =
      search (stages, poll_loop-Keeps, polled_of-Keeps) depth 30

  dns_step-Keeps :
      (current : Deployment) (uuid : String) (b : Bool)
      → config.dns_disabled ≡ b
      → Keeps I (dns_step o config current uuid b)
  unfolding dns_step
  dns_step-Keeps current uuid true e = S.omission current e
  dns_step-Keeps current uuid false e = S.publication current uuid

  pub add_dns_for-Keeps :
      (current : Deployment) (uuid : Option String) → Keeps I (add_dns_for o config current uuid)
  unfolding add_dns_for
  add_dns_for-Keeps current none = Keeps-throw I _
  add_dns_for-Keeps current (some uuid) =
      Keeps-bind I
        (Keeps-if I (is_adding current.status) (Keeps-return I tt) (begin_stage-Keeps _ _ _ refl))
        (λ _. dns_step-Keeps current uuid config.dns_disabled refl)
