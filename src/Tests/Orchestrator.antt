-- ===== src/Tests/Orchestrator.antt =====
-- A job, components that all answer, and the theorems on internal/orchestrator/service.go at them.
use remnanode_setup_bot.Base.{ℕ, String, ◌≡◌, refl, true, false, none, some, [], ◌∷◌}
use remnanode_setup_bot.Base.{arith, ok, run_effects}
use remnanode_setup_bot.Base.Net.{v4}
use remnanode_setup_bot.Deployment
use remnanode_setup_bot.Deployment.{Deployment, Step}
use remnanode_setup_bot.Remnawave.{Host, Node, profile_from_host}
use remnanode_setup_bot.Orchestrator.World.{Outside, Config, World}
use remnanode_setup_bot.Repository.{
  valid_uuid, find_row, update_row, with_state, touch, with_node_uuid, upsert_step,
}
use remnanode_setup_bot.Base.{is_blank, trim_space, trim_dot}
use remnanode_setup_bot.Base.Net.{addr_beq, unmap}
use remnanode_setup_bot.Dns.Matching.{normalize_fqdn}
use remnanode_setup_bot.Orchestrator.World.{or_else, check_context}
use remnanode_setup_bot.Orchestrator.Nodes.{
  find_host, name_matches, address_matches, node_conflict, find_conflict, recoverable_node,
}
use remnanode_setup_bot.Orchestrator.Stages.{
  get_deployment, update_deployment_state, record_deployment_step, set_remnawave_node_uuid,
  set_state, begin_stage, complete_stage, fail_stage, step_or_fallback, deployment_for_panel,
  with_execution, with_slot,
}
use remnanode_setup_bot.Orchestrator.Calls.{
  ask_certificate, ask_secret_key, ask_provision, ask_nodes, ask_create, ask_node, ask_add_ip,
  ask_poll_time, ask_hosts,
}
use remnanode_setup_bot.Orchestrator.Provision.{
  prepare_and_provision, certificate_of, secret_of, provisioned_of,
}
use remnanode_setup_bot.Orchestrator.Connect.{
  create_node, wait_for_healthy_node, add_dns, poll_node,
}
use remnanode_setup_bot.Orchestrator.Deploy.{
  StartInput, deploy, matches_start_input, selected_host, same_domain, check_unique, reload,
}
use remnanode_setup_bot.Tests.Dns.{std}
use remnanode_setup_bot.Base.{not, ◌&&◌, any, is_none}
use remnanode_setup_bot.Base.Net.{addr_comparable}
use remnanode_setup_bot.Deployment.{is_terminal}
use remnanode_setup_bot.Orchestrator.Deploy.{retry_dns, dns_stage}
use remnanode_setup_bot.Orchestrator.Connect.{connected}
use remnanode_setup_bot.Orchestrator.Outcome.{row_status, deploy_success-completed}
use remnanode_setup_bot.Orchestrator.Ordered.{in_order}
use remnanode_setup_bot.Orchestrator.Ordered.Runs.{deploy-InOrder}
use remnanode_setup_bot.Orchestrator.Ordered.Published.{published-own}
use remnanode_setup_bot.Orchestrator.Ordered.Own.{own_events}
use remnanode_setup_bot.Orchestrator.Times.{deploy-AllTimed}
use remnanode_setup_bot.Orchestrator.Execution.{deploy-releases}
use remnanode_setup_bot.Orchestrator.Polling.{Seen, poll_node-Ends}
use remnanode_setup_bot.Orchestrator.Nodes.Laws.{
  takes, excused, find_conflict-none_iff, Recovered, recoverable_node-Recovered,
}
use remnanode_setup_bot.Repository.Laws.{AllTimed, IsTimed, with_state-IsTimed}

abbrev pub job_id : String
job_id = "00000000-0000-0000-0000-000000000001"

abbrev pub host_id : String
host_id = "00000000-0000-0000-0000-000000000002"

abbrev pub node_id : String
node_id = "00000000-0000-0000-0000-000000000003"

abbrev pub host : Host
host = record {
  uuid = host_id;
  remark = "host";
  address = "example.com";
  is_disabled = false;
  inbound = record { profile_uuid = some host_id; inbound_uuid = some host_id };
}

abbrev pub node : Node
node = record {
  uuid = node_id;
  name = "node";
  address = "10.0.0.1";
  is_connected = true;
  is_connecting = false;
  active_profile = none;
  active_inbounds = [];
}

abbrev pub outside : Outside
outside = record {
  done = λ _. false;
  db_fails = λ _. false;
  now = λ tick. tick;
  hosts = λ _. some (host ∷ []);
  nodes = λ _. some [];
  node = λ _ _. some node;
  create = λ _ _. some node;
  secret_key = λ _. some "key";
  certificate = λ _ _. ok (record { certificate = "certificate"; private_key = "key" });
  provision = λ _ _. true;
  add_ip = λ _ _ _. true;
  slot = λ _. true;
  poll_time = λ _. 0;
}

abbrev pub config : Config
config = record {
  panel_id = "default";
  dns_disabled = false;
  max_concurrent = 2;
  node_connect_timeout = 300;
  initial_poll_backoff = 1;
  max_poll_backoff = 10;
}

abbrev pub job : Deployment
job = record {
  id = job_id;
  panel_id = "default";
  operator = 1;
  host_uuid = host_id;
  host_remark = "host";
  sni_domain = "example.com";
  node_name = "node";
  target_ip = v4 1;
  node_uuid = none;
  status = Deployment.preflight;
  current_step = "preflight";
  error_code = none;
  created_at = 0;
  updated_at = 0;
  started_at = some 0;
  completed_at = none;
}

abbrev pub begun : World
begun = record {
  tick = 0;
  db = record { deployments = job ∷ []; steps = [] };
  running = [];
  slots = 0;
  events = [];
}

abbrev input : StartInput
input = record {
  deployment_id = job_id;
  operator = 1;
  host_id = host_id;
  node_name = "node";
  ip = v4 1;
}

-- On an `unfolding` line: the whole workflow computes.
unfoldable pub run_workflow : ℕ
unfolding run_effects valid_uuid find_row update_row with_state touch with_node_uuid upsert_step
    is_blank trim_space trim_dot addr_beq unmap normalize_fqdn or_else check_context find_host
    profile_from_host name_matches address_matches node_conflict find_conflict recoverable_node
    get_deployment update_deployment_state record_deployment_step set_remnawave_node_uuid set_state
    begin_stage complete_stage fail_stage step_or_fallback deployment_for_panel with_execution
    with_slot ask_certificate ask_secret_key ask_provision ask_nodes ask_create ask_node ask_add_ip
    ask_poll_time ask_hosts prepare_and_provision certificate_of secret_of provisioned_of
    create_node wait_for_healthy_node add_dns poll_node matches_start_input selected_host
    same_domain check_unique reload
run_workflow = 0

abbrev ended : World
ended = (deploy std outside config input begun).1

-- The job runs through all its stages, and the tables hold it as completed.
deploy_success_example : row_status job_id ended.db ≡ some Deployment.completed
unfolding run_workflow deploy
deploy_success_example = deploy_success-completed std outside config input begun refl

deploy-InOrder_example : in_order std config ended.events ≡ true
deploy-InOrder_example = deploy-InOrder std outside config input begun refl

deploy-AllTimed_example : AllTimed ended.db.deployments
unfolding is_terminal
deploy-AllTimed_example =
    deploy-AllTimed outside std config input begun (record { over = refl; begun = λ e. cc }, tt)

deploy-releases_example : (ended.running ≡ []) × (ended.slots ≡ 0)
deploy-releases_example = deploy-releases std outside config input begun

abbrev busy : World
busy = record begun { running = job_id ∷ [] }

-- The same job, whose address could not be added to the balancer.
abbrev dns_failed_job : Deployment
dns_failed_job = record job {
  status = Deployment.dns_failed;
  current_step = "add_dns";
  node_uuid = some node_id;
}

abbrev before_retry : World
before_retry = record begun { db = record { deployments = dns_failed_job ∷ []; steps = [] } }

published-own_example :
    (own_events config dns_failed_job (retry_dns std outside config job_id before_retry).1.events
      ≡ true)
    × (own_events config dns_failed_job
          (dns_stage std outside config dns_failed_job before_retry).1.events
        ≡ true)
unfolding run_workflow
published-own_example =
    published-own std outside config dns_failed_job job_id before_retry refl refl

poll_node_example : Seen outside node_id connected (poll_node outside config node_id begun).1
unfolding poll_node run_effects ask_node ask_poll_time
poll_node_example = poll_node-Ends outside config node_id begun (omega arith) (omega arith)

-- Another Node has the address of the job.
abbrev other : Node
other = record node { uuid = host_id; name = "other" }

find_conflict_example :
    is_none (find_conflict std "node" (v4 1) "" false (other ∷ []))
    ≡ not (
        any
          (λ n. takes std "node" (v4 1) n && not (excused std "node" (v4 1) "" false n))
          (other ∷ []))
find_conflict_example = find_conflict-none_iff std "node" (v4 1) "" false (other ∷ [])

recoverable_node_example : Recovered std "node" (v4 1) (node ∷ []) (some node)
unfolding recoverable_node name_matches address_matches trim_space unmap addr_beq
recoverable_node_example = recoverable_node-Recovered std (node ∷ []) "node" (v4 1) (some node) refl

with_state_example : IsTimed (
    with_state (record { status = Deployment.failed; current_step = "x"; error_code = none }) 5 job)
with_state_example =
    with_state-IsTimed
      (record { status = Deployment.failed; current_step = "x"; error_code = none }) 5 job
