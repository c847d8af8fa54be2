-- ===== src/Orchestrator/Deploy.antt =====
-- The operations of DeploymentService on a job: Deploy, RetryDNS, RetryFailedStep and Cancel of
-- internal/orchestrator/service.go.
use remnanode_setup_bot.Base.{ℕ, String}
use remnanode_setup_bot.Base.{Bool, true, false, ◌&&◌, ◌||◌, Option, none, some, List}
use remnanode_setup_bot.Base.{◌==◌, nat_comparable, string_comparable, if◌then◌else◌, is_none}
use remnanode_setup_bot.Base.{
  Result, ok, err, ◌>>=◌, ◌>>◌, return, throw, attempt, lift, trim_space, is_blank,
}
use remnanode_setup_bot.Base.Net.{Addr, unmap, addr_comparable, Std}
use remnanode_setup_bot.Deployment.{
  Status, created, preflight, preparing_certificate, provisioning, creating_remnawave,
  waiting_remnawave, adding_to_dns, completed, failed, cancelled, dns_failed, Deployment,
}
use remnanode_setup_bot.Remnawave.{Host, Node}
use remnanode_setup_bot.Orchestrator.World.{
  Kind, invalid_input, host_unavailable, creation_failed, dns_retry_required, not_runnable,
  persistence_failed, Error, plain, safe, Config, Outside, Run, from_option, check_context, or_else,
}
use remnanode_setup_bot.Orchestrator.Nodes.{Selected, find_host, find_conflict}
use remnanode_setup_bot.Orchestrator.Stages.{
  get_deployment, set_state, begin_stage, fail_stage, deployment_for_panel, with_execution,
  with_slot,
}
use remnanode_setup_bot.Orchestrator.Calls.{
  step_prepare_certificate, step_provisioning, step_create_node, step_wait_node, step_add_dns,
  is_creating, is_waiting, is_adding, ask_nodes, ask_hosts,
}
use remnanode_setup_bot.Orchestrator.Provision.{prepare_and_provision}
use remnanode_setup_bot.Orchestrator.Connect.{create_node, wait_for_healthy_node, add_dns}
use remnanode_setup_bot.Dns.Matching.{normalize_fqdn}

-- `StartInput`.
pub record StartInput : Type 0 where
  pub deployment_id : String
  pub operator : ℕ
  pub host_id : String
  pub node_name : String
  pub ip : Addr

-- `matchesStartInput`.
unfoldable pub matches_start_input : Deployment → StartInput → Bool
matches_start_input current input =
    current.id == input.deployment_id
    && current.operator == input.operator
    && current.host_uuid == input.host_id
    && current.node_name == trim_space input.node_name
    && current.target_ip == unmap input.ip

-- `nodeUUID`.
abbrev pub own_uuid : Option String → String
own_uuid none = ""
own_uuid (some uuid) = uuid

-- What Deploy makes of the status it reads.
pub data Entry : Type 0 where
  finished : Entry
  refused : Kind → Entry
  runnable : Entry

unfoldable pub entry : Status → Entry
entry completed = finished
entry dns_failed = refused dns_retry_required
entry failed = refused not_runnable
entry cancelled = refused not_runnable
entry created = refused not_runnable
entry _ = runnable

-- The statuses at which a Node created before may be taken over.
abbrev pub allows_recovery : Status → Bool
allows_recovery s = is_creating s || is_waiting s || is_adding s

-- The statuses at which the VPS is still to be prepared.
abbrev pub before_node : Status → Bool
before_node preflight = true
before_node preparing_certificate = true
before_node provisioning = true
before_node _ = false

module _ (std : Std) (o : Outside) (config : Config) where
  unfoldable pub hosts_of : String → Option (List Host) → Run Selected
  hosts_of id none = check_context o >> throw (safe "HOSTS_UNAVAILABLE" host_unavailable)
  hosts_of id (some hosts) = lift (from_option (find_host id hosts) (plain host_unavailable))

  -- `selectedHost`.
  unfoldable pub selected_host : String → Run Selected
  unfolding hosts_of
  selected_host id = do answer ← ask_hosts o; hosts_of id answer

  unfoldable pub no_conflict : Option Kind → Run (Unit {0})
  no_conflict none = return tt
  no_conflict (some kind) = throw (plain kind)

  unfoldable pub nodes_of : String → Addr → String → Bool → Option (List Node) → Run (Unit {0})
  unfolding no_conflict
  nodes_of name address own allow_recovery none =
      check_context o >> throw (safe "NODE_LIST_UNAVAILABLE" creation_failed)
  nodes_of name address own allow_recovery (some nodes) =
      no_conflict (find_conflict std name address own allow_recovery nodes)

  -- `checkUnique`.
  unfoldable pub check_unique : String → Addr → String → Bool → Run (Unit {0})
  unfolding nodes_of
  check_unique name address own allow_recovery = do
    answer ← ask_nodes o
    nodes_of name address own allow_recovery answer

  unfoldable pub same_domain : String → String → Bool
  same_domain a b = normalize_fqdn std a == normalize_fqdn std b

  unfoldable pub fail_host : Deployment → Run Selected
  fail_host current =
      fail_stage o current.id current.current_step failed "HOST_INVALID"
        (safe "HOST_INVALID" host_unavailable)

  unfoldable pub host_of : Deployment → Result Error Selected → Run Selected
  host_of current (err _) = fail_host current
  host_of current (ok selected) =
      if same_domain selected.profile.sni_domain current.sni_domain
      then return selected
      else fail_host current

  unfoldable pub error_kind : Error → Kind
  error_kind (plain kind) = kind
  error_kind (safe _ kind) = kind
  error_kind _ = creation_failed

  unfoldable pub unique_of : Deployment → Result Error (Unit {0}) → Run (Unit {0})
  unique_of current (ok _) = return tt
  unique_of current (err e) = do
    check_context o
    fail_stage o current.id current.current_step failed "DUPLICATE_NODE"
        (safe "DUPLICATE_NODE" (error_kind e))

  -- The host and the uniqueness of the Node are checked again.
  unfoldable pub recheck : Deployment → Run Host
  unfolding host_of fail_host unique_of error_kind
  recheck current = do
    chosen ← attempt (selected_host current.host_uuid)
    check_context o
    selected ← host_of current chosen
    unique ← attempt (
        check_unique current.node_name current.target_ip (own_uuid current.node_uuid)
          (allows_recovery current.status))
    unique_of current unique
    return selected.host

  -- The job, read again.
  unfoldable pub reload : String → Run Deployment
  reload id = or_else o (get_deployment o id) (safe "PERSISTENCE_READ_FAILED" persistence_failed)

  -- The three stages that Deploy goes through, each only if the status says so.
  unfoldable pub vps_stage : Deployment → Run Deployment
  vps_stage current =
      if before_node current.status
      then (do prepare_and_provision o current; reload current.id)
      else return current

  unfoldable pub node_stage : Host → Deployment → Run Deployment
  node_stage host current =
      if is_creating current.status || is_none current.node_uuid
      then (do create_node o std current host; reload current.id)
      else return current

  unfoldable pub wait_stage : Deployment → Run Deployment
  wait_stage current =
      if is_waiting current.status || is_creating current.status
      then (do wait_for_healthy_node o config current; reload current.id)
      else return current

  unfoldable pub dns_stage : Deployment → Run (Unit {0})
  dns_stage current =
      if is_adding current.status || is_waiting current.status
      then add_dns o config current
      else throw (plain not_runnable)

  unfoldable pub run_stages : Deployment → Run (Unit {0})
  unfolding recheck vps_stage node_stage wait_stage dns_stage
  run_stages current = do
    host ← recheck current
    provisioned ← vps_stage current
    with_node ← node_stage host provisioned
    ready ← wait_stage with_node
    dns_stage ready

  unfoldable pub enter : Deployment → Entry → Run (Unit {0})
  unfolding run_stages
  enter current finished = return tt
  enter current (refused kind) = throw (plain kind)
  enter current runnable = run_stages current

  -- `Deploy` with the slot taken.
  unfoldable pub deploy_job : StartInput → Run (Unit {0})
  unfolding enter entry
  deploy_job input = do
    current ←
        or_else o (deployment_for_panel o config input.deployment_id)
          (safe "PERSISTENCE_READ_FAILED" persistence_failed)
    if matches_start_input current input
        then enter current (entry current.status)
        else throw (plain invalid_input)

  -- `Deploy`.
  unfoldable pub deploy : StartInput → Run (Unit {0})
  unfolding deploy_job
  deploy input =
      if is_blank input.deployment_id
      then throw (plain invalid_input)
      else with_execution input.deployment_id (with_slot o (deploy_job input))

  unfoldable pub retries_dns : Status → Bool
  retries_dns dns_failed = true
  retries_dns adding_to_dns = true
  retries_dns _ = false

  unfoldable pub retry_from : Deployment → Entry → Run (Unit {0})
  unfolding retries_dns
  retry_from current finished = return tt
  retry_from current _ =
      if retries_dns current.status
      then (do
        begin_stage o current.id adding_to_dns step_add_dns
        add_dns o config (record current { status = adding_to_dns }))
      else throw (plain not_runnable)

  -- `RetryDNS` with the slot taken.
  unfoldable pub retry_dns_job : String → Run (Unit {0})
  unfolding retry_from
  retry_dns_job id = do
    current ←
        or_else o (deployment_for_panel o config id)
          (safe "PERSISTENCE_READ_FAILED" persistence_failed)
    retry_from current (entry current.status)

  -- `RetryDNS`.
  unfoldable pub retry_dns : String → Run (Unit {0})
  unfolding retry_dns_job
  retry_dns id = with_execution id (with_slot o (retry_dns_job id))

  -- Where a failed step is taken up again; `none` where it is not.
  unfoldable pub resume_status : String → Option Status
  resume_status step =
      if step == step_prepare_certificate
      then some preflight
      else if step == step_provisioning
      then some provisioning
      else if step == step_create_node
      then some creating_remnawave
      else if step == step_wait_node
      then some waiting_remnawave
      else none

  unfoldable pub is_failed : Status → Bool
  is_failed failed = true
  is_failed _ = false

  unfoldable pub start_of : Deployment → StartInput
  start_of current = record {
    deployment_id = current.id;
    operator = current.operator;
    host_id = current.host_uuid;
    node_name = current.node_name;
    ip = current.target_ip;
  }

  unfoldable pub resume_job : Deployment → Option Status → Run (Unit {0})
  resume_job current (some status) = do
    set_state o current.id status current.current_step ""
    deploy (start_of current)
  resume_job current none =
      if current.current_step == step_add_dns
      then (do
        set_state o current.id dns_failed step_add_dns "DNS_RETRY_REQUIRED"
        retry_dns current.id)
      else throw (plain not_runnable)

  unfoldable pub read_of : Result Error Deployment → Run Deployment
  read_of (ok current) = return current
  read_of (err _) = throw (safe "PERSISTENCE_READ_FAILED" persistence_failed)

  -- `RetryFailedStep`.
  unfoldable pub retry_failed_step : String → Run (Unit {0})
  unfolding resume_job start_of is_failed read_of
  retry_failed_step id = do
    read ← attempt (deployment_for_panel o config id)
    current ← read_of read
    if is_failed current.status
        then resume_job current (resume_status current.current_step)
        else throw (plain not_runnable)

  unfoldable pub ends_cancel : Status → Bool
  ends_cancel completed = true
  ends_cancel cancelled = true
  ends_cancel _ = false

  -- `Cancel`, without the signal to the run of the job, whose context it ends.
  unfoldable pub cancel : String → Run (Unit {0})
  unfolding ends_cancel
  cancel id = do
    check_context o
    current ←
        or_else o (deployment_for_panel o config id)
          (safe "PERSISTENCE_READ_FAILED" persistence_failed)
    if ends_cancel current.status
        then return tt
        else set_state o id cancelled "cancelled" "CANCELLED"
