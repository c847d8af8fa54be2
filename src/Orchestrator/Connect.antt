-- ===== src/Orchestrator/Connect.antt =====
-- The Node and its DNS entry: createNode, pollNode, waitForHealthyNode and addDNS of
-- internal/orchestrator/service.go.
use remnanode_setup_bot.Base.{ℕ, zero, suc, ◌+◌, ◌*◌, String}
use remnanode_setup_bot.Base.{Bool, true, false, Option, none, some, List}
use remnanode_setup_bot.Base.{ltb, if◌then◌else◌, is_some}
use remnanode_setup_bot.Base.{Result, ok, err, ◌>>=◌, ◌>>◌, return, throw, attempt}
use remnanode_setup_bot.Base.Net.{Std}
use remnanode_setup_bot.Deployment.{
  creating_remnawave, waiting_remnawave, adding_to_dns, completed, failed, dns_failed, skipped,
  Deployment,
}
use remnanode_setup_bot.Remnawave.{Host, Node}
use remnanode_setup_bot.Orchestrator.World.{
  Kind, creation_failed, connection_failed, connection_timeout, dns_update_failed, not_runnable,
  persistence_failed, plain, safe, out_of_fuel, Config, Outside, Run, check_context, or_else,
}
use remnanode_setup_bot.Orchestrator.Nodes.{recoverable_node}
use remnanode_setup_bot.Orchestrator.Stages.{
  record_deployment_step, set_remnawave_node_uuid, set_state, begin_stage, complete_stage,
  fail_stage, failed_call,
}
use remnanode_setup_bot.Orchestrator.Calls.{
  step_create_node, step_wait_node, step_add_dns, is_creating, is_waiting, is_adding, ask_nodes,
  ask_create, ask_node, ask_add_ip, ask_poll_time, unless,
}

-- What polling ends in: the Node, a rejection, or the deadline.
pub data Polled : Type 0 where
  connected : Polled
  rejected : Polled
  timed_out : Polled

module _ (o : Outside) where
  -- What follows each call of a component that may have failed.
  unfoldable pub listed_of : Deployment → Option (List Node) → Run (List Node)
  listed_of current none =
      fail_stage o current.id step_create_node failed "NODE_DUPLICATE_CHECK_FAILED"
        (safe "NODE_DUPLICATE_CHECK_FAILED" creation_failed)
  listed_of current (some nodes) = return nodes

  unfoldable pub recovered_of : Deployment → Result Kind (Option Node) → Run (Option Node)
  recovered_of current (ok recovered) = return recovered
  recovered_of current (err kind) =
      fail_stage o current.id step_create_node failed "DUPLICATE_NODE" (safe "DUPLICATE_NODE" kind)

  unfoldable pub created_of : Deployment → Option Node → Run Node
  created_of current none =
      fail_stage o current.id step_create_node failed "NODE_CREATE_FAILED"
        (safe "NODE_CREATE_FAILED" creation_failed)
  created_of current (some node) = return node

  -- The Node recovered, or a new one.
  unfoldable pub node_for : Deployment → Host → Option Node → Run Node
  unfolding created_of
  node_for current host (some node) = return node
  node_for current host none = do
    made ←
        ask_create o (record { name = current.node_name; address = current.target_ip; host = host })
    check_context o
    created_of current made

  module _ (std : Std) where
    -- The part of `createNode` for a job with no Node recorded.
    unfoldable pub find_or_create : Deployment → Host → Run (Unit {0})
    unfolding listed_of recovered_of node_for
    find_or_create current host = do
      answer ← ask_nodes o
      check_context o
      nodes ← listed_of current answer
      recovered ←
          recovered_of current (recoverable_node std nodes current.node_name current.target_ip)
      node ← node_for current host recovered
      or_else o (set_remnawave_node_uuid o current.id node.uuid)
          (safe "NODE_UUID_PERSIST_FAILED" persistence_failed)

    -- `createNode`.
    unfoldable pub create_node : Deployment → Host → Run (Unit {0})
    unfolding find_or_create
    create_node current host = do
      unless (is_creating current.status)
          (begin_stage o current.id creating_remnawave step_create_node)
      unless (is_some current.node_uuid) (find_or_create current host)
      complete_stage o current.id step_create_node
      begin_stage o current.id waiting_remnawave step_wait_node

  module _ (config : Config) where
    -- One turn of the loop of `pollNode`: `none` is an error of the call, which is waited out.
    unfoldable pub poll_answer : Option Node → Option Polled
    poll_answer none = none
    poll_answer (some node) =
        if node.is_connected
        then some connected
        else if node.is_connecting
        then none
        else some rejected

    -- `backoff *= 2`, capped.
    unfoldable pub next_backoff : ℕ → ℕ
    next_backoff backoff =
        if ltb config.max_poll_backoff (backoff * 2) then config.max_poll_backoff else backoff * 2

    -- What ends the loop, or a wait that only the end of the context cuts short.
    unfoldable pub keep_polling : Option Polled → Run Polled → Run Polled
    keep_polling (some polled) next = return polled
    keep_polling none next = check_context o >> next

    -- The loop of `pollNode`: `elapsed` is the time since it began. The wait ends with the
    -- context, at the deadline if that comes before the timer, or at the timer; each turn takes one unit of fuel.
    unfoldable pub poll_loop : ℕ → String → ℕ → ℕ → Run Polled
    unfolding poll_answer next_backoff keep_polling
    poll_loop zero uuid elapsed backoff = throw out_of_fuel
    poll_loop (suc fuel) uuid elapsed backoff = do
      answer ← ask_node o uuid
      time ← ask_poll_time o
      let later = elapsed + time + backoff
      let again = poll_loop fuel uuid later (next_backoff backoff)
      keep_polling (poll_answer answer)
          (if ltb later config.node_connect_timeout then again else return timed_out)

    -- `pollNode`, with fuel for as many turns as the timeout has units.
    unfoldable pub poll_node : String → Run Polled
    unfolding poll_loop
    poll_node uuid = poll_loop (suc config.node_connect_timeout) uuid 0 config.initial_poll_backoff

    -- What follows the polling.
    unfoldable pub polled_of : Deployment → Polled → Run (Unit {0})
    polled_of current connected = return tt
    polled_of current rejected =
        fail_stage o current.id step_wait_node failed "NODE_CONNECTION_REJECTED"
          (safe "NODE_CONNECTION_REJECTED" connection_failed)
    polled_of current timed_out =
        fail_stage o current.id step_wait_node failed "NODE_CONNECTION_TIMEOUT"
          (safe "NODE_CONNECTION_TIMEOUT" connection_timeout)

    -- `waitForHealthyNode` for a job with a Node.
    unfoldable pub wait_for : Deployment → String → Run (Unit {0})
    unfolding poll_node polled_of
    wait_for current uuid = do
      unless (is_waiting current.status) (begin_stage o current.id waiting_remnawave step_wait_node)
      polled ← poll_node uuid
      check_context o
      polled_of current polled
      complete_stage o current.id step_wait_node
      begin_stage o current.id adding_to_dns step_add_dns

    unfoldable pub wait_for_uuid : Deployment → Option String → Run (Unit {0})
    unfolding wait_for
    wait_for_uuid current none =
        fail_stage o current.id step_wait_node failed "NODE_UUID_MISSING"
          (safe "NODE_UUID_MISSING" connection_failed)
    wait_for_uuid current (some uuid) = wait_for current uuid

    -- `waitForHealthyNode`.
    unfoldable pub wait_for_healthy_node : Deployment → Run (Unit {0})
    unfolding wait_for_uuid
    wait_for_healthy_node current = wait_for_uuid current current.node_uuid

    abbrev pub healthy : Option Node → Bool
    healthy none = false
    healthy (some node) = node.is_connected

    -- `addDNS` on a panel with a balancer, once the stage has begun.
    unfoldable pub publish : Deployment → String → Run (Unit {0})
    publish current uuid = do
      answer ← ask_node o uuid
      check_context o
      if healthy answer
          then return tt
          else fail_stage o current.id step_add_dns failed "NODE_NOT_HEALTHY"
              (safe "NODE_NOT_HEALTHY" connection_failed)
      added ← ask_add_ip o current.sni_domain current.target_ip
      if added
          then return tt
          else (check_context o
              >> fail_stage o current.id step_add_dns dns_failed "DNS_UPDATE_FAILED"
                  (safe "DNS_UPDATE_FAILED" dns_update_failed))
      complete_stage o current.id step_add_dns
      set_state o current.id completed "completed" ""

    -- `addDNS` on a panel without one.
    unfoldable pub skip_dns : Deployment → Run (Unit {0})
    skip_dns current = do
      recorded ← attempt (record_deployment_step o current.id step_add_dns skipped)
      if failed_call recorded
          then throw (safe "DNS_SKIP_PERSIST_FAILED" persistence_failed)
          else return tt
      set_state o current.id completed "completed" ""

    unfoldable pub dns_step : Deployment → String → Bool → Run (Unit {0})
    unfolding publish skip_dns
    dns_step current uuid true = skip_dns current
    dns_step current uuid false = publish current uuid

    unfoldable pub add_dns_for : Deployment → Option String → Run (Unit {0})
    unfolding dns_step
    add_dns_for current none = throw (plain not_runnable)
    add_dns_for current (some uuid) = do
      unless (is_adding current.status) (begin_stage o current.id adding_to_dns step_add_dns)
      dns_step current uuid config.dns_disabled

    -- `addDNS`.
    unfoldable pub add_dns : Deployment → Run (Unit {0})
    unfolding add_dns_for
    add_dns current = add_dns_for current current.node_uuid
