-- ===== src/Orchestrator/Calls.antt =====
-- The names of the steps, and the calls of the other components that the workflow of
-- internal/orchestrator/service.go makes.
use remnanode_setup_bot.Base.{ℕ, suc, String}
use remnanode_setup_bot.Base.{Bool, true, false, Option, none, some, List, ◌∷◌}
use remnanode_setup_bot.Base.{if◌then◌else◌}
use remnanode_setup_bot.Base.{Result, ok, return}
use remnanode_setup_bot.Base.Net.{Addr}
use remnanode_setup_bot.Deployment.{
  Status, provisioning, creating_remnawave, waiting_remnawave, adding_to_dns,
}
use remnanode_setup_bot.Remnawave.{Host, Node}
use remnanode_setup_bot.Orchestrator.World.{
  CertificateFailure, Material, CreateNodeInput, ProvisionInput, Outside, node_created,
  nodes_listed, node_read, ip_added, vps_provisioned, Run, tick_on,
}

-- The names of the steps.
abbrev pub step_preflight : String
step_preflight = "preflight"

abbrev pub step_prepare_certificate : String
step_prepare_certificate = "prepare_certificate"

abbrev pub step_provisioning : String
step_provisioning = "provisioning"

abbrev pub step_create_node : String
step_create_node = "create_remnawave_node"

abbrev pub step_wait_node : String
step_wait_node = "wait_remnawave"

abbrev pub step_add_dns : String
step_add_dns = "add_dns"

abbrev pub is_provisioning : Status → Bool
is_provisioning provisioning = true
is_provisioning _ = false

abbrev pub is_creating : Status → Bool
is_creating creating_remnawave = true
is_creating _ = false

abbrev pub is_waiting : Status → Bool
is_waiting waiting_remnawave = true
is_waiting _ = false

abbrev pub is_adding : Status → Bool
is_adding adding_to_dns = true
is_adding _ = false

module _ (o : Outside) where
  -- The calls of the other components. A call is made whether or not its context is cancelled.
  unfoldable pub ask_certificate : String → Run (Result CertificateFailure Material)
  ask_certificate sni w = (ok (o.certificate w.tick sni), tick_on w)

  unfoldable pub ask_secret_key : Run (Option String)
  ask_secret_key w = (ok (o.secret_key w.tick), tick_on w)

  unfoldable pub ask_provision : ProvisionInput → Run Bool
  ask_provision input w =
      let done = o.provision w.tick input in
      (ok done, record w { tick = suc w.tick; events = vps_provisioned input done ∷ w.events })

  unfoldable pub ask_nodes : Run (Option (List Node))
  ask_nodes w = (
    ok (o.nodes w.tick),
    record w {
      tick = suc w.tick;
      events = elim (o.nodes w.tick) [
        | none ↦ w.events
        | some nodes ↦ nodes_listed nodes ∷ w.events
      ];
    },
  )

  unfoldable pub ask_create : CreateNodeInput → Run (Option Node)
  ask_create input w = (
    ok (o.create w.tick input),
    record w { tick = suc w.tick; events = node_created input.name input.address ∷ w.events },
  )

  unfoldable pub ask_node : String → Run (Option Node)
  ask_node uuid w = (
    ok (o.node w.tick uuid),
    record w {
      tick = suc w.tick;
      events = elim (o.node w.tick uuid) [
        | none ↦ w.events
        | some node ↦ node_read uuid node.is_connected ∷ w.events
      ];
    },
  )

  unfoldable pub ask_add_ip : String → Addr → Run Bool
  ask_add_ip sni ip w =
      let added = o.add_ip w.tick sni ip in
      (ok added, record w { tick = suc w.tick; events = ip_added sni ip added ∷ w.events })

  -- How long a call of the panel takes while polling.
  unfoldable pub ask_poll_time : Run ℕ
  ask_poll_time w = (ok (o.poll_time w.tick), tick_on w)

  unfoldable pub ask_hosts : Run (Option (List Host))
  ask_hosts w = (ok (o.hosts w.tick), tick_on w)

-- Runs `m` unless the test holds.
abbrev pub unless : Bool → Run (Unit {0}) → Run (Unit {0})
unless b m = if b then return tt else m
