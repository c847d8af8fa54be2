-- ===== src/Tests/Recovery.antt =====
-- A job left after a restart, and the theorems on internal/recovery/service.go at it.
use remnanode_setup_bot.Base.{
  ℕ, String, ◌≡◌, refl, false, none, some, Option, [], ◌∷◌, ok, run_effects, is_blank, trim_space,
}
use remnanode_setup_bot.Base.Net.{unmap, addr_beq}
use remnanode_setup_bot.Deployment
use remnanode_setup_bot.Deployment.{Deployment}
use remnanode_setup_bot.Repository.{valid_uuid, find_row, update_row, with_state, with_node_uuid}
use remnanode_setup_bot.Dns.Models.{ZoneMatch}
use remnanode_setup_bot.Dns.Zones.{holds}
use remnanode_setup_bot.Orchestrator.World.{Outside, World}
use remnanode_setup_bot.Orchestrator.Nodes.{address_matches}
use remnanode_setup_bot.Orchestrator.Stages.{
  get_deployment, update_deployment_state, set_remnawave_node_uuid,
}
use remnanode_setup_bot.Orchestrator.Calls.{ask_nodes, ask_node}
use remnanode_setup_bot.Recovery.{
  Service, recovered_completed, or_message, returned, zone_contains, exact_nodes,
  inspect_external_state, classify, recheck_remnawave,
}
use remnanode_setup_bot.Tests.Dns.{std}
use remnanode_setup_bot.Tests.Orchestrator.{outside, job, job_id, node}

abbrev left_behind : Deployment
left_behind = record job { status = Deployment.waiting_remnawave }

abbrev restarted : World
restarted = record {
  tick = 0;
  db = record { deployments = left_behind ∷ []; steps = [] };
  running = [];
  slots = 0;
  events = [];
}

abbrev panel : Outside
panel = record outside { nodes = λ _. some (node ∷ []) }

abbrev find_zone : ℕ → String → Option ZoneMatch
find_zone _ fqdn = some (record {
  domain = "example.com";
  zone_name = "@";
  fqdn = fqdn;
  zone = record {
    name = "@";
    ttl = 300;
    proxied = false;
    ips = some ("10.0.0.1" ∷ []);
    nodes = none;
  };
})

abbrev service : Service
service = record { panel_id = "default"; dns_disabled = false }

-- The job is found as it should be.
recheck_run :
    (recheck_remnawave std panel find_zone service job_id restarted).0
    ≡ ok (record { deployment_id = job_id; classification = recovered_completed })
unfolding recheck_remnawave classify inspect_external_state run_effects or_message get_deployment
    valid_uuid find_row update_row with_state with_node_uuid update_deployment_state
    set_remnawave_node_uuid returned ask_nodes ask_node exact_nodes address_matches zone_contains
    holds unmap addr_beq trim_space is_blank
recheck_run = refl
