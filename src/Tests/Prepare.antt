-- ===== src/Tests/Prepare.antt =====
-- An input of the operator, and the theorem on Prepare of internal/orchestrator/service.go at it.
use remnanode_setup_bot.Base.{◌≡◌, refl, true, some, []}
use remnanode_setup_bot.Base.Net.{v4}
use remnanode_setup_bot.Deployment.{Deployment}
use remnanode_setup_bot.Repository.Unfinished.{valid_panel_id}
use remnanode_setup_bot.Remnawave.{valid_node_name}
use remnanode_setup_bot.Orchestrator.World.{World}
use remnanode_setup_bot.Orchestrator.Deploy.{matches_start_input}
use remnanode_setup_bot.Orchestrator.Prepare.{
  PrepareInput, public_ip, valid_create, insert_deployment, create_with, create_deployment,
  preflight_job, preflight_of, unique_or, ask_preflight, shown_call, prepare,
}
use remnanode_setup_bot.Orchestrator.Prepared.{start_of}
use remnanode_setup_bot.Orchestrator.Prepared.Runs.{prepare-matches}
use remnanode_setup_bot.Tests.Dns.{std}
use remnanode_setup_bot.Tests.Orchestrator.{
  outside, config, job, job_id, host_id, begun, run_workflow,
}

-- 8.8.8.8.
abbrev input : PrepareInput
input = record {
  panel_id = "default";
  operator = 1;
  host_id = host_id;
  node_name = " node ";
  ip = v4 134744072;
  has_password = true;
}

abbrev empty : World
empty = record begun { db = record { deployments = []; steps = [] } }

abbrev prepared : Deployment
prepared = record job {
  node_name = "node";
  target_ip = v4 134744072;
  created_at = 4;
  updated_at = 13;
  started_at = some 8;
}

prepare_example : matches_start_input prepared (start_of job_id input) ≡ true
unfolding run_workflow prepare public_ip valid_create insert_deployment create_with
    create_deployment preflight_job preflight_of unique_or ask_preflight shown_call valid_panel_id
    valid_node_name
prepare_example =
    prepare-matches std outside config (λ _. some job_id) (λ _. some true) input empty
      {d = prepared} refl
