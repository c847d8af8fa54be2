-- ===== src/Tests/Provisioner.antt =====
-- Stages that all answer, and the theorems on internal/provisioner/engine.go at them.
use remnanode_setup_bot.Base.{
  String, ◌≡◌, ◌⊎◌, refl, true, false, none, some, List, [], ◌∷◌, map, if◌then◌else◌, ◌==◌,
  string_comparable, is_blank,
}
use remnanode_setup_bot.Deployment.{Step, done}
use remnanode_setup_bot.Repository.{upsert_step, new_step, with_step}
use remnanode_setup_bot.Repository.Laws.{step_status}
use remnanode_setup_bot.Provisioner.{
  Stage, World, Outside, stage_failed, apply_failed, stage_names, same_names, new_engine, run_stage,
  applied_stage, validated_stage, steps_of, mark_completed, record_status, finish_stage,
  start_stage, turn, run_stages, run_with_progress,
}
use remnanode_setup_bot.Provisioner.Loop.{AllCompleted, Stopped}
use remnanode_setup_bot.Provisioner.Runs.{
  run_with_progress-completes, run_with_progress-stops, run_with_progress-resumed, skip_report,
}

abbrev plain_stage : String → Stage
plain_stage name = record {
  name = name;
  inspect = λ _. some false;
  apply = λ _. true;
  validate = λ _. true;
}

-- The stage `firewall` fails.
abbrev broken_stage : String → Stage
broken_stage name = record {
  name = name;
  inspect = λ _. some false;
  apply = λ _. if name == "firewall" then false else true;
  validate = λ _. true;
}

abbrev stages : List Stage
stages = map plain_stage stage_names

abbrev broken_stages : List Stage
broken_stages = map broken_stage stage_names

abbrev job_id : String
job_id = "00000000-0000-0000-0000-000000000001"

abbrev outside : Outside
outside = record {
  ended = λ _. false;
  list_fails = λ _. false;
  record_fails = λ _. false;
  now = λ t. t;
}

abbrev fresh : World
fresh = record { tick = 0; steps = []; events = [] }

completes_example : AllCompleted job_id stages (run_with_progress outside job_id stages fresh).1
unfolding new_engine same_names run_with_progress is_blank run_stages turn start_stage finish_stage
    run_stage applied_stage validated_stage record_status mark_completed steps_of upsert_step
    new_step with_step step_status
completes_example =
    run_with_progress-completes outside job_id stages fresh {engine = stages} refl tt refl

stops_example :
    let w' = (run_with_progress outside job_id broken_stages fresh).1 in
    ((w'.steps ≡ []) × (w'.events ≡ [])) ⊎ Stopped job_id broken_stages fresh w'
unfolding new_engine same_names run_with_progress is_blank run_stages turn start_stage finish_stage
    run_stage applied_stage validated_stage record_status mark_completed steps_of upsert_step
    new_step with_step step_status
stops_example =
    run_with_progress-stops outside job_id broken_stages fresh {engine = broken_stages}
      {x = stage_failed "firewall" apply_failed true} refl tt refl

abbrev row : Step
row = record {
  deployment_id = job_id;
  name = "system";
  status = done;
  started_at = some 1;
  completed_at = some 2;
}

abbrev recorded : World
recorded = record { tick = 0; steps = row ∷ []; events = [] }

resumed_example : run_with_progress outside job_id (plain_stage "system" ∷ []) recorded ≡ (
  record { reports = skip_report (plain_stage "system") ∷ []; error = none },
  record { tick = 1; steps = row ∷ []; events = [] },
)
unfolding is_blank step_status
resumed_example =
    run_with_progress-resumed outside job_id (plain_stage "system" ∷ []) recorded (refl, tt)
      (refl, tt) refl refl
