-- ===== src/Provisioner.antt =====
-- The engine that runs the stages of the provisioning in order, with their progress in the table of
-- steps: internal/provisioner/engine.go. Summaries, durations and the callback are left out. A stage
-- answers by the number of the call, so that it may do anything at each call.
pub mod Quoting
pub mod Progress
pub mod Touches
pub mod Loop
pub mod Runs
use remnanode_setup_bot.Base.{
  ℕ, suc, String, Bool, true, false, ◌&&◌, Option, none, some, List, [], ◌∷◌, ◌++◌, if◌then◌else◌,
  ◌==◌, string_comparable, is_blank,
}
use remnanode_setup_bot.Deployment.{StepStatus, running, done, broken, skipped, Step}
use remnanode_setup_bot.Repository.{upsert_step}

-- `StageNames`.
abbrev pub stage_names : List String
stage_names =
    "system" ∷ "docker" ∷ "sysctl" ∷ "limits" ∷ "firewall" ∷ "fail2ban" ∷ "remnanode"
    ∷ "node_exporter" ∷ "speedtest_exporter" ∷ "logrotate" ∷ "xray_sni" ∷ "healthcheck" ∷ []

-- `Stage`: an inspection says whether the stage is satisfied, or fails.
pub record Stage : Type 0 where
  pub name : String
  pub inspect : ℕ → Option Bool
  pub apply : ℕ → Bool
  pub validate : ℕ → Bool

pub data StageError : Type 0 where
  inspection_failed apply_failed validation_failed : StageError

pub data Error : Type 0 where
  id_required progress_unavailable context_done not_recorded : Error
  stage_failed : String → StageError → Bool → Error

-- `Report`, without its summary and duration.
pub record Report : Type 0 where
  pub name : String
  pub status : StepStatus
  pub changed : Bool

pub data Event : Type 0 where
  inspected : String → Event
  applied : String → Event
  validated : String → Event

-- The table of steps, the number of calls made, and what was done to the VPS, newest first.
pub record World : Type 0 where
  pub tick : ℕ
  pub steps : List Step
  pub events : List Event

-- The answers of the context and of the store.
pub record Outside : Type 0 where
  pub ended : ℕ → Bool
  pub list_fails : ℕ → Bool
  pub record_fails : ℕ → Bool
  pub now : ℕ → ℕ

-- What `runStage` returns: whether it changed the VPS, and its error.
pub record Ran : Type 0 where
  pub changed : Bool
  pub error : Option StageError

-- What a run returns: the reports, and its error.
pub record Outcome : Type 0 where
  pub reports : List Report
  pub error : Option Error

abbrev pub act : Event → World → World
act event w = record w { tick = suc w.tick; events = event ∷ w.events }

-- `NewEngine`: the stages must be those of `StageNames`, in that order.
unfoldable pub same_names : List Stage → List String → Bool
same_names [] [] = true
same_names (stage ∷ stages) (name ∷ names) = stage.name == name && same_names stages names
same_names _ _ = false

unfoldable pub new_engine : List Stage → Option (List Stage)
unfolding same_names
new_engine stages = if same_names stages stage_names then some stages else none

unfoldable pub validated_stage : Stage → World → Ran × World
validated_stage stage w = (
  record { changed = true; error = if stage.validate w.tick then none else some validation_failed },
  act (validated stage.name) w,
)

unfoldable pub applied_stage : Stage → World → Ran × World
unfolding validated_stage
applied_stage stage w =
    if stage.apply w.tick
    then validated_stage stage (act (applied stage.name) w)
    else (record { changed = true; error = some apply_failed }, act (applied stage.name) w)

-- `runStage`.
unfoldable pub run_stage : Stage → World → Ran × World
unfolding applied_stage
run_stage stage w =
    let w' = act (inspected stage.name) w in
    elim (stage.inspect w.tick) [
      | none ↦ (record { changed = false; error = some inspection_failed }, w')
      | some satisfied ↦
          if satisfied
          then (record { changed = false; error = none }, w')
          else applied_stage stage w'
    ]

-- The rows of one deployment, as `ListDeploymentSteps` returns them.
unfoldable pub steps_of : String → List Step → List Step
steps_of id [] = []
steps_of id (s ∷ ss) = let rest = steps_of id ss in if s.deployment_id == id then s ∷ rest else rest

abbrev pub is_done : StepStatus → Bool
is_done done = true
is_done _ = false

-- The loop that fills the map `completed`.
unfoldable pub mark_completed : List Step → (String → Bool) → String → Bool
mark_completed [] completed name = completed name
mark_completed (s ∷ ss) completed name =
    mark_completed ss (λ other. if other == s.name then is_done s.status else completed other) name

module _ (o : Outside) where
  -- `record`.
  unfoldable pub record_status : String → String → StepStatus → World → Bool × World
  record_status id name status w =
      if o.record_fails w.tick then (false, record w { tick = suc w.tick }) else (
        true,
        record w { tick = suc w.tick; steps = upsert_step id name status (o.now w.tick) w.steps },
      )

  abbrev stage_report : Stage → StepStatus → Bool → Report
  stage_report stage status changed = record {
    name = stage.name;
    status = status;
    changed = changed;
  }

  abbrev stopped : List Report → Error → Outcome
  stopped reports e = record { reports = reports; error = some e }

  abbrev passed : List Report → Outcome
  passed reports = record { reports = reports; error = none }

  -- A stage that was run: its failure or its completion is recorded.
  unfoldable pub finish_stage : String → Stage → Ran → World → Outcome × World
  finish_stage id stage ran w = elim (ran.error) [
    | some e ↦
        let (recorded, w') = record_status id stage.name broken w in
        (
          stopped (stage_report stage broken ran.changed ∷ []) (stage_failed stage.name e recorded),
          w',
        )
    | none ↦
        let (recorded, w') = record_status id stage.name done w in
        if recorded
        then (passed (stage_report stage done ran.changed ∷ []), w')
        else (stopped [] not_recorded, w')
  ]

  unfoldable pub start_stage : String → Stage → World → Outcome × World
  unfolding finish_stage
  start_stage id stage w =
      let (recorded, w') = record_status id stage.name running w in
      let (ran, w'') = run_stage stage w' in
      if recorded then finish_stage id stage ran w'' else (stopped [] not_recorded, w')

  -- The body of the loop over the stages.
  unfoldable pub turn : String → (String → Bool) → Stage → World → Outcome × World
  unfolding start_stage
  turn id completed stage w =
      if completed stage.name
      then (passed (stage_report stage skipped false ∷ []), w)
      else if o.ended w.tick
      then (stopped [] context_done, record w { tick = suc w.tick })
      else start_stage id stage (record w { tick = suc w.tick })

  abbrev after_turn : Outcome × World → (World → Outcome × World) → Outcome × World
  after_turn (first, w) rest = elim (first.error) [
    | some e ↦ (first, w)
    | none ↦
        let (later, w') = rest w in (record later { reports = first.reports ++ later.reports }, w')
  ]

  -- The loop over the stages.
  unfoldable pub run_stages : String → (String → Bool) → List Stage → World → Outcome × World
  run_stages id completed [] w = (passed [], w)
  run_stages id completed (stage ∷ stages) w =
      after_turn (turn id completed stage w) (run_stages id completed stages)

  -- `RunWithProgress`.
  unfoldable pub run_with_progress : String → List Stage → World → Outcome × World
  run_with_progress id stages w =
      if is_blank id
      then (stopped [] id_required, w)
      else if o.list_fails w.tick
      then (stopped [] progress_unavailable, record w { tick = suc w.tick })
      else run_stages id (mark_completed (steps_of id w.steps) (λ _. false)) stages
          (record w { tick = suc w.tick })
