-- ===== src/Orchestrator/Stages.antt =====
-- The durable steps that every stage of the workflow is made of: deploymentForPanel, setState,
-- beginStage, completeStage, failStage, beginExecution and acquire of
-- internal/orchestrator/service.go, over the statements of internal/repository/postgres/postgres.go.
use remnanode_setup_bot.Base.{suc, ◌-◌, String}
use remnanode_setup_bot.Base.{Bool, true, false, not, ◌&&◌, ◌||◌, none, some, List, [], ◌∷◌}
use remnanode_setup_bot.Base.{◌==◌, nat_comparable, string_comparable, if◌then◌else◌, is_some}
use remnanode_setup_bot.Base.{Result, ok, err, ◌>>=◌, ◌>>◌, return, throw, attempt, lift, is_blank}
use remnanode_setup_bot.Base.Net.{addr_comparable}
use remnanode_setup_bot.Deployment.{Status, StepStatus, running, done, broken, Deployment}
use remnanode_setup_bot.Repository.{
  StateParams, valid_uuid, find_row, update_row, with_state, touch, with_node_uuid, upsert_step,
}
use remnanode_setup_bot.Orchestrator.World.{
  invalid_input, already_running, persistence_failed, Error, plain, safe, context_done, not_found,
  Config, Outside, state_written, World, Run, from_option, check_context, or_else, tick_on,
}

-- A statement on the tables: refused before it is sent if `valid` fails, else it fails or is carried
-- out on the row with the id, which must be there.
abbrev pub has_row : String → World → Bool
has_row id w = is_some (find_row id w.db.deployments)

abbrev pub failed_call : {A : Type 0} → Result Error A → Bool
failed_call (ok _) = false
failed_call (err _) = true

module _ (o : Outside) where
  -- `GetDeployment`.
  unfoldable pub get_deployment : String → Run Deployment
  get_deployment id w = (
    if valid_uuid id && not (o.db_fails w.tick)
        then from_option (find_row id w.db.deployments) not_found
        else err not_found,
    tick_on w,
  )

  -- `UpdateDeploymentState`.
  unfoldable pub update_deployment_state : String → StateParams → Run (Unit {0})
  update_deployment_state id p w =
      if valid_uuid id && not (is_blank p.current_step) && not (o.db_fails w.tick) && has_row id w
      then (
        ok tt,
        record w {
          tick = suc w.tick;
          db = record w.db {
            deployments = update_row id (with_state p (o.now w.tick)) w.db.deployments;
          };
          events = state_written id p.status ∷ w.events;
        },
      )
      else (err not_found, tick_on w)

  -- `RecordDeploymentStep`, one transaction.
  unfoldable pub record_deployment_step : String → String → StepStatus → Run (Unit {0})
  record_deployment_step id name status w =
      if valid_uuid id && not (is_blank name) && not (o.db_fails w.tick) && has_row id w
      then (
        ok tt,
        record w {
          tick = suc w.tick;
          db = record {
            deployments = update_row id (touch status name (o.now w.tick)) w.db.deployments;
            steps = upsert_step id name status (o.now w.tick) w.db.steps;
          };
        },
      )
      else (err not_found, tick_on w)

  -- `SetRemnawaveNodeUUID`.
  unfoldable pub set_remnawave_node_uuid : String → String → Run (Unit {0})
  set_remnawave_node_uuid id uuid w =
      if valid_uuid id && valid_uuid uuid && not (o.db_fails w.tick) && has_row id w
      then (
        ok tt,
        record w {
          tick = suc w.tick;
          db = record w.db {
            deployments = update_row id (with_node_uuid uuid (o.now w.tick)) w.db.deployments;
          };
        },
      )
      else (err not_found, tick_on w)

  -- `stepOrFallback`.
  unfoldable pub step_or_fallback : String → String
  step_or_fallback step = if is_blank step then "workflow" else step

  -- `setState`; an empty code is stored as NULL.
  unfoldable pub set_state : String → Status → String → String → Run (Unit {0})
  set_state id status step code = do
    check_context o
    or_else o
        (update_deployment_state id (record {
          status = status;
          current_step = step_or_fallback step;
          error_code = if code == "" then none else some code;
        }))
        (safe "STATE_PERSIST_FAILED" persistence_failed)

  -- `beginStage`.
  unfoldable pub begin_stage : String → Status → String → Run (Unit {0})
  begin_stage id status step = do
    check_context o
    set_state id status step ""
    or_else o (record_deployment_step id step running)
        (safe "STEP_PERSIST_FAILED" persistence_failed)

  -- `completeStage`.
  unfoldable pub complete_stage : String → String → Run (Unit {0})
  complete_stage id step = do
    check_context o
    or_else o (record_deployment_step id step done) (safe "STEP_PERSIST_FAILED" persistence_failed)

  -- `failStage`. Both writes are tried; it always ends in an error.
  unfoldable pub fail_stage : {A : Type 0} → String → String → Status → String → Error → Run A
  fail_stage id step status code e = do
    check_context o
    recorded ← attempt (if is_blank step then return tt else record_deployment_step id step broken)
    updated ← attempt (
        update_deployment_state id (record {
          status = status;
          current_step = step_or_fallback step;
          error_code = some code;
        }))
    check_context o
    if failed_call recorded || failed_call updated
        then throw (safe "FAILURE_PERSIST_FAILED" persistence_failed)
        else throw e

module _ (o : Outside) (config : Config) where
  -- `deploymentForPanel`.
  unfoldable pub deployment_for_panel : String → Run Deployment
  deployment_for_panel id = do
    item ← get_deployment o id
    if not (item.panel_id == "") && not (item.panel_id == config.panel_id)
        then throw not_found
        else return item

-- The map of running jobs, as the keys in it.
unfoldable pub is_in : String → List String → Bool
is_in id [] = false
is_in id (other ∷ ids) = other == id || is_in id ids

unfoldable pub without : String → List String → List String
without id [] = []
without id (other ∷ ids) = let rest = without id ids in if other == id then rest else other ∷ rest

-- `beginExecution` up to its lock's release: the job is entered, or refused.
unfoldable pub enter_execution : String → Run (Unit {0})
unfolding is_in
enter_execution id w =
    if is_blank id
    then (err (plain invalid_input), w)
    else if is_in id w.running
    then (err (plain already_running), w)
    else (ok tt, record w { running = id ∷ w.running })

-- The function that `beginExecution` returns.
unfoldable pub leave_execution : String → Run (Unit {0})
unfolding without
leave_execution id w = (ok tt, record w { running = without id w.running })

-- `beginExecution`, with its release deferred over the rest.
unfoldable pub with_execution : {A : Type 0} → String → Run A → Run A
unfolding enter_execution leave_execution
with_execution id body = do
  enter_execution id
  result ← attempt body
  leave_execution id
  lift result

module _ (o : Outside) where
  -- `acquire`: a slot of the semaphore, or the end of the context while waiting for one.
  unfoldable pub acquire : Run (Unit {0})
  acquire w =
      if o.slot w.tick
      then (ok tt, record w { tick = suc w.tick; slots = suc w.slots })
      else (err context_done, tick_on w)

  -- `releaseSlot`.
  unfoldable pub release_slot : Run (Unit {0})
  release_slot w = (ok tt, record w { slots = w.slots - 1 })

  -- `acquire`, with `releaseSlot` deferred over the rest.
  unfoldable pub with_slot : {A : Type 0} → Run A → Run A
  unfolding acquire release_slot
  with_slot body = do acquire; result ← attempt body; release_slot; lift result
