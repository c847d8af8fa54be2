-- ===== src/Orchestrator/Outcome.antt =====
-- What a success of Deploy means: Deploy, addDNS and the stages of internal/orchestrator/service.go.
use remnanode_setup_bot.Base.{ℕ, suc, String, ◌≡◌, refl}
use remnanode_setup_bot.Base.{
  Bool, true, false, not, ◌&&◌, ◌||◌, Option, none, some, List, [], ◌∷◌, arith, eq_iff,
}
use remnanode_setup_bot.Base.{
  ◌==◌, nat_comparable, string_comparable, if◌then◌else◌, is_none, is_some,
}
use remnanode_setup_bot.Base.{
  Result, ok, err, ◌>>=◌, lift, Triple, After, Triple-bind, Triple-return, Triple-throw, Triple-if,
  Triple-weaken, Triple-any, Triple-caught, is_blank,
}
use remnanode_setup_bot.Base.Net.{addr_comparable, Std}
use remnanode_setup_bot.Deployment.{Status, completed, Deployment}
use remnanode_setup_bot.Repository.{Db, StateParams, valid_uuid, find_row, update_row, with_state}
use remnanode_setup_bot.Remnawave.{Host}
use remnanode_setup_bot.Orchestrator.World.{
  Error, not_found, Config, Outside, state_written, World, Run, from_option, check_context, or_fail,
  or_else, tick_on,
}
use remnanode_setup_bot.Orchestrator.Stages.{
  get_deployment, update_deployment_state, set_state, deployment_for_panel, with_execution,
  with_slot, has_row, leave_execution, release_slot,
}
use remnanode_setup_bot.Orchestrator.Calls.{is_creating, is_waiting, is_adding}
use remnanode_setup_bot.Orchestrator.Connect.{publish, skip_dns, dns_step, add_dns_for, add_dns}
use remnanode_setup_bot.Orchestrator.Deploy.{
  StartInput, matches_start_input, Entry, finished, refused, runnable, entry, before_node, reload,
  vps_stage, node_stage, wait_stage, dns_stage, run_stages, enter, deploy_job, deploy,
}
use mathlib.Core.Path.{subst}
use remnanode_setup_bot.Repository.Laws.{find_row-update_row}

-- The status that the tables hold for a job.
abbrev pub row_status : String → Db → Option Status
row_status id db = elim (find_row id db.deployments) [ none ↦ none | some d ↦ some d.status ]

pub find_row-id :
    (id : String) (rows : List Deployment) {d : Deployment} → find_row id rows ≡ some d → d.id ≡ id
unfolding find_row
find_row-id id [] h = absurd (ground arith)
find_row-id id (row ∷ rows) {d} h = ground (arith, eq_iff row.id id, find_row-id id rows {d = d})

-- Of errors nothing is said here, nor of the state before.
abbrev pub Any : World → Type 0
Any w = Unit {0}

abbrev pub AnyError : Error → World → Type 0
AnyError e w = Unit {0}

abbrev Completed : String → World → Type 0
Completed id w = row_status id w.db ≡ some completed

status-update_row :
    (id : String) (p : StateParams) (now : ℕ) (rows : List Deployment)
    → is_some (find_row id rows) ≡ true
    → elim (find_row id (update_row id (with_state p now) rows)) [
      | none ↦ none
      | some d ↦ some d.status
    ]
      ≡ some p.status
unfolding with_state
status-update_row id p now rows h =
    ground (arith, eq_iff id id, find_row-update_row id id (with_state p now) rows (λ d. refl))

module _ (o : Outside) where
  pub updated :
      (id : String) (p : StateParams)
      → Triple Any
          (update_deployment_state o id p)
          (λ _ w. row_status id w.db ≡ some p.status)
          AnyError
  unfolding update_deployment_state
  updated id p = record {
    run = λ w _.
        by_test (valid_uuid id && not (is_blank p.current_step) && not (o.db_fails w.tick))
          (has_row id w) w refl;
  }
    where
      by_test :
          (b c : Bool) (w : World)
          → has_row id w ≡ c
          → After
              (λ _ w. row_status id w.db ≡ some p.status)
              AnyError
              (if b && c
                then (
                  ok tt,
                  record w {
                    tick = suc w.tick;
                    db = record w.db {
                      deployments = update_row id (with_state p (o.now w.tick)) w.db.deployments;
                    };
                    events = state_written id p.status ∷ w.events;
                  },
                )
                else (err not_found, tick_on w))
      by_test false c w h = tt
      by_test true false w h = tt
      by_test true true w h = status-update_row id p (o.now w.tick) w.db.deployments h

  or_fail-After :
      {A : Type 0} {Q : A → World → Type 0} (e : Error) (r : Result Error A)
      → Triple (λ w. After Q AnyError (r, w)) (or_fail o e r) Q AnyError
  unfolding or_fail
  or_fail-After e (ok a) = Triple-return a (λ w q. q)
  or_fail-After {Q} e (err _) =
      Triple-bind (Triple-any (check_context o)) (λ _. Triple-throw e (λ w _. tt))

  pub or_else-After :
      {A : Type 0} {P : World → Type 0} {Q : A → World → Type 0} {m : Run A} (e : Error)
      → Triple P m Q AnyError
      → Triple P (or_else o m e) Q AnyError
  unfolding or_else
  or_else-After e h = Triple-bind (Triple-caught h) (or_fail-After e)

  completed-after :
      (id step code : String)
      → Triple Any (set_state o id completed step code) (λ _. Completed id) AnyError
  unfolding set_state
  completed-after id step code =
      Triple-bind (Triple-any (check_context o)) λ _. or_else-After _ (updated id _)

  got :
      (id : String)
      → Triple Any
          (get_deployment o id)
          (λ d w. (d.id ≡ id) × (find_row id w.db.deployments ≡ some d))
          AnyError
  unfolding get_deployment
  got id = record {
    run = λ w _.
        by_test (valid_uuid id && not (o.db_fails w.tick)) (find_row id w.db.deployments) w refl;
  }
    where
      by_test :
          (b : Bool) (found : Option Deployment) (w : World)
          → find_row id w.db.deployments ≡ found
          → After
              (λ d w. (d.id ≡ id) × (find_row id w.db.deployments ≡ some d))
              AnyError
              (if b then from_option found not_found else err not_found, tick_on w)
      by_test false found w h = tt
      by_test true none w h = tt
      by_test true (some d) w h = (find_row-id id w.db.deployments h, h)

module _ (std : Std) (o : Outside) (config : Config) where
  publish-completes :
      (current : Deployment) (uuid : String)
      → Triple Any (publish o config current uuid) (λ _. Completed current.id) AnyError
  unfolding publish
  publish-completes current uuid = Triple-bind (Triple-any _) λ _. Triple-bind (Triple-any _) λ _.
      Triple-bind (Triple-any _) λ _. Triple-bind (Triple-any _) λ _.
        Triple-bind (Triple-any _)
          λ _. Triple-bind (Triple-any _) λ _. completed-after o current.id "completed" ""

  skip_dns-completes :
      (current : Deployment)
      → Triple Any (skip_dns o config current) (λ _. Completed current.id) AnyError
  unfolding skip_dns
  skip_dns-completes current =
      Triple-bind (Triple-any _)
        λ _. Triple-bind (Triple-any _) λ _. completed-after o current.id "completed" ""

  dns_step-completes :
      (current : Deployment) (uuid : String) (off : Bool)
      → Triple Any (dns_step o config current uuid off) (λ _. Completed current.id) AnyError
  unfolding dns_step
  dns_step-completes current uuid true = skip_dns-completes current
  dns_step-completes current uuid false = publish-completes current uuid

  add_dns_for-completes :
      (current : Deployment) (uuid : Option String)
      → Triple Any (add_dns_for o config current uuid) (λ _. Completed current.id) AnyError
  unfolding add_dns_for
  add_dns_for-completes current none = Triple-throw _ (λ w _. tt)
  add_dns_for-completes current (some uuid) =
      Triple-bind (Triple-any _) λ _. dns_step-completes current uuid config.dns_disabled

  dns_stage-completes :
      (current : Deployment)
      → Triple Any (dns_stage std o config current) (λ _. Completed current.id) AnyError
  unfolding dns_stage add_dns
  dns_stage-completes current =
      Triple-if (is_adding current.status || is_waiting current.status)
        (λ _. add_dns_for-completes current current.node_uuid) (λ _. Triple-throw _ (λ w _. tt))

  reload-same : (id : String) → Triple Any (reload std o config id) (λ d _. d.id ≡ id) AnyError
  unfolding reload
  reload-same id =
      or_else-After o _ (Triple-weaken (got o id) (λ w p. p) (λ d w (e, _). e) (λ _ w e. e))

  vps_stage-same :
      (current : Deployment)
      → Triple Any (vps_stage std o config current) (λ d _. d.id ≡ current.id) AnyError
  unfolding vps_stage
  vps_stage-same current =
      Triple-if (before_node current.status)
        (λ _. Triple-bind (Triple-any _) (λ _. reload-same current.id))
        (λ _. Triple-return current (λ w _. refl))

  node_stage-same :
      (host : Host) (current : Deployment)
      → Triple Any (node_stage std o config host current) (λ d _. d.id ≡ current.id) AnyError
  unfolding node_stage
  node_stage-same host current =
      Triple-if (is_creating current.status || is_none current.node_uuid)
        (λ _. Triple-bind (Triple-any _) (λ _. reload-same current.id))
        (λ _. Triple-return current (λ w _. refl))

  wait_stage-same :
      (current : Deployment)
      → Triple Any (wait_stage std o config current) (λ d _. d.id ≡ current.id) AnyError
  unfolding wait_stage
  wait_stage-same current =
      Triple-if (is_waiting current.status || is_creating current.status)
        (λ _. Triple-bind (Triple-any _) (λ _. reload-same current.id))
        (λ _. Triple-return current (λ w _. refl))

  -- A stage after one that hands on the same job.
  same_job :
      {m : Run Deployment} {f : Deployment → Run (Unit {0})} (id : String)
      → Triple Any m (λ d _. d.id ≡ id) AnyError
      → ((d : Deployment) → Triple Any (f d) (λ _. Completed d.id) AnyError)
      → Triple Any (m >>= f) (λ _. Completed id) AnyError
  same_job {f} id h k = Triple-bind h λ d. record {
    run = λ w e. subst (λ i. After (λ _. Completed i) AnyError (f d w)) e ((k d).run w tt);
  }

  run_stages-completes :
      (current : Deployment)
      → Triple Any (run_stages std o config current) (λ _. Completed current.id) AnyError
  unfolding run_stages
  run_stages-completes current = Triple-bind (Triple-any _) λ host.
      same_job current.id (vps_stage-same current) λ provisioned.
        same_job provisioned.id (node_stage-same host provisioned) λ with_node.
          same_job with_node.id (wait_stage-same with_node) λ ready. dns_stage-completes ready

  -- What the tables hold when a job was read.
  abbrev Read : String → Deployment → World → Type 0
  Read id d w = (d.id ≡ id) × (find_row id w.db.deployments ≡ some d)

  panel-Read : (id : String) → Triple Any (deployment_for_panel o config id) (Read id) AnyError
  unfolding deployment_for_panel
  panel-Read id = Triple-bind (got o id) λ item.
      Triple-if (not (item.panel_id == "") && not (item.panel_id == config.panel_id))
        (λ _. Triple-throw _ (λ w _. tt)) (λ _. Triple-return item (λ w r. r))

  entry-finished : (s : Status) → entry s ≡ finished → s ≡ completed
  unfolding entry
  entry-finished s h = ground arith

  -- The row read is the row of a job that was completed before.
  Read-Completed :
      (id : String) (current : Deployment) (w : World)
      → current.status ≡ completed
      → Read id current w
      → Completed id w
  Read-Completed id current w c (e, r) = ground arith

  enter-completes :
      (id : String) (current : Deployment) (e : Entry)
      → entry current.status ≡ e
      → Triple (Read id current) (enter std o config current e) (λ _. Completed id) AnyError
  unfolding enter
  enter-completes id current finished h =
      Triple-return tt (λ w r. Read-Completed id current w (entry-finished current.status h) r)
  enter-completes id current (refused kind) h = Triple-throw _ (λ w _. tt)
  enter-completes id current runnable h = record {
    run = λ w (e, r).
        subst (λ i. After (λ _. Completed i) AnyError (run_stages std o config current w)) e
          ((run_stages-completes current).run w tt);
  }

  job-completes :
      (input : StartInput)
      → Triple Any (deploy_job std o config input) (λ _. Completed input.deployment_id) AnyError
  unfolding deploy_job
  job-completes input = Triple-bind (or_else-After o _ (panel-Read input.deployment_id)) λ current.
      Triple-if (matches_start_input current input)
        (λ _. enter-completes input.deployment_id current (entry current.status) refl)
        (λ _. Triple-throw _ (λ w _. tt))

-- Giving back the slot and the job changes nothing in the tables.
module _ (o : Outside) (F : Db → Type 0) where
  abbrev OnDb : Result Error (Unit {0}) → World → Type 0
  OnDb r w = After (λ _ w. F w.db) AnyError (r, w)

  handed-lift : (r : Result Error (Unit {0})) → Triple (OnDb r) (lift r) (λ _ w. F w.db) AnyError
  unfolding lift
  handed-lift (ok a) = record { run = λ w h. h }
  handed-lift (err e) = record { run = λ w h. h }

  released : (r : Result Error (Unit {0})) → Triple (OnDb r) (release_slot o) (λ _. OnDb r) AnyError
  unfolding release_slot
  released (ok a) = record { run = λ w h. h }
  released (err e) = record { run = λ w h. h }

  left :
      (id : String) (r : Result Error (Unit {0}))
      → Triple (OnDb r) (leave_execution id) (λ _. OnDb r) AnyError
  unfolding leave_execution
  left id (ok a) = record { run = λ w h. h }
  left id (err e) = record { run = λ w h. h }

  with_slot-after :
      {body : Run (Unit {0})}
      → Triple Any body (λ _ w. F w.db) AnyError
      → Triple Any (with_slot o body) (λ _ w. F w.db) AnyError
  unfolding with_slot
  with_slot-after h =
      Triple-bind (Triple-any _)
        λ _. Triple-bind (Triple-caught h) λ r. Triple-bind (released r) λ _. handed-lift r

  with_execution-after :
      {body : Run (Unit {0})} (id : String)
      → Triple Any body (λ _ w. F w.db) AnyError
      → Triple Any (with_execution id body) (λ _ w. F w.db) AnyError
  unfolding with_execution
  with_execution-after id h =
      Triple-bind (Triple-any _)
        λ _. Triple-bind (Triple-caught h) λ r. Triple-bind (left id r) λ _. handed-lift r

module _ (std : Std) (o : Outside) (config : Config) where
  deploy-completes :
      (input : StartInput)
      → Triple Any (deploy std o config input) (λ _. Completed input.deployment_id) AnyError
  unfolding deploy
  deploy-completes input =
      Triple-if (is_blank input.deployment_id) (λ _. Triple-throw _ (λ w _. tt))
        (λ _.
          with_execution-after o (λ db. row_status input.deployment_id db ≡ some completed)
            input.deployment_id
            (with_slot-after o (λ db. row_status input.deployment_id db ≡ some completed)
              (job-completes std o config input)))

  ok-after :
      (Q : World → Type 0) (r : Result Error (Unit {0}) × World)
      → r.0 ≡ ok tt
      → After (λ _. Q) AnyError r
      → Q r.1
  ok-after Q (ok _, w) e q = q
  ok-after Q (err _, w) e q = absurd (ground arith)

  -- Deploy returns without error only if the tables then hold the job as COMPLETED.
  pub deploy_success-completed :
      (input : StartInput) (w : World)
      → (deploy std o config input w).0 ≡ ok tt
      → row_status input.deployment_id (deploy std o config input w).1.db ≡ some completed
  deploy_success-completed input w h =
      ok-after (Completed input.deployment_id) (deploy std o config input w) h
        ((deploy-completes input).run w tt)
