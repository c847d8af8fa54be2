-- ===== src/Orchestrator/Prepared/Runs.antt =====
-- What Prepare of internal/orchestrator/service.go leaves for Deploy.
use mathlib.Core.Path.{subst}
use remnanode_setup_bot.Base.{
  ℕ, String, ◌≡◌, refl, sym, Bool, true, false, not, ◌&&◌, Option, none, some, List, nat_comparable,
  string_comparable, Result, ok, err, lift, trim_space, is_some, arith, eq_iff, Bool-cases,
  Option-cases, inl, inr, Keeps, Keeps-return, Triple, After, Triple-bind, Triple-return,
  Triple-throw, Triple-if, Triple-weaken, Triple-any, Triple-caught, Triple-Keeps,
}
use remnanode_setup_bot.Base.Net.{addr_beq_iff, unmap, addr_comparable, Std}
use remnanode_setup_bot.Deployment.{Deployment}
use remnanode_setup_bot.Repository.{find_row}
use remnanode_setup_bot.Remnawave.{Host}
use remnanode_setup_bot.Orchestrator.Nodes.Laws.{find_host-uuid}
use remnanode_setup_bot.Orchestrator.World.{Error, Config, Outside, World, Run, check_context}
use remnanode_setup_bot.Orchestrator.Nodes.{Selected, find_host}
use remnanode_setup_bot.Orchestrator.Calls.{step_preflight}
use remnanode_setup_bot.Orchestrator.Deploy.{matches_start_input, selected_host, hosts_of}
use remnanode_setup_bot.Orchestrator.Prepare.{
  PrepareInput, create_with, create_deployment, insert_deployment, created_row, params_of,
  preflight_job, preflight_of, ask_preflight, refuses, prepare, valid_create,
}
use remnanode_setup_bot.Orchestrator.Outcome.{Any, AnyError, or_else-After}
use remnanode_setup_bot.Orchestrator.Steady.{
  Steady, begin_stage-Keeps, complete_stage-Keeps, fail_stage-Keeps,
}
use remnanode_setup_bot.Orchestrator.Steady.Stable.{Stable-Steady}
use remnanode_setup_bot.Orchestrator.Prepared.{
  start_of, IsFor, HasRow, HasRow-Stable, get-IsFor, job-Returned,
}

module _ (std : Std) (o : Outside) (config : Config) (new_id : ℕ → Option String)
    (passes : ℕ → Option Bool) (input : PrepareInput) where
  abbrev IsPrepared : Deployment → Type 0
  IsPrepared d = IsFor d.id input d

  module _ (id : String) where
    abbrev steady : Steady std o config (HasRow id input)
    steady = Stable-Steady (HasRow-Stable id input o)

    kept :
        {A : Type 0} {m : Run A}
        → Keeps (HasRow id input) m
        → Triple (HasRow id input) m (λ _. HasRow id input) AnyError
    kept k = Triple-weaken (Triple-Keeps k) (λ w h. h) (λ _ w h. h) (λ _ w h. tt)

    preflight_of-Keeps :
        (answer : Option Bool)
        → Keeps (HasRow id input) (preflight_of std o config new_id passes id answer)
    unfolding preflight_of
    preflight_of-Keeps none = fail_stage-Keeps steady id step_preflight _ _ _ refl
    preflight_of-Keeps (some false) = fail_stage-Keeps steady id step_preflight _ _ _ refl
    preflight_of-Keeps (some true) = Keeps-return (HasRow id input) tt

    ask_preflight-Keeps : Keeps (HasRow id input) (ask_preflight std o config new_id passes)
    unfolding ask_preflight
    ask_preflight-Keeps = record { run = λ w h. h }

    preflight_job-IsPrepared :
        Triple
          (HasRow id input)
          (preflight_job std o config new_id passes id)
          (λ d w. IsPrepared d)
          AnyError
    unfolding preflight_job
    preflight_job-IsPrepared =
        Triple-bind (kept (begin_stage-Keeps steady id _ step_preflight refl)) (λ _.
          Triple-bind (kept ask_preflight-Keeps) (λ answer.
            Triple-bind (kept (HasRow-Stable id input o).context) (λ _.
              Triple-bind (kept (preflight_of-Keeps answer)) (λ _.
                Triple-bind (kept (complete_stage-Keeps steady id step_preflight)) (λ _.
                  Triple-bind (or_else-After o _ (get-IsFor id input o)) (λ d. record {
                    run = λ w (e, i).
                        (Triple-bind {P = Any} (Triple-any _) (λ _. Triple-bind (Triple-any _) (λ _.
                            Triple-bind (Triple-any _) (λ _. Triple-bind (Triple-any _) (λ _.
                              Triple-return d
                                (λ w _. subst (λ n. IsFor n input d) (sym e) i)))))).run
                          w tt;
                  }))))))

  insert-HasRow :
      (selected : Selected) (id : String)
      → selected.host.uuid ≡ input.host_id
      → Triple Any
          (insert_deployment std o config new_id passes
            (params_of std o config new_id passes input selected id))
          (λ d w. HasRow d.id input w)
          AnyError
  unfolding insert_deployment matches_start_input find_row
  insert-HasRow selected id u =
      let p = params_of std o config new_id passes input selected id in
      record {
        run = λ w _.
            elim (Bool-cases (
              valid_create p
              && not (o.db_fails w.tick)
              && not (is_some (find_row id w.db.deployments)))) [
                | inl v ↦
                    rw (v, After)
                      (
                        created_row p (o.now w.tick),
                        (
                          ground (arith, eq_iff id id),
                          ground (
                            arith,
                            u,
                            eq_iff id id,
                            eq_iff selected.host.uuid input.host_id,
                            eq_iff (trim_space input.node_name) (trim_space input.node_name),
                            addr_beq_iff (unmap input.ip) (unmap input.ip),
                          ),
                        ),
                      )
                | inr v ↦ rw (v, After) tt
              ];
      }

  create_with-HasRow :
      (selected : Selected) (id : Option String)
      → selected.host.uuid ≡ input.host_id
      → Triple Any
          (create_with std o config new_id passes input selected id)
          (λ d w. HasRow d.id input w)
          AnyError
  unfolding create_with
  create_with-HasRow selected none u = Triple-throw _ (λ w _. tt)
  create_with-HasRow selected (some id) u = insert-HasRow selected id u

  create-HasRow :
      (selected : Selected)
      → selected.host.uuid ≡ input.host_id
      → Triple Any
          (create_deployment std o config new_id passes input selected)
          (λ d w. HasRow d.id input w)
          AnyError
  unfolding create_deployment
  create-HasRow selected u = record {
    run = λ w _. (create_with-HasRow selected (new_id w.tick) u).run _ tt;
  }

  abbrev IsSelected : Selected → Type 0
  IsSelected s = s.host.uuid ≡ input.host_id

  hosts_of-IsSelected :
      (answer : Option (List Host))
      → Triple Any (hosts_of std o config input.host_id answer) (λ s w. IsSelected s) AnyError
  unfolding hosts_of lift
  hosts_of-IsSelected none = Triple-bind (Triple-any _) (λ _. Triple-throw _ (λ w _. tt))
  hosts_of-IsSelected (some hosts) = record {
    run = λ w _. elim (Option-cases (find_host input.host_id hosts)) [
      | inl e ↦ rw (e, After) tt
      | inr (s, e) ↦ rw (e, After) (find_host-uuid input.host_id hosts e)
    ];
  }

  selected_host-IsSelected :
      Triple Any (selected_host std o config input.host_id) (λ s w. IsSelected s) AnyError
  unfolding selected_host
  selected_host-IsSelected = Triple-bind (Triple-any _) hosts_of-IsSelected

  abbrev Answer : Result Error Selected → World → Type 0
  Answer r w = After (λ s _. IsSelected s) AnyError (r, w)

  context-Answer :
      (r : Result Error Selected) → Triple (Answer r) (check_context o) (λ _. Answer r) AnyError
  unfolding check_context
  context-Answer (ok x) = record {
    run = λ w h. elim (Bool-cases (o.done w.tick)) [
      | inl e ↦ rw (e, After) tt
      | inr e ↦ rw (e, After) h
    ];
  }
  context-Answer (err x) = record {
    run = λ w h. elim (Bool-cases (o.done w.tick)) [
      | inl e ↦ rw (e, After) tt
      | inr e ↦ rw (e, After) tt
    ];
  }

  lift-IsSelected :
      (r : Result Error Selected) → Triple (Answer r) (lift r) (λ s w. IsSelected s) AnyError
  unfolding lift
  lift-IsSelected (ok s) = record { run = λ w h. h }
  lift-IsSelected (err e) = record { run = λ w h. h }

  prepare-Triple :
      Triple Any (prepare std o config new_id passes input) (λ d w. IsPrepared d) AnyError
  unfolding prepare
  prepare-Triple =
      Triple-if (refuses std o config new_id passes input) (λ _. Triple-throw _ (λ w _. tt))
        (λ _. Triple-bind (Triple-caught selected_host-IsSelected) (λ r.
          Triple-bind (context-Answer r) (λ _. Triple-bind (lift-IsSelected r) (λ selected. record {
            run = λ w u.
                (Triple-bind {P = Any} (Triple-any _) (λ unique. Triple-bind (Triple-any _) (λ _.
                    Triple-bind (or_else-After o _ (create-HasRow selected u)) (λ created.
                      job-Returned o IsPrepared created.id created.id input
                        (preflight_job-IsPrepared created.id))))).run
                  w tt;
          }))))

-- The job that Prepare returns is one that Deploy accepts for the same input with that job's id: it
-- has the operator, the Host, the trimmed name and the address of the input.
pub prepare-matches :
    (std : Std) (o : Outside) (config : Config) (new_id : ℕ → Option String)
    (passes : ℕ → Option Bool) (input : PrepareInput) (w : World) {d : Deployment}
    → (prepare std o config new_id passes input w).0 ≡ ok d
    → matches_start_input d (start_of d.id input) ≡ true
prepare-matches std o config new_id passes input w {d} h =
    returned _ h ((prepare-Triple std o config new_id passes input).run w tt)
  where
    returned :
        (r : Result Error Deployment × World)
        → r.0 ≡ ok d
        → After (λ d _. IsFor d.id input d) AnyError r
        → matches_start_input d (start_of d.id input) ≡ true
    returned (ok e, v) h k = ground (arith, h, k)
    returned (err e, v) h k = absurd (ground arith)
