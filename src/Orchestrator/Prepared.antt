-- ===== src/Orchestrator/Prepared.antt =====
-- A prepared job in the tables: Prepare of internal/orchestrator/service.go.
pub mod Runs
use remnanode_setup_bot.Base.{
  String, ◌≡◌, refl, Bool, true, false, not, ◌&&◌, some, List, ◌==◌, nat_comparable,
  string_comparable, if◌then◌else◌, Result, ok, err, lift, is_blank, arith, Bool-cases, inl, inr,
  Keeps, Triple, After, Triple-bind, Triple-weaken, Triple-caught, Triple-Keeps,
}
use remnanode_setup_bot.Base.Net.{addr_comparable}
use remnanode_setup_bot.Deployment
use remnanode_setup_bot.Deployment.{Deployment}
use remnanode_setup_bot.Repository.{
  valid_uuid, find_row, update_row, with_state, touch, with_node_uuid,
}
use remnanode_setup_bot.Repository.Laws.{find_row-update_row}
use remnanode_setup_bot.Orchestrator.World.{Error, Outside, World, Run, check_context}
use remnanode_setup_bot.Orchestrator.Stages.{
  get_deployment, update_deployment_state, record_deployment_step, set_remnawave_node_uuid,
  enter_execution, leave_execution, with_execution, acquire, release_slot, with_slot, is_in,
}
use remnanode_setup_bot.Orchestrator.Calls.{
  ask_certificate, ask_secret_key, ask_provision, ask_nodes, ask_create, ask_node, ask_add_ip,
  ask_poll_time, ask_hosts,
}
use remnanode_setup_bot.Orchestrator.Deploy.{StartInput, matches_start_input}
use remnanode_setup_bot.Orchestrator.Prepare.{PrepareInput}
use remnanode_setup_bot.Orchestrator.Outcome.{AnyError, find_row-id}
use remnanode_setup_bot.Orchestrator.Steady.Stable.{Stable}

-- The confirmation of a prepared job: the same input, with the job's id.
abbrev pub start_of : String → PrepareInput → StartInput
start_of id input = record {
  deployment_id = id;
  operator = input.operator;
  host_id = input.host_id;
  node_name = input.node_name;
  ip = input.ip;
}

abbrev pub IsFor : String → PrepareInput → Deployment → Type 0
IsFor id input d = matches_start_input d (start_of id input) ≡ true

-- The table has the job with what was put into it.
abbrev pub HasRow : String → PrepareInput → World → Type 0
HasRow id input w = (d : Deployment) × ((find_row id w.db.deployments ≡ some d) × IsFor id input d)

module _ (id : String) (input : PrepareInput) where
  -- An update of a row that leaves what was put into it.
  update-HasRow :
      (other : String) (f : Deployment → Deployment) (rows : List Deployment)
      → ((d : Deployment) → (f d).id ≡ d.id)
      → ((d : Deployment) → IsFor id input d → IsFor id input (f d))
      → (d : Deployment) × ((find_row id rows ≡ some d) × IsFor id input d)
      → (d : Deployment) × ((find_row id (update_row other f rows) ≡ some d) × IsFor id input d)
  update-HasRow other f rows same keeps (d, (r, i)) = elim (Bool-cases (other == id)) [
    | inl e ↦ (f d, (ground (arith, e, r, find_row-update_row other id f rows same), keeps d i))
    | inr e ↦ (d, (ground (arith, e, r, find_row-update_row other id f rows same), i))
  ]

  if-HasRow :
      (b : Bool) (w v : World) (r e : Result Error (Unit {0}))
      → HasRow id input w
      → HasRow id input v
      → HasRow id input
          (let both : Result Error (Unit {0}) × World = if b then (r, v) else (e, w) in both.1)
  if-HasRow true w v r e t s = s
  if-HasRow false w v r e t s = t

  pub HasRow-Stable : (o : Outside) → Stable o (HasRow id input)
  unfolding check_context get_deployment update_deployment_state record_deployment_step
      set_remnawave_node_uuid ask_certificate ask_secret_key ask_provision ask_nodes ask_create
      ask_node ask_add_ip ask_poll_time ask_hosts with_state touch with_node_uuid
      matches_start_input
  HasRow-Stable o = record {
    context = record { run = λ w h. h };
    read = λ id. record { run = λ w h. h };
    write = λ other p. record {
      run = λ w h.
          if-HasRow _ _ _ _ _ h (update-HasRow other _ w.db.deployments (λ d. refl) (λ d i. i) h);
    };
    record_step = λ other name status. record {
      run = λ w h.
          if-HasRow _ _ _ _ _ h (update-HasRow other _ w.db.deployments (λ d. refl) (λ d i. i) h);
    };
    record_node = λ other uuid. record {
      run = λ w h.
          if-HasRow _ _ _ _ _ h (update-HasRow other _ w.db.deployments (λ d. refl) (λ d i. i) h);
    };
    certificate = λ sni. record { run = λ w h. h };
    secret_key = record { run = λ w h. h };
    provision = λ input. record { run = λ w h. h };
    nodes = record { run = λ w h. h };
    create = λ input. record { run = λ w h. h };
    node = λ uuid. record { run = λ w h. h };
    add_ip = λ sni ip. record { run = λ w h. h };
    poll_time = record { run = λ w h. h };
    hosts = record { run = λ w h. h };
  }

  -- What is read back is the job.
  pub get-IsFor :
      (o : Outside)
      → Triple
          (HasRow id input)
          (get_deployment o id)
          (λ d w. (d.id ≡ id) × IsFor id input d)
          AnyError
  unfolding get_deployment
  get-IsFor o = record {
    run = λ w (d, (r, i)). elim (Bool-cases (valid_uuid id && not (o.db_fails w.tick))) [
      | inl t ↦ rw (t, r, After) (find_row-id id w.db.deployments r, i)
      | inr t ↦ rw (t, After) tt
    ];
  }

-- A fact on what a call returns stands through the release of the slot and of the job.
module _ (o : Outside) (Q : Deployment → Type 0) where
  abbrev Fact : Deployment → World → Type 0
  Fact d w = Q d

  abbrev Returned : Result Error Deployment → World → Type 0
  Returned r w = After Fact AnyError (r, w)

  release-Returned :
      (r : Result Error Deployment)
      → Triple (Returned r) (release_slot o) (λ _. Returned r) AnyError
  unfolding release_slot
  release-Returned (ok d) = record { run = λ w h. h }
  release-Returned (err e) = record { run = λ w h. h }

  leave-Returned :
      (id : String) (r : Result Error Deployment)
      → Triple (Returned r) (leave_execution id) (λ _. Returned r) AnyError
  unfolding leave_execution
  leave-Returned id (ok d) = record { run = λ w h. h }
  leave-Returned id (err e) = record { run = λ w h. h }

  lift-Returned : (r : Result Error Deployment) → Triple (Returned r) (lift r) Fact AnyError
  unfolding lift
  lift-Returned (ok d) = record { run = λ w h. h }
  lift-Returned (err e) = record { run = λ w h. h }

  module _ (id other : String) (input : PrepareInput) where
    acquire-Keeps : Keeps (HasRow id input) (acquire o)
    unfolding acquire
    acquire-Keeps = record {
      run = λ w h. elim (Bool-cases (o.slot w.tick)) [ inl e ↦ rw e h | inr e ↦ rw e h ];
    }

    enter-Keeps : Keeps (HasRow id input) (enter_execution other)
    unfolding enter_execution
    enter-Keeps = record {
      run = λ w h. elim (Bool-cases (is_blank other)) [
        | inl e ↦ rw e h
        | inr e ↦ elim (Bool-cases (is_in other w.running)) [
          | inl f ↦ rw (e, f) h
          | inr f ↦ rw (e, f) h
        ]
      ];
    }

    any_error :
        {A : Type 0} {m : Run A}
        → Keeps (HasRow id input) m
        → Triple (HasRow id input) m (λ _. HasRow id input) AnyError
    any_error k = Triple-weaken (Triple-Keeps k) (λ w h. h) (λ _ w h. h) (λ _ w h. tt)

    pub job-Returned :
        {body : Run Deployment}
        → Triple (HasRow id input) body Fact AnyError
        → Triple (HasRow id input) (with_execution other (with_slot o body)) Fact AnyError
    unfolding with_execution with_slot
    job-Returned h = Triple-bind (any_error enter-Keeps) (λ _.
        Triple-bind
          (Triple-caught (
            Triple-bind (any_error acquire-Keeps) (λ _.
              Triple-bind (Triple-caught h)
                (λ r. Triple-bind (release-Returned r) (λ _. lift-Returned r)))))
          (λ r. Triple-bind (leave-Returned other r) (λ _. lift-Returned r)))
