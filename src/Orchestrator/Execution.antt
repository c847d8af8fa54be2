-- ===== src/Orchestrator/Execution.antt =====
-- A run of a job from its entry to its release: beginExecution, acquire and releaseSlot of
-- internal/orchestrator/service.go, and what a run leaves of them.
use remnanode_setup_bot.Base.{ℕ, suc, String, ◌≡◌, refl, sym, ap, ◌∙◌}
use remnanode_setup_bot.Base.{Bool, true, false, List, [], ◌∷◌, arith, eq_iff}
use remnanode_setup_bot.Base.{if◌then◌else◌}
use remnanode_setup_bot.Base.{
  ok, err, Keeps, Keeps-bind, Keeps-throw, Keeps-if, Keeps-attempt, Keeps-lift, Triple, After,
  Triple-bind, Triple-attempt, Triple-Keeps, Keeps-Triple, is_blank,
}
use remnanode_setup_bot.Base.Net.{Std}
use remnanode_setup_bot.Repository.{Db}
use remnanode_setup_bot.Orchestrator.World.{
  invalid_input, already_running, plain, context_done, Config, Outside, Event, World, Run,
  check_context, tick_on,
}
use remnanode_setup_bot.Orchestrator.Stages.{
  get_deployment, update_deployment_state, record_deployment_step, set_remnawave_node_uuid,
  with_execution, with_slot, is_in, without, enter_execution, leave_execution, acquire,
  release_slot,
}
use remnanode_setup_bot.Orchestrator.Calls.{
  ask_certificate, ask_secret_key, ask_provision, ask_nodes, ask_create, ask_node, ask_add_ip,
  ask_poll_time, ask_hosts,
}
use remnanode_setup_bot.Orchestrator.Deploy.{StartInput, deploy, retry_dns}
use mathlib.Core.Path.{subst}
use remnanode_setup_bot.Orchestrator.Steady.{Steady}
use remnanode_setup_bot.Orchestrator.Steady.Stable.{Stable, Stable-Steady}
use remnanode_setup_bot.Orchestrator.Steady.Jobs.{deploy_job-Keeps, retry_dns_job-Keeps}

-- Entering a job and taking a slot change neither the tables nor the events.
module _ (o : Outside) (F : Db → List Event → Type 0) where
  abbrev Holds : World → Type 0
  Holds w = F w.db w.events

  same-Holds :
      {A : Type 0} (m : Run A)
      → ((w : World) → ((m w).1.db ≡ w.db) × ((m w).1.events ≡ w.events))
      → Keeps Holds m
  same-Holds m h = record {
    run = λ w i.
        let (d, e) = h w in subst (λ db. F db (m w).1.events) (sym d) (subst (F w.db) (sym e) i);
  }

  enter-Keeps : (id : String) → Keeps Holds (enter_execution id)
  unfolding enter_execution
  enter-Keeps id = same-Holds (enter_execution id) (λ w. ground arith)

  leave-Keeps : (id : String) → Keeps Holds (leave_execution id)
  unfolding leave_execution
  leave-Keeps id = same-Holds (leave_execution id) (λ w. (refl, refl))

  acquire-Keeps : Keeps Holds (acquire o)
  unfolding acquire
  acquire-Keeps = same-Holds (acquire o) (λ w. ground arith)

  release-Keeps : Keeps Holds (release_slot o)
  unfolding release_slot
  release-Keeps = same-Holds (release_slot o) (λ w. (refl, refl))

  pub with_execution-Keeps :
      {A : Type 0} (id : String) {body : Run A}
      → Keeps Holds body
      → Keeps Holds (with_execution id body)
  unfolding with_execution
  with_execution-Keeps id {body} k = Keeps-bind Holds (enter-Keeps id) λ _.
      Keeps-bind Holds (Keeps-attempt Holds k)
        λ result. Keeps-bind Holds (leave-Keeps id) λ _. Keeps-lift Holds result

  pub with_slot-Keeps :
      {A : Type 0} {body : Run A} → Keeps Holds body → Keeps Holds (with_slot o body)
  unfolding with_slot
  with_slot-Keeps k = Keeps-bind Holds acquire-Keeps λ _.
      Keeps-bind Holds (Keeps-attempt Holds k)
        λ result. Keeps-bind Holds release-Keeps λ _. Keeps-lift Holds result

  -- What is said of the tables and the events, and steady over the workflow, a run of Deploy keeps.
  pub deploy-Keeps :
      {std : Std} {config : Config} (input : StartInput)
      → Steady std o config Holds
      → Keeps Holds (deploy std o config input)
  unfolding deploy
  deploy-Keeps input S =
      Keeps-if Holds (is_blank input.deployment_id) (Keeps-throw Holds _)
        (with_execution-Keeps input.deployment_id (with_slot-Keeps (deploy_job-Keeps S input)))

  pub retry_dns-Keeps :
      {std : Std} {config : Config} (id : String)
      → Steady std o config Holds
      → Keeps Holds (retry_dns std o config id)
  unfolding retry_dns
  retry_dns-Keeps id S = with_execution-Keeps id (with_slot-Keeps (retry_dns_job-Keeps S id))

without-absent : (id : String) (ids : List String) → is_in id ids ≡ false → without id ids ≡ ids
unfolding without is_in
without-absent id [] h = refl
without-absent id (other ∷ ids) h = ground (arith, without-absent id ids)

without_self : (id : String) (ids : List String) → without id (id ∷ ids) ≡ without id ids
unfolding without
without_self id ids = ground (arith, eq_iff id id)

-- The jobs and the slots that the service holds.
abbrev pub Held : List String → ℕ → World → Type 0
Held ids n w = (w.running ≡ ids) × (w.slots ≡ n)

module _ (ids : List String) (n : ℕ) where
  abbrev Entered : String → World → Type 0
  Entered id w = Held (id ∷ ids) n w × (is_in id ids ≡ false)

  enter-Held :
      (id : String) → Triple (Held ids n) (enter_execution id) (λ _. Entered id) (λ _. Held ids n)
  unfolding enter_execution
  enter-Held id = record { run = λ w h. entered (is_blank id) (is_in id w.running) w refl h }
    where
      entered :
          (b c : Bool) (w : World)
          → is_in id w.running ≡ c
          → Held ids n w
          → After
              (λ _. Entered id)
              (λ _. Held ids n)
              (if b
                then (err (plain invalid_input), w)
                else if c
                then (err (plain already_running), w)
                else (ok tt, record w { running = id ∷ w.running }))
      entered true c w e h = h
      entered false true w e h = h
      entered false false w e (r, s) = ((ap (λ l. id ∷ l) r, s), ap (is_in id) (sym r) ∙ e)

  leave-Held :
      (id : String) → Triple (Entered id) (leave_execution id) (λ _. Held ids n) (λ _. Held ids n)
  unfolding leave_execution without
  leave-Held id = record {
    run = λ w ((r, s), f). (ap (without id) r ∙ without_self id ids ∙ without-absent id ids f, s);
  }

  with_execution-Held :
      {A : Type 0} (id : String) {body : Run A}
      → Keeps (Held (id ∷ ids) n) body
      → Keeps (Held ids n) (with_execution id body)
  unfolding with_execution
  with_execution-Held id {body} k = Keeps-Triple (
      Triple-bind (enter-Held id) λ _.
        Triple-bind (Triple-attempt (Triple-Keeps (record { run = λ w (h, f). (k.run w h, f) })))
          λ result. Triple-bind (leave-Held id) λ _. Triple-Keeps (Keeps-lift (Held ids n) result))

module _ (o : Outside) (ids : List String) (n : ℕ) where
  acquire-Held : Triple (Held ids n) (acquire o) (λ _. Held ids (suc n)) (λ _. Held ids n)
  unfolding acquire
  acquire-Held = record { run = λ w h. taken (o.slot w.tick) w h }
    where
      taken :
          (b : Bool) (w : World)
          → Held ids n w
          → After
              (λ _. Held ids (suc n))
              (λ _. Held ids n)
              (if b
                then (ok tt, record w { tick = suc w.tick; slots = suc w.slots })
                else (err context_done, tick_on w))
      taken true w (r, s) = (r, ap suc s)
      taken false w h = h

  release-Held : Triple (Held ids (suc n)) (release_slot o) (λ _. Held ids n) (λ _. Held ids n)
  unfolding release_slot
  release-Held = record { run = λ w (r, s). (r, omega arith) }

  with_slot-Held :
      {A : Type 0} {body : Run A}
      → Keeps (Held ids (suc n)) body
      → Keeps (Held ids n) (with_slot o body)
  unfolding with_slot
  with_slot-Held {body} k = Keeps-Triple (
      Triple-bind acquire-Held λ _.
        Triple-bind (Triple-attempt (Triple-Keeps k))
          λ result. Triple-bind release-Held λ _. Triple-Keeps (Keeps-lift (Held ids n) result))

  -- No single call touches the jobs or the slots that are held.
  Held-Stable : (m : ℕ) → Stable o (Held ids m)
  unfolding check_context get_deployment update_deployment_state record_deployment_step
      set_remnawave_node_uuid ask_certificate ask_secret_key ask_provision ask_nodes ask_create
      ask_node ask_add_ip ask_poll_time ask_hosts
  Held-Stable m = record {
    context = record { run = λ w h. h };
    read = λ id. record { run = λ w h. h };
    write = λ id p. record { run = λ w h. ground arith };
    record_step = λ id name status. record { run = λ w h. ground arith };
    record_node = λ id uuid. record { run = λ w h. ground arith };
    certificate = λ sni. record { run = λ w h. h };
    secret_key = record { run = λ w h. h };
    provision = λ input. record { run = λ w h. h };
    nodes = record { run = λ w h. h };
    create = λ input. record { run = λ w h. h };
    node = λ uuid. record { run = λ w h. h };
    add_ip = λ sni ip. record { run = λ w h. h };
    poll_time = record { run = λ w h. h };
    hosts = record { run = λ w h. h };
  }

module _ (std : Std) (o : Outside) (config : Config) where
  deploy-Held :
      (ids : List String) (n : ℕ) (input : StartInput)
      → Keeps (Held ids n) (deploy std o config input)
  unfolding deploy
  deploy-Held ids n input =
      Keeps-if (Held ids n) (is_blank input.deployment_id) (Keeps-throw (Held ids n) _) (
        with_execution-Held ids n input.deployment_id (
          with_slot-Held o (input.deployment_id ∷ ids) n (
            deploy_job-Keeps (Stable-Steady (Held-Stable o (input.deployment_id ∷ ids) n (suc n)))
              input)))

  -- A run of Deploy gives back all that it took: on every outcome, errors and a cancelled context
  -- included, the running jobs and the taken slots are those before the run.
  pub deploy-releases :
      (input : StartInput) (w : World)
      → ((deploy std o config input w).1.running ≡ w.running)
        × ((deploy std o config input w).1.slots ≡ w.slots)
  deploy-releases input w = (deploy-Held w.running w.slots input).run w (refl, refl)
