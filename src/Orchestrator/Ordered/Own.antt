-- ===== src/Orchestrator/Ordered/Own.antt =====
-- What is done for one job alone: the steps of addDNS of internal/orchestrator/service.go.
use remnanode_setup_bot.Base.{
  String, ◌≡◌, Bool, true, false, ◌&&◌, ◌||◌, ◌==◌, string_comparable, Option, none, some, List, [],
  ◌∷◌, arith, eq_iff, Option-cases, inl, inr, Keeps, Keeps-bind, Keeps-return, Keeps-if,
  Keeps-attempt, Triple, Triple-bind, Triple-throw, Triple-if, Triple-weaken, Triple-attempt,
  kept-After, Triple-Keeps,
}
use remnanode_setup_bot.Base.Net.{Addr, addr_comparable, addr_beq_iff, Std}
use remnanode_setup_bot.Deployment.{Status, completed, StepStatus, Deployment}
use remnanode_setup_bot.Remnawave.{Node}
use remnanode_setup_bot.Repository.{StateParams}
use remnanode_setup_bot.Orchestrator.World.{
  Error, Config, Outside, Event, node_read, ip_added, state_written, World, or_else,
}
use remnanode_setup_bot.Orchestrator.Stages.{
  update_deployment_state, record_deployment_step, set_state, begin_stage, fail_stage, failed_call,
}
use remnanode_setup_bot.Orchestrator.Calls.{ask_node, ask_add_ip}
use remnanode_setup_bot.Orchestrator.Connect.{healthy}
use remnanode_setup_bot.Orchestrator.Steady.{not_completed}
use remnanode_setup_bot.Orchestrator.Ordered.Runs.{check_context-On, record_step-On, or_fail-On}

abbrev pub owns : Option String → String → Bool
owns none uuid = false
owns (some own) uuid = own == uuid

module _ (config : Config) (job_id zone : String) (address : Addr) (node : Option String) where
  -- The last call read the job's own Node, which is connected.
  abbrev pub node_connected : List Event → Bool
  node_connected (node_read uuid up ∷ _) = up && owns node uuid
  node_connected _ = false

  -- The last call added the job's own address to its own zone.
  abbrev pub address_added : List Event → Bool
  address_added (ip_added sni ip added ∷ _) = added && (sni == zone && ip == address)
  address_added _ = false

  -- What may be done for the job, after the calls before, the latest first: a Node may be read; the
  -- job's address may be added to its zone directly after its own Node was read as connected; the
  -- job's state may be written, and be completed only directly after its address was added, or on a
  -- panel without a balancer; and nothing else.
  abbrev pub is_allowed : Event → List Event → Bool
  is_allowed (node_read uuid up) before = true
  is_allowed (ip_added sni ip added) before =
      node_connected before && (sni == zone && ip == address)
  is_allowed (state_written id status) before =
      id == job_id && (not_completed status || config.dns_disabled || address_added before)
  is_allowed _ before = false

  abbrev pub events_of : List Event → Bool
  events_of [] = true
  events_of (event ∷ before) = is_allowed event before && events_of before

module _ (config : Config) (job : Deployment) where
  abbrev pub own_connected : List Event → Bool
  own_connected = node_connected config job.id job.sni_domain job.target_ip job.node_uuid

  abbrev pub own_added : List Event → Bool
  own_added = address_added config job.id job.sni_domain job.target_ip job.node_uuid

  abbrev pub own_events : List Event → Bool
  own_events = events_of config job.id job.sni_domain job.target_ip job.node_uuid

module _ (std : Std) (o : Outside) (config : Config) (job : Deployment) where
  abbrev pub F : List Event → Type 0
  F events = own_events config job events ≡ true

  abbrev pub I : World → Type 0
  I w = F w.events

  -- Where the job may be completed.
  abbrev pub ReadyOn : List Event → Type 0
  ReadyOn events = F events × (config.dns_disabled || own_added config job events ≡ true)

  abbrev pub Ready : World → Type 0
  Ready w = ReadyOn w.events

  pub update-Own :
      (p : StateParams) (w : World)
      → not_completed p.status || config.dns_disabled || own_added config job w.events ≡ true
      → I w
      → I (update_deployment_state o job.id p w).1
  unfolding update_deployment_state
  update-Own p w n i = ground (arith, eq_iff job.id job.id)

  pub or_else_record-Own :
      (name : String) (status : StepStatus) (e : Error)
      → Keeps I (or_else o (record_deployment_step o job.id name status) e)
  unfolding or_else
  or_else_record-Own name status e =
      Keeps-bind I (Keeps-attempt I (record_step-On o F job.id name status)) (or_fail-On o F e)

  pub set_state-Own :
      (status : Status) (step code : String)
      → not_completed status ≡ true
      → Keeps I (set_state o job.id status step code)
  unfolding set_state or_else
  set_state-Own status step code n = Keeps-bind I (check_context-On o F) λ _.
      Keeps-bind I (Keeps-attempt I (record { run = λ w i. update-Own _ w (ground (arith, n)) i }))
        (or_fail-On o F _)

  pub begin_stage-Own :
      (status : Status) (step : String)
      → not_completed status ≡ true
      → Keeps I (begin_stage o job.id status step)
  unfolding begin_stage
  begin_stage-Own status step n =
      Keeps-bind I (check_context-On o F)
        λ _. Keeps-bind I (set_state-Own status step "" n) λ _. or_else_record-Own step _ _

  -- A failure, of which only the order is left.
  pub failing :
      {A : Type 0} {P : World → Type 0} {Q : A → World → Type 0} (step : String) (status : Status)
      (code : String) (e : Error)
      → not_completed status ≡ true
      → ((w : World) → P w → I w)
      → Triple P (fail_stage o {A = A} job.id step status code e) Q (λ _. I)
  unfolding fail_stage
  failing step status code e n h =
      Triple-weaken
        (Triple-bind (Triple-Keeps (check_context-On o F)) λ _.
          Triple-bind
            (Triple-Keeps
              (Keeps-attempt I (Keeps-if I _ (Keeps-return I tt) (record_step-On o F _ _ _))))
            λ recorded.
              Triple-bind
                (Triple-Keeps
                  (Keeps-attempt I (record { run = λ w i. update-Own _ w (ground (arith, n)) i })))
                λ updated. Triple-bind (Triple-Keeps (check_context-On o F)) λ _.
                  Triple-if (failed_call recorded || failed_call updated)
                    (λ _. Triple-throw _ (λ w i. i)) (λ _. Triple-throw _ (λ w i. i)))
        h (λ _ w q. q) (λ _ w i. i)

  pub completed-Own :
      (step code : String) → Triple Ready (set_state o job.id completed step code) (λ _. I) (λ _. I)
  unfolding set_state or_else
  completed-Own step code =
      Triple-bind
        (Triple-weaken (Triple-Keeps {I = Ready} (check_context-On o ReadyOn)) (λ w i. i)
          (λ _ w i. i) (λ _ w (i, _). i))
        λ _.
          Triple-bind
            (Triple-attempt
              (record { run = λ w (i, ready). kept-After I _ (update-Own _ w ready i) }))
            (λ result. Triple-Keeps (or_fail-On o F _ result))

  abbrev pub Checked : Option Node → List Event → Type 0
  Checked answer events =
      F events × (healthy o config answer ≡ true → own_connected config job events ≡ true)

  pub own_node :
      (uuid : String)
      → job.node_uuid ≡ some uuid
      → Triple I (ask_node o uuid) (λ answer w. Checked answer w.events) (λ _. I)
  unfolding ask_node
  own_node uuid own = record {
    run = λ w i. elim (Option-cases (o.node w.tick uuid)) [
      | inl e ↦ rw e (i, λ h. absurd (ground (arith, h)))
      | inr (node, e) ↦ rw (e, own) (i, λ h. ground (arith, h, eq_iff uuid uuid))
    ];
  }

  pub own_address :
      Triple
        (λ w. I w × (own_connected config job w.events ≡ true))
        (ask_add_ip o job.sni_domain job.target_ip)
        (λ added w. I w × (own_added config job w.events ≡ added))
        (λ _. I)
  unfolding ask_add_ip
  own_address = record {
    run = λ w (i, c). (
      ground (
        arith,
        i,
        c,
        eq_iff job.sni_domain job.sni_domain,
        addr_beq_iff job.target_ip job.target_ip,
      ),
      ground
          (arith, eq_iff job.sni_domain job.sni_domain, addr_beq_iff job.target_ip job.target_ip),
    );
  }
