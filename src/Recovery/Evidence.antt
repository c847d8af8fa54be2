-- ===== src/Recovery/Evidence.antt =====
-- What a classification rests on, and what the calls of a recheck do to the events and the row:
-- internal/recovery/service.go.
use remnanode_setup_bot.Base.{
  ℕ, String, ◌≡◌, refl, ap, Bool, true, false, not, ◌&&◌, Option, none, some, List, [], ◌∷◌,
  string_comparable, Result, ok, err, arith, eq_iff, Triple, After, Triple-bind, Triple-return,
  Triple-throw, Triple-caught, Option-cases, inl, inr, Bool-cases, is_blank,
}
use remnanode_setup_bot.Base.Net.{addr_comparable, Std}
use remnanode_setup_bot.Deployment.{
  Status, waiting_remnawave, completed, dns_failed, manual_review, StepStatus, Deployment,
}
use remnanode_setup_bot.Repository.{find_row, with_node_uuid, StateParams, valid_uuid}
use remnanode_setup_bot.Repository.Laws.{find_row-update_row}
use remnanode_setup_bot.Remnawave.{Node}
use remnanode_setup_bot.Orchestrator.World.{
  Error, nil_pointer, Outside, Event, nodes_listed, node_read, zone_read, state_written, World, Run,
}
use remnanode_setup_bot.Orchestrator.Stages.{
  update_deployment_state, record_deployment_step, set_remnawave_node_uuid, has_row,
}
use remnanode_setup_bot.Orchestrator.Calls.{ask_nodes, ask_node}
use remnanode_setup_bot.Orchestrator.Outcome.{row_status, AnyError}
use remnanode_setup_bot.Recovery.{
  Classification, safe_to_recheck, safe_to_retry_dns, recovered_completed, needs_manual_review,
  Verdict, Service, replaced, or_message, returned, exact_nodes,
}

-- How the Node of a job was identified, after which events.
pub data Identified (std : Std) (item : Deployment) (es : List Event)
    : String → List Event → Type 0 where
  by_row : {uuid : String} → item.node_uuid ≡ some uuid → Identified std item es uuid es
  by_list :
      (nodes : List Node) {node : Node}
      → item.node_uuid ≡ none
      → exact_nodes std item nodes ≡ node ∷ []
      → Identified std item es node.uuid (nodes_listed nodes ∷ es)

-- The events that a classification rests on, the writing of the state on top of them.
pub data Evidence (std : Std) (service : Service) (item : Deployment) (es : List Event)
    : Classification → List Event → Type 0 where
  was_completed : item.status ≡ completed → Evidence std service item es recovered_completed es
  without_dns :
      {uuid : String} {before : List Event}
      → Identified std item es uuid before
      → service.dns_disabled ≡ true
      → Evidence std service item es recovered_completed
          (state_written item.id completed ∷ node_read uuid true ∷ before)
  in_dns :
      {uuid : String} {before : List Event}
      → Identified std item es uuid before
      → service.dns_disabled ≡ false
      → Evidence std service item es recovered_completed (
          state_written item.id completed
          ∷ zone_read item.sni_domain item.target_ip true
          ∷ node_read uuid true
          ∷ before)
  out_of_dns :
      {uuid : String} {before : List Event}
      → Identified std item es uuid before
      → service.dns_disabled ≡ false
      → Evidence std service item es safe_to_retry_dns (
          state_written item.id dns_failed
          ∷ zone_read item.sni_domain item.target_ip false
          ∷ node_read uuid true
          ∷ before)
  connecting :
      {uuid : String} {before : List Event}
      → Identified std item es uuid before
      → Evidence std service item es safe_to_recheck
          (state_written item.id waiting_remnawave ∷ node_read uuid false ∷ before)
  unclear :
      {before : List Event}
      → Evidence std service item es needs_manual_review
          (state_written item.id manual_review ∷ before)

-- The status that goes with a classification.
abbrev pub status_of : Classification → Status
status_of safe_to_recheck = waiting_remnawave
status_of safe_to_retry_dns = dns_failed
status_of recovered_completed = completed
status_of needs_manual_review = manual_review

pub record Good (std : Std) (service : Service) (item : Deployment) (es : List Event) (v : Verdict)
    (w : World) : Type 0 where
  pub job : v.deployment_id ≡ item.id
  pub evidence : Evidence std service item es v.classification w.events
  pub row : row_status item.id w.db ≡ some (status_of v.classification)

abbrev is_panic : Error → Bool
is_panic nil_pointer = true
is_panic _ = false

-- Not the panic of a nil pointer.
abbrev pub NoPanic : Error → World → Type 0
NoPanic e w = is_panic e ≡ false

-- The same job, as far as a recheck reads it.
pub record Like (item current : Deployment) : Type 0 where
  pub id : current.id ≡ item.id
  pub sni : current.sni_domain ≡ item.sni_domain
  pub target : current.target_ip ≡ item.target_ip

abbrev pub AfterEvents : List Event → World → Type 0
AfterEvents es w = w.events ≡ es

replaced-After :
    {A : Type 0} {Q : A → World → Type 0} (text : String) (r : Result Error A)
    → Triple (λ w. After Q AnyError (r, w)) (replaced text r) Q NoPanic
unfolding replaced
replaced-After text (ok a) = Triple-return a (λ w q. q)
replaced-After text (err _) = Triple-throw _ (λ w _. refl)

pub or_message-After :
    {A : Type 0} {P : World → Type 0} {Q : A → World → Type 0} {m : Run A} (text : String)
    → Triple P m Q AnyError
    → Triple P (or_message m text) Q NoPanic
unfolding or_message
or_message-After text h = Triple-bind (Triple-caught h) (replaced-After text)

module _ (o : Outside) (es : List Event) where
  pub written :
      (id : String) (p : StateParams)
      → Triple
          (AfterEvents es)
          (update_deployment_state o id p)
          (λ _ w. w.events ≡ state_written id p.status ∷ es)
          AnyError
  unfolding update_deployment_state
  written id p = record {
    run = λ w e.
        elim (Bool-cases (
          valid_uuid id
          && not (is_blank p.current_step)
          && not (o.db_fails w.tick)
          && has_row id w)) [
            | inl t ↦ rw t (ap (λ (l : List Event). state_written id p.status ∷ l) e)
            | inr t ↦ rw t tt
          ];
  }

  pub recorded_events :
      (id name : String) (status : StepStatus)
      → Triple
          (AfterEvents es)
          (record_deployment_step o id name status)
          (λ _. AfterEvents es)
          (λ _. AfterEvents es)
  unfolding record_deployment_step
  recorded_events id name status = record {
    run = λ w e.
        elim (Bool-cases
          (valid_uuid id && not (is_blank name) && not (o.db_fails w.tick) && has_row id w)) [
            | inl t ↦ rw t e
            | inr t ↦ rw t e
          ];
  }

  abbrev pub with_read : String → Option Node → List Event
  with_read uuid none = es
  with_read uuid (some node) = node_read uuid node.is_connected ∷ es

  pub node_events :
      (uuid : String)
      → Triple
          (AfterEvents es)
          (ask_node o uuid)
          (λ answer w. w.events ≡ with_read uuid answer)
          NoPanic
  unfolding ask_node
  node_events uuid = record {
    run = λ w e. elim (Option-cases (o.node w.tick uuid)) [
      | inl t ↦ rw t e
      | inr (node, t) ↦ rw t (ap (λ (l : List Event). node_read uuid node.is_connected ∷ l) e)
    ];
  }

  abbrev pub with_list : Option (List Node) → List Event
  with_list none = es
  with_list (some nodes) = nodes_listed nodes ∷ es

  pub list_events :
      (item : Deployment)
      → Triple
          (λ w. (find_row item.id w.db.deployments ≡ some item) × AfterEvents es w)
          (ask_nodes o)
          (λ answer w.
            (find_row item.id w.db.deployments ≡ some item) × (w.events ≡ with_list answer))
          NoPanic
  unfolding ask_nodes
  list_events item = record {
    run = λ w (r, e). elim (Option-cases (o.nodes w.tick)) [
      | inl t ↦ rw t (r, e)
      | inr (nodes, t) ↦ rw t (r, ap (λ (l : List Event). nodes_listed nodes ∷ l) e)
    ];
  }

  -- The row that SetRemnawaveNodeUUID returns.
  pub adopted :
      (item : Deployment) (uuid : String)
      → Triple
          (λ w. (find_row item.id w.db.deployments ≡ some item) × AfterEvents es w)
          (set_remnawave_node_uuid o item.id uuid)
          (λ _ w.
            ((now : ℕ) × (find_row item.id w.db.deployments ≡ some (with_node_uuid uuid now item)))
            × AfterEvents es w)
          AnyError
  unfolding set_remnawave_node_uuid with_node_uuid
  adopted item uuid = record {
    run = λ w (r, e).
        elim (Bool-cases
          (valid_uuid item.id && valid_uuid uuid && not (o.db_fails w.tick) && has_row item.id w)) [
            | inl t ↦ rw t (
              (
                o.now w.tick,
                ground (
                  arith,
                  r,
                  eq_iff item.id item.id,
                  find_row-update_row item.id item.id (with_node_uuid uuid (o.now w.tick))
                      w.db.deployments (λ d. refl),
                ),
              ),
              e,
            )
            | inr t ↦ rw t tt
          ];
  }

  abbrev pub IsAdopted : Deployment → String → Deployment → World → Type 0
  IsAdopted item uuid current w =
      Like item current × (current.node_uuid ≡ some uuid) × AfterEvents es w

  pub returned-IsAdopted :
      (item : Deployment) (uuid : String)
      → Triple
          (λ w.
            ((now : ℕ) × (find_row item.id w.db.deployments ≡ some (with_node_uuid uuid now item)))
            × AfterEvents es w)
          (returned item.id)
          (IsAdopted item uuid)
          AnyError
  unfolding returned with_node_uuid
  returned-IsAdopted item uuid = record {
    run = λ w ((now, r), e). rw r (record { id = refl; sni = refl; target = refl }, refl, e);
  }
