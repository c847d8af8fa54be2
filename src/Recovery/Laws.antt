-- ===== src/Recovery/Laws.antt =====
-- What a recheck of a job finds out and writes: internal/recovery/service.go.
use mathlib.Core.Path.{subst}
use remnanode_setup_bot.Base.{
  ℕ, String, ◌≡◌, refl, sym, ap, ◌∙◌, Bool, true, false, Option, none, some, List, [], ◌∷◌,
  string_comparable, arith, Triple, After, Triple-bind, Triple-return, Triple-if, Triple-weaken,
  Triple-attempt, Triple-both, Option-cases, inl, inr,
}
use remnanode_setup_bot.Base.Net.{addr_comparable, Std}
use remnanode_setup_bot.Deployment.{Status, completed, dns_failed, skipped, Deployment}
use remnanode_setup_bot.Repository.{find_row}
use remnanode_setup_bot.Remnawave.{Node}
use remnanode_setup_bot.Dns.Models.{ZoneMatch}
use remnanode_setup_bot.Orchestrator.World.{
  Outside, Event, nodes_listed, node_read, zone_read, state_written, World, Run,
}
use remnanode_setup_bot.Orchestrator.Calls.{step_add_dns}
use remnanode_setup_bot.Orchestrator.Outcome.{row_status, updated}
use remnanode_setup_bot.Recovery.{
  Classification, safe_to_retry_dns, recovered_completed, Verdict, Service, exact_nodes, settle,
  manual, ask_zone, complete, zone_answer, inspect_dns, node_answer, inspect_node, adopt,
  nodes_answer, inspect_external_state, case_of, already_done, inspected, by_hand, Case,
  classify_case, classify, zone_contains,
}
use remnanode_setup_bot.Recovery.Evidence.{
  Identified, by_row, by_list, Evidence, was_completed, without_dns, in_dns, out_of_dns, connecting,
  unclear, status_of, Good, NoPanic, Like, AfterEvents, or_message-After, written, recorded_events,
  node_events, list_events, adopted, returned-IsAdopted, with_read, with_list,
}

module _ (std : Std) (o : Outside) (find_zone : ℕ → String → Option ZoneMatch) (service : Service)
    (item : Deployment) (es : List Event) where
  abbrev IsGood : Verdict → World → Type 0
  IsGood = Good std service item es

  module _ (current : Deployment) (like : Like item current) (before : List Event) where
    settle-IsGood :
        (status : Status) (step : String) (code : Option String) (c : Classification)
        (text : String)
        → Evidence std service item es c (state_written item.id status ∷ before)
        → status_of c ≡ status
        → Triple
            (AfterEvents before)
            (settle std o find_zone service current status step code c text)
            IsGood
            NoPanic
    unfolding settle
    settle-IsGood status step code c text evidence s =
        Triple-bind
          (or_message-After text (
            Triple-both (written o before current.id _)
              (Triple-weaken (updated o current.id _) (λ w _. tt) (λ _ w h. h) (λ _ w h. h))))
          λ _. Triple-return _ (λ w (events, row). record {
            job = like.id;
            evidence =
                subst (Evidence std service item es c)
                  (sym (events ∙ ap (λ (id : String). state_written id status ∷ before) like.id))
                  evidence;
            row =
                subst (λ (id : String). row_status id w.db ≡ some (status_of c)) like.id
                  (row ∙ ap some (sym s));
          })

    manual-IsGood :
        Triple (AfterEvents before) (manual std o find_zone service current) IsGood NoPanic
    unfolding manual
    manual-IsGood = settle-IsGood _ _ _ _ _ unclear refl

    abbrev Known : Type 0
    Known = (uuid : String) × Identified std item es uuid before

    complete-IsGood :
        Evidence std service item es recovered_completed (state_written item.id completed ∷ before)
        → Triple (AfterEvents before) (complete std o find_zone service current) IsGood NoPanic
    unfolding complete
    complete-IsGood evidence = settle-IsGood _ _ _ _ _ evidence refl

  abbrev with_zone : Deployment → List Event → Option Bool → List Event
  with_zone current before none = before
  with_zone current before (some b) = zone_read current.sni_domain current.target_ip b ∷ before

  zone_events :
      (current : Deployment) (before : List Event)
      → Triple
          (AfterEvents before)
          (ask_zone std o find_zone service current.sni_domain current.target_ip)
          (λ answer w. w.events ≡ with_zone current before answer)
          NoPanic
  unfolding ask_zone zone_contains
  zone_events current before = record {
    run = λ w e. elim (Option-cases (find_zone w.tick current.sni_domain)) [
      | inl t ↦ rw t e
      | inr (found, t) ↦ rw t (
          ap
            (λ (l : List Event).
              zone_read current.sni_domain current.target_ip
                (zone_contains std found.zone current.target_ip)
              ∷ l)
            e)
    ];
  }

  module _ (current : Deployment) (like : Like item current) {uuid : String} {before : List Event}
      (known : Identified std item es uuid before) where
    -- The events with the reading of the zone of the job itself.
    same_zone :
        (b : Bool)
        → with_zone current (node_read uuid true ∷ before) (some b)
          ≡ with_zone item (node_read uuid true ∷ before) (some b)
    same_zone b = rw (like.sni, like.target) refl

    zone_answer-IsGood :
        service.dns_disabled ≡ false
        → (answer : Option Bool)
        → Triple
            (AfterEvents (with_zone current (node_read uuid true ∷ before) answer))
            (zone_answer std o find_zone service current answer)
            IsGood
            NoPanic
    unfolding zone_answer
    zone_answer-IsGood on none = manual-IsGood current like _
    zone_answer-IsGood on (some true) = complete-IsGood current like _ (
        subst
          (λ l.
            Evidence std service item es recovered_completed (state_written item.id completed ∷ l))
          (sym (same_zone true)) (in_dns known on))
    zone_answer-IsGood on (some false) =
        settle-IsGood current like _ _ _ _ _ _
          (subst
            (λ l.
              Evidence std service item es safe_to_retry_dns (state_written item.id dns_failed ∷ l))
            (sym (same_zone false)) (out_of_dns known on))
          refl

    inspect_dns-IsGood :
        (off : Bool)
        → service.dns_disabled ≡ off
        → Triple
            (AfterEvents (node_read uuid true ∷ before))
            (inspect_dns std o find_zone service current off)
            IsGood
            NoPanic
    unfolding inspect_dns
    inspect_dns-IsGood true off =
        Triple-bind (Triple-attempt (recorded_events o _ current.id step_add_dns skipped))
          λ _. complete-IsGood current like _ (without_dns known off)
    inspect_dns-IsGood false on = Triple-bind (zone_events current _) (zone_answer-IsGood on)

    read_as :
        (node : Node) (b : Bool)
        → node.is_connected ≡ b
        → {A : Type 0} {m : Run A} {Q : A → World → Type 0}
        → Triple (AfterEvents (node_read uuid b ∷ before)) m Q NoPanic
        → Triple (AfterEvents (node_read uuid node.is_connected ∷ before)) m Q NoPanic
    read_as node b c {m = m} {Q = Q} =
        subst (λ (b : Bool). Triple (AfterEvents (node_read uuid b ∷ before)) m Q NoPanic) (sym c)

    node_answer-IsGood :
        (answer : Option Node)
        → Triple
            (AfterEvents (with_read o before uuid answer))
            (node_answer std o find_zone service current answer)
            IsGood
            NoPanic
    unfolding node_answer
    node_answer-IsGood none = manual-IsGood current like _
    node_answer-IsGood (some node) =
        Triple-if node.is_connected
          (λ c. read_as node true c (inspect_dns-IsGood service.dns_disabled refl))
          (λ c. read_as node false c (
            Triple-if node.is_connecting
              (λ _. settle-IsGood current like _ _ _ _ _ _ (connecting known) refl)
              (λ _. manual-IsGood current like _)))

    inspect_node-IsGood :
        Triple
          (AfterEvents before)
          (inspect_node std o find_zone service current (some uuid))
          IsGood
          NoPanic
    unfolding inspect_node
    inspect_node-IsGood = Triple-bind (node_events o before uuid) node_answer-IsGood

  itself : Like item item
  itself = record { id = refl; sni = refl; target = refl }

  abbrev Stored : List Event → World → Type 0
  Stored before w = (find_row item.id w.db.deployments ≡ some item) × AfterEvents before w

  unclear-IsGood :
      (before : List Event)
      → Triple (Stored before) (manual std o find_zone service item) IsGood NoPanic
  unclear-IsGood before =
      Triple-weaken (manual-IsGood item itself before) (λ w (_, e). e) (λ _ w h. h) (λ _ w h. h)

  module _ (none_yet : item.node_uuid ≡ none) (nodes : List Node) where
    adopt-IsGood :
        (exact : List Node)
        → exact_nodes std item nodes ≡ exact
        → Triple
            (Stored (nodes_listed nodes ∷ es))
            (adopt std o find_zone service item exact)
            IsGood
            NoPanic
    unfolding adopt
    adopt-IsGood [] e = unclear-IsGood _
    adopt-IsGood (node ∷ []) e =
        Triple-bind
          (or_message-After _
            (Triple-bind (adopted o _ item node.uuid) (λ _. returned-IsAdopted o _ item node.uuid)))
          λ current. record {
            run = λ w (like, found, events).
                subst
                  (λ (u : Option String).
                    After IsGood NoPanic (inspect_node std o find_zone service current u w))
                  (sym found)
                  ((inspect_node-IsGood current like (by_list nodes none_yet e)).run w events);
          }
    adopt-IsGood (node ∷ other ∷ rest) e = unclear-IsGood _

  nodes_answer-IsGood :
      item.node_uuid ≡ none
      → (answer : Option (List Node))
      → Triple
          (λ w.
            (find_row item.id w.db.deployments ≡ some item) × (w.events ≡ with_list o es answer))
          (nodes_answer std o find_zone service item answer)
          IsGood
          NoPanic
  unfolding nodes_answer
  nodes_answer-IsGood n none = unclear-IsGood _
  nodes_answer-IsGood n (some nodes) = adopt-IsGood n nodes _ refl

  inspect_external_state-IsGood :
      (uuid : Option String)
      → item.node_uuid ≡ uuid
      → Triple (Stored es) (inspect_external_state std o find_zone service item uuid) IsGood NoPanic
  unfolding inspect_external_state
  inspect_external_state-IsGood none n = Triple-bind (list_events o es item) (nodes_answer-IsGood n)
  inspect_external_state-IsGood (some uuid) n =
      Triple-weaken (inspect_node-IsGood item itself (by_row n)) (λ w (_, e). e) (λ _ w h. h)
        (λ _ w h. h)

  completed_case : (s : Status) (step : String) → case_of s step ≡ already_done → s ≡ completed
  unfolding case_of
  completed_case s step h = ground arith

  already_IsGood :
      item.status ≡ completed
      → (w : World) → Stored es w
      → IsGood (record { deployment_id = item.id; classification = recovered_completed }) w
  already_IsGood c w (r, e) = record {
    job = refl;
    evidence = subst (Evidence std service item es recovered_completed) (sym e) (was_completed c);
    row = rw (r, row_status) (ap some c);
  }

  classify_case-IsGood :
      (c : Case)
      → case_of item.status item.current_step ≡ c
      → Triple (Stored es) (classify_case std o find_zone service item c) IsGood NoPanic
  unfolding classify_case
  classify_case-IsGood already_done h =
      Triple-return _ (already_IsGood (completed_case item.status item.current_step h))
  classify_case-IsGood inspected h = inspect_external_state-IsGood item.node_uuid refl
  classify_case-IsGood by_hand h = unclear-IsGood es

  -- For a job as the table holds it, classify either fails, never by a nil pointer, or gives the
  -- verdict that the calls it made show, and the row then has the status of that verdict.
  pub classify-Good : Triple (Stored es) (classify std o find_zone service item) IsGood NoPanic
  unfolding classify
  classify-Good = classify_case-IsGood _ refl

module _ (std : Std) (o : Outside) (find_zone : ℕ → String → Option ZoneMatch)
    (service : Service) where
  -- What was read of the tables.
  abbrev IsRow : String → Deployment → List Event → Deployment → World → Type 0
  IsRow id item es d w =
      (d ≡ item)
      × (item.id ≡ id)
      × (find_row item.id w.db.deployments ≡ some item)
      × AfterEvents es w
