-- ===== src/Orchestrator/Ordered/Runs.antt =====
-- The three parts of the workflow in which a call rests on the answer of the one before: publish,
-- skipDNS and the part of createNode that makes a Node; and from them the whole.
use remnanode_setup_bot.Base.{suc, String, ◌≡◌, refl}
use remnanode_setup_bot.Base.{Bool, true, false, ◌||◌, Option, none, some, List, ◌∷◌, arith}
use remnanode_setup_bot.Base.{if◌then◌else◌, any}
use remnanode_setup_bot.Base.{
  Result, ok, err, ◌>>◌, return, Keeps, Keeps-bind, Keeps-return, Keeps-throw, Keeps-if,
  Keeps-attempt, Triple, Triple-bind, Triple-return, Triple-throw, Triple-if, Triple-weaken,
  Triple-attempt, kept-After, Triple-Keeps, Keeps-Triple,
}
use remnanode_setup_bot.Base.Net.{Addr, Std}
use remnanode_setup_bot.Deployment.{
  Status, completed, failed, dns_failed, StepStatus, done, Deployment,
}
use remnanode_setup_bot.Remnawave.{Host, Node}
use remnanode_setup_bot.Orchestrator.World.{
  Kind, connection_failed, dns_update_failed, Error, safe, Config, Outside, Event, nodes_listed,
  World, check_context, or_fail, or_else,
}
use remnanode_setup_bot.Orchestrator.Nodes.{recoverable_node}
use remnanode_setup_bot.Orchestrator.Stages.{
  record_deployment_step, set_state, complete_stage, fail_stage, failed_call,
}
use remnanode_setup_bot.Orchestrator.Calls.{
  step_add_dns, ask_nodes, ask_create, ask_node, ask_add_ip,
}
use remnanode_setup_bot.Orchestrator.Connect.{
  listed_of, recovered_of, created_of, node_for, find_or_create, healthy, publish, skip_dns,
}
use remnanode_setup_bot.Orchestrator.Deploy.{StartInput, deploy}
use mathlib.Core.Path.{subst}
use remnanode_setup_bot.Orchestrator.Nodes.Laws.{takes, Recovered, free, recoverable_node-Recovered}
use remnanode_setup_bot.Orchestrator.Steady.{not_completed, Steady}
use remnanode_setup_bot.Orchestrator.Execution.{deploy-Keeps}
use remnanode_setup_bot.Orchestrator.Ordered.{
  read_connected, just_added, listed_free, in_order, InOrder, check_context-InOrder, update-InOrder,
  record_step-InOrder, set_uuid-InOrder, get_deployment-InOrder, certificate-InOrder,
  secret_key-InOrder, provision-InOrder, nodes-InOrder, node-InOrder, poll_time-InOrder,
  hosts-InOrder,
}

-- What calls without an event keep: anything that is said of the events.
module _ (o : Outside) (F : List Event → Type 0) where
  abbrev On : World → Type 0
  On w = F w.events

  pub check_context-On : Keeps On (check_context o)
  unfolding check_context
  check_context-On = record { run = λ w i. i }

  pub record_step-On :
      (id name : String) (status : StepStatus) → Keeps On (record_deployment_step o id name status)
  unfolding record_deployment_step
  record_step-On id name status = record { run = λ w i. subst F (ground arith) i }

  pub or_fail-On :
      {A : Type 0} (e : Error) (result : Result Error A) → Keeps On (or_fail o e result)
  unfolding or_fail
  or_fail-On e (ok a) = Keeps-return On a
  or_fail-On e (err _) = Keeps-bind On check_context-On (λ _. Keeps-throw On e)

  pub complete_stage-On : (id step : String) → Keeps On (complete_stage o id step)
  unfolding complete_stage or_else
  complete_stage-On id step =
      Keeps-bind On check_context-On
        (λ _. Keeps-bind On (Keeps-attempt On (record_step-On id step done)) (or_fail-On _))

module _ (std : Std) (o : Outside) (config : Config) where
  abbrev I : World → Type 0
  I = InOrder std config

  or_fail-InOrder :
      {A : Type 0} (e : Error) (result : Result Error A) → Keeps I (or_fail o e result)
  or_fail-InOrder = or_fail-On o (λ events. in_order std config events ≡ true)

  -- A failed stage only ends in an error.
  fail_stage-ends :
      {A : Type 0} (id step : String) (status : Status) (code : String) (e : Error)
      {Q : A → World → Type 0}
      → not_completed status ≡ true
      → Triple I (fail_stage o {A = A} id step status code e) Q (λ _. I)
  unfolding fail_stage
  fail_stage-ends id step status code e n =
      Triple-bind (Triple-Keeps (check_context-InOrder std o config)) λ _.
        Triple-bind
          (Triple-Keeps (
            Keeps-attempt I
              (Keeps-if I _ (Keeps-return I tt) (record_step-InOrder std o config _ _ _))))
          λ recorded.
            Triple-bind
              (Triple-Keeps (
                Keeps-attempt I
                  (record { run = λ w i. update-InOrder std o config id _ w (ground arith) i })))
              λ updated. Triple-bind (Triple-Keeps (check_context-InOrder std o config)) λ _.
                Triple-if (failed_call recorded || failed_call updated)
                  (λ _. Triple-throw _ (λ w i. i)) (λ _. Triple-throw _ (λ w i. i))

  -- A job may be completed here.
  abbrev Ready : World → Type 0
  Ready w = I w × (config.dns_disabled || just_added w.events ≡ true)

  completed-InOrder :
      (id step code : String) → Triple Ready (set_state o id completed step code) (λ _. I) (λ _. I)
  unfolding set_state or_else
  completed-InOrder id step code =
      Triple-bind
        (Triple-weaken
          (Triple-Keeps {I = Ready} (
            check_context-On o (λ events.
              (in_order std config events ≡ true)
              × (config.dns_disabled || just_added events ≡ true))))
          (λ w i. i) (λ _ w i. i) (λ e w (i, _). i))
        λ _.
          Triple-bind
            (Triple-attempt (record {
              run = λ w (i, ready). kept-After I _ (update-InOrder std o config id _ w ready i);
            }))
            (λ result. Triple-Keeps (or_fail-InOrder _ result))

  node-read :
      (uuid : String)
      → Triple I
          (ask_node o uuid)
          (λ answer w. I w × (healthy o config answer ≡ true → read_connected w.events ≡ true))
          (λ _. I)
  unfolding ask_node
  node-read uuid = record { run = λ w i. ground arith }

  when_healthy :
      (current : Deployment) (answer : Option Node)
      → Triple
          (λ w. I w × (healthy o config answer ≡ true → read_connected w.events ≡ true))
          (if healthy o config answer
            then return tt
            else fail_stage o current.id step_add_dns failed "NODE_NOT_HEALTHY"
                (safe "NODE_NOT_HEALTHY" connection_failed))
          (λ _ w. I w × (read_connected w.events ≡ true))
          (λ _. I)
  when_healthy current answer =
      Triple-if (healthy o config answer) (λ h. Triple-return tt (λ w (i, k). (i, k h)))
        (λ _.
          Triple-weaken (fail_stage-ends _ _ _ _ _ refl) (λ w (i, _). i) (λ _ w q. q) (λ _ w i. i))

  address-added :
      (sni : String) (ip : Addr)
      → Triple
          (λ w. I w × (read_connected w.events ≡ true))
          (ask_add_ip o sni ip)
          (λ added w. I w × (just_added w.events ≡ added))
          (λ _. I)
  unfolding ask_add_ip
  address-added sni ip = record { run = λ w i. ground arith }

  when_added :
      (current : Deployment) (added : Bool)
      → Triple
          (λ w. I w × (just_added w.events ≡ added))
          (if added
            then return tt
            else (check_context o
                >> fail_stage o current.id step_add_dns dns_failed "DNS_UPDATE_FAILED"
                    (safe "DNS_UPDATE_FAILED" dns_update_failed)))
          (λ _. Ready)
          (λ _. I)
  when_added current added =
      Triple-if added (λ h. Triple-return tt (λ w (i, k). (i, ground arith)))
        (λ _.
          Triple-bind
            (Triple-weaken (Triple-Keeps (check_context-InOrder std o config)) (λ w (i, _). i)
              (λ _ w i. i) (λ _ w i. i))
            (λ _. fail_stage-ends _ _ _ _ _ refl))

  abbrev ReadyOn : List Event → Type 0
  ReadyOn events =
      (in_order std config events ≡ true) × (config.dns_disabled || just_added events ≡ true)

  complete_stage-Ready :
      (id step : String) → Triple Ready (complete_stage o id step) (λ _. Ready) (λ _. I)
  complete_stage-Ready id step =
      Triple-weaken (Triple-Keeps {I = Ready} (complete_stage-On o ReadyOn id step)) (λ w i. i)
        (λ _ w i. i) (λ e w (i, _). i)

  publish-InOrder : (current : Deployment) (uuid : String) → Keeps I (publish o config current uuid)
  unfolding publish
  publish-InOrder current uuid = Keeps-Triple (
      Triple-bind (node-read uuid) λ answer.
        Triple-bind
          (Triple-weaken
            (Triple-Keeps
              {I = λ w. I w × (healthy o config answer ≡ true → read_connected w.events ≡ true)}
              (check_context-On o (λ events.
                (in_order std config events ≡ true)
                × (healthy o config answer ≡ true → read_connected events ≡ true))))
            (λ w i. i) (λ _ w i. i) (λ e w (i, _). i))
          λ _. Triple-bind (when_healthy current answer) λ _.
            Triple-bind (address-added current.sni_domain current.target_ip) λ added.
              Triple-bind (when_added current added) λ _.
                Triple-bind (complete_stage-Ready current.id step_add_dns)
                  λ _. completed-InOrder current.id "completed" "")

  skip_dns-InOrder :
      (current : Deployment) → config.dns_disabled ≡ true → Keeps I (skip_dns o config current)
  unfolding skip_dns
  skip_dns-InOrder current off =
      Keeps-bind I (Keeps-attempt I (record_step-InOrder std o config _ _ _)) λ recorded.
        Keeps-bind I (Keeps-if I (failed_call recorded) (Keeps-throw I _) (Keeps-return I tt)) λ _.
          Keeps-Triple (
            Triple-weaken (completed-InOrder current.id "completed" "") (λ w i. (i, ground arith))
              (λ _ w i. i) (λ _ w i. i))

  abbrev Listed : List Node → World → Type 0
  Listed nodes w =
      I w
      × ((name : String) (address : Addr)
          → any (takes std name address) nodes ≡ false
          → listed_free std name address w.events ≡ true)

  abbrev Answered : Option (List Node) → World → Type 0
  Answered none w = I w
  Answered (some nodes) w = Listed nodes w

  Answered-of :
      (answer : Option (List Node)) (w : World)
      → I w
      → Answered answer (record w {
        tick = suc w.tick;
        events = elim answer [ none ↦ w.events | some nodes ↦ nodes_listed nodes ∷ w.events ];
      })
  Answered-of none w i = i
  Answered-of (some nodes) w i = (ground arith, λ name address free. ground arith)

  nodes-listed : Triple I (ask_nodes o) Answered (λ _. I)
  unfolding ask_nodes
  nodes-listed = record { run = λ w i. Answered-of (o.nodes w.tick) w i }

  Answered-InOrder : (answer : Option (List Node)) (w : World) → Answered answer w → I w
  Answered-InOrder none w i = i
  Answered-InOrder (some nodes) w (i, _) = i

  check_context-Answered :
      (answer : Option (List Node))
      → Triple (Answered answer) (check_context o) (λ _. Answered answer) (λ _. I)
  unfolding check_context
  check_context-Answered none = Triple-Keeps (check_context-InOrder std o config)
  check_context-Answered (some nodes) =
      Triple-weaken
        (Triple-Keeps {I = Listed nodes} (
          check_context-On o (λ events.
            (in_order std config events ≡ true)
            × ((name : String) (address : Addr)
                → any (takes std name address) nodes ≡ false
                → listed_free std name address events ≡ true))))
        (λ w i. i) (λ _ w i. i) (λ e w (i, _). i)

  listed_of-Listed :
      (current : Deployment) (answer : Option (List Node))
      → Triple (Answered answer) (listed_of o current answer) Listed (λ _. I)
  unfolding listed_of
  listed_of-Listed current none = fail_stage-ends _ _ _ _ _ refl
  listed_of-Listed current (some nodes) = Triple-return nodes (λ w i. i)

  -- What is known once a Node was looked for: if there is none, none takes the name or the address.
  abbrev Free : Deployment → Option Node → World → Type 0
  Free current none w = I w × (listed_free std current.node_name current.target_ip w.events ≡ true)
  Free current (some node) w = I w

  Free-of :
      (current : Deployment) (nodes : List Node) (found : Option Node) (w : World)
      → Recovered std current.node_name current.target_ip nodes found
      → Listed nodes w
      → Free current found w
  Free-of current nodes none w (free f) (i, k) = (i, k current.node_name current.target_ip f)
  Free-of current nodes (some node) w _ (i, _) = i

  recovered_of-Free :
      (current : Deployment) (nodes : List Node) (found : Result Kind (Option Node))
      → recoverable_node std nodes current.node_name current.target_ip ≡ found
      → Triple (Listed nodes) (recovered_of o current found) (Free current) (λ _. I)
  unfolding recovered_of
  recovered_of-Free current nodes (ok found) e =
      Triple-return found
        (λ w l. Free-of current nodes found w (recoverable_node-Recovered std nodes _ _ found e) l)
  recovered_of-Free current nodes (err kind) e =
      Triple-weaken (fail_stage-ends _ _ _ _ _ refl) (λ w (i, _). i) (λ _ w q. q) (λ _ w i. i)

  created_of-InOrder :
      (current : Deployment) (made : Option Node)
      → Triple I (created_of o current made) (λ _. I) (λ _. I)
  unfolding created_of
  created_of-InOrder current none = fail_stage-ends _ _ _ _ _ refl
  created_of-InOrder current (some node) = Triple-return node (λ w i. i)

  create-InOrder :
      (current : Deployment) (host : Host)
      → Triple
          (Free current none)
          (ask_create o
            (record { name = current.node_name; address = current.target_ip; host = host }))
          (λ _. I)
          (λ _. I)
  unfolding ask_create
  create-InOrder current host = record { run = λ w f. ground arith }

  node_for-InOrder :
      (current : Deployment) (host : Host) (found : Option Node)
      → Triple (Free current found) (node_for o current host found) (λ _. I) (λ _. I)
  unfolding node_for
  node_for-InOrder current host (some node) = Triple-return node (λ w i. i)
  node_for-InOrder current host none = Triple-bind (create-InOrder current host) λ made.
      Triple-bind (Triple-Keeps (check_context-InOrder std o config))
        λ _. created_of-InOrder current made

  find_or_create-InOrder :
      (current : Deployment) (host : Host) → Keeps I (find_or_create o std current host)
  unfolding find_or_create or_else
  find_or_create-InOrder current host = Keeps-Triple (
      Triple-bind nodes-listed λ answer. Triple-bind (check_context-Answered answer) λ _.
        Triple-bind (listed_of-Listed current answer) λ nodes.
          Triple-bind (recovered_of-Free current nodes _ refl) λ found.
            Triple-bind (node_for-InOrder current host found) λ node. Triple-Keeps (
              Keeps-bind I (Keeps-attempt I (set_uuid-InOrder std o config current.id node.uuid))
                (or_fail-InOrder _)))

  InOrder-Steady : Steady std o config I
  InOrder-Steady = record {
    context = check_context-InOrder std o config;
    read = get_deployment-InOrder std o config;
    write = λ id p n. record { run = λ w i. update-InOrder std o config id p w (ground arith) i };
    record_step = record_step-InOrder std o config;
    certificate = certificate-InOrder std o config;
    secret_key = secret_key-InOrder std o config;
    provision = provision-InOrder std o config;
    nodes = nodes-InOrder std o config;
    node = node-InOrder std o config;
    poll_time = poll_time-InOrder std o config;
    hosts = hosts-InOrder std o config;
    creation = find_or_create-InOrder;
    publication = publish-InOrder;
    omission = skip_dns-InOrder;
  }

  -- If the events of a world are in order, so are those after a run of Deploy, whatever the panel, the
  -- database, the VPS and the balancer answer and whenever the context ends: a Node is created only
  -- directly after the panel listed no Node with its name or its address, an address is added to the
  -- balancer only directly after the panel said that a Node is connected, and a job is completed only
  -- directly after an address was added, or on a panel without a balancer.
  pub deploy-InOrder :
      (input : StartInput) (w : World)
      → in_order std config w.events ≡ true
      → in_order std config (deploy std o config input w).1.events ≡ true
  deploy-InOrder input w h =
      (deploy-Keeps o (λ _ events. in_order std config events ≡ true) input InOrder-Steady).run w h
