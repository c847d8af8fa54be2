-- ===== src/Recovery.antt =====
-- What becomes of unfinished jobs after a restart: internal/recovery/service.go. It works on the
-- tables and the panel of Orchestrator.World; a zone of the balancer is found by the number of the
-- call. Messages are left out.
pub mod Evidence
pub mod Laws
pub mod Reads
use remnanode_setup_bot.Base.{
  ℕ, suc, String, Bool, true, false, not, ◌&&◌, ◌||◌, Option, none, some, List, [], ◌∷◌,
  if◌then◌else◌, ◌==◌, string_comparable, leb, Result, ok, err, ◌>>=◌, ◌>>◌, return, throw, attempt,
  trim_space,
}
use remnanode_setup_bot.Base.Net.{Addr, unmap, addr_comparable, Std}
use remnanode_setup_bot.Deployment.{
  Status, creating_remnawave, waiting_remnawave, adding_to_dns, completed, failed, dns_failed,
  manual_review, skipped, Deployment,
}
use remnanode_setup_bot.Repository.{find_row}
use remnanode_setup_bot.Repository.Unfinished.{valid_panel_id, unfinished}
use remnanode_setup_bot.Remnawave.{Node}
use remnanode_setup_bot.Dns.Models.{Zone, ZoneMatch, items}
use remnanode_setup_bot.Dns.Zones.{holds, node_ips}
use remnanode_setup_bot.Orchestrator.World.{
  Error, not_found, message, nil_pointer, Outside, zone_read, Run, from_option, tick_on,
}
use remnanode_setup_bot.Orchestrator.Nodes.{address_matches}
use remnanode_setup_bot.Orchestrator.Stages.{
  get_deployment, update_deployment_state, record_deployment_step, set_remnawave_node_uuid,
}
use remnanode_setup_bot.Orchestrator.Calls.{
  step_create_node, step_wait_node, step_add_dns, ask_nodes, ask_node,
}

pub data Classification : Type 0 where
  safe_to_recheck safe_to_retry_dns recovered_completed needs_manual_review : Classification

-- `Result`, without its message.
pub record Verdict : Type 0 where
  pub deployment_id : String
  pub classification : Classification

-- What `RecoverUnfinished` returns: the results, and an error.
pub record Batch : Type 0 where
  pub results : List Verdict
  pub error : Option Error

-- `Service`.
pub record Service : Type 0 where
  pub panel_id : String
  pub dns_disabled : Bool

-- `if err != nil { return Result{}, errors.New(text) }`.
unfoldable pub replaced : {A : Type 0} → String → Result Error A → Run A
replaced text (ok a) = return a
replaced text (err _) = throw (message text)

unfoldable pub or_message : {A : Type 0} → Run A → String → Run A
unfolding replaced
or_message m text = attempt m >>= replaced text

-- The RETURNING clause of a statement.
unfoldable pub returned : String → Run Deployment
returned id w = (from_option (find_row id w.db.deployments) not_found, w)

-- `dnsContains`, once the zone is found.
unfoldable pub zone_contains : Std → Zone → Addr → Bool
zone_contains std zone target =
    holds std (unmap target) (items zone.ips)
    || holds std (unmap target) (node_ips (items zone.nodes))

abbrev pub is_external_step : String → Bool
is_external_step step = step == step_create_node || step == step_wait_node || step == step_add_dns

-- The cases of `classify`.
pub data Case : Type 0 where
  already_done inspected by_hand : Case

unfoldable pub case_of : Status → String → Case
case_of completed step = already_done
case_of creating_remnawave step = inspected
case_of waiting_remnawave step = inspected
case_of adding_to_dns step = inspected
case_of failed step = if is_external_step step then inspected else by_hand
case_of manual_review step = if is_external_step step then inspected else by_hand
case_of dns_failed step = inspected
case_of _ step = by_hand

abbrev pub foreign : String → Deployment → Bool
foreign panel item = not (item.panel_id == "") && not (item.panel_id == panel)

module _ (std : Std) where
  -- The test of the loop over the Nodes.
  abbrev pub is_exact : Deployment → Node → Bool
  is_exact item node =
      trim_space node.name == item.node_name && address_matches std item.target_ip node

  unfoldable pub exact_nodes : Deployment → List Node → List Node
  exact_nodes item [] = []
  exact_nodes item (node ∷ nodes) =
      let rest = exact_nodes item nodes in if is_exact item node then node ∷ rest else rest

module _ (std : Std) (o : Outside) (find_zone : ℕ → String → Option ZoneMatch)
    (service : Service) where
  abbrev result : Deployment → Classification → Verdict
  result item c = record { deployment_id = item.id; classification = c }

  -- A state is written, and the job is classified.
  unfoldable pub settle :
      Deployment → Status → String → Option String → Classification → String → Run Verdict
  settle item status step code c text = do
    or_message
        (update_deployment_state o item.id
          (record { status = status; current_step = step; error_code = code }))
        text
    return (result item c)

  -- `manual`.
  unfoldable pub manual : Deployment → Run Verdict
  unfolding settle
  manual item =
      settle item manual_review item.current_step (some "MANUAL_REVIEW_REQUIRED")
        needs_manual_review "persist manual review state failed"

  -- The calls of `dnsContains`; an error of them is `none`.
  unfoldable pub ask_zone : String → Addr → Run (Option Bool)
  unfolding zone_contains
  ask_zone sni target w =
      let answer : Option Bool = elim (find_zone w.tick sni) [
        | none ↦ none
        | some found ↦ some (zone_contains std found.zone target)
      ] in
      (
        ok answer,
        record w {
          tick = suc w.tick;
          events = elim answer [
            | none ↦ w.events
            | some contains ↦ zone_read sni target contains ∷ w.events
          ];
        },
      )

  unfoldable pub complete : Deployment → Run Verdict
  unfolding settle
  complete item =
      settle item completed "completed" none recovered_completed
        "persist recovered completion failed"

  unfoldable pub zone_answer : Deployment → Option Bool → Run Verdict
  unfolding manual complete settle
  zone_answer item none = manual item
  zone_answer item (some true) = complete item
  zone_answer item (some false) =
      settle item dns_failed step_add_dns (some "DNS_RETRY_REQUIRED") safe_to_retry_dns
        "persist DNS retry state failed"

  -- The rest of `inspectExternalState` for a Node that is connected.
  unfoldable pub inspect_dns : Deployment → Bool → Run Verdict
  unfolding ask_zone zone_answer complete
  inspect_dns item true = do
    ignored ← attempt (record_deployment_step o item.id step_add_dns skipped)
    complete item
  inspect_dns item false = do
    contains ← ask_zone item.sni_domain item.target_ip
    zone_answer item contains

  unfoldable pub node_answer : Deployment → Option Node → Run Verdict
  unfolding manual settle inspect_dns
  node_answer item none = manual item
  node_answer item (some node) =
      if node.is_connected
      then inspect_dns item service.dns_disabled
      else if node.is_connecting
      then settle item waiting_remnawave step_wait_node none safe_to_recheck
          "persist Remnawave recheck state failed"
      else manual item

  unfoldable pub inspect_node : Deployment → Option String → Run Verdict
  unfolding node_answer
  inspect_node item none = throw nil_pointer
  inspect_node item (some uuid) = do answer ← ask_node o uuid; node_answer item answer

  unfoldable pub adopt : Deployment → List Node → Run Verdict
  unfolding inspect_node manual
  adopt item (node ∷ []) = do
    updated ←
        or_message (do set_remnawave_node_uuid o item.id node.uuid; returned item.id)
          "persist recovered Remnawave Node failed"
    inspect_node updated updated.node_uuid
  adopt item _ = manual item

  unfoldable pub nodes_answer : Deployment → Option (List Node) → Run Verdict
  unfolding manual adopt exact_nodes
  nodes_answer item none = manual item
  nodes_answer item (some nodes) = adopt item (exact_nodes std item nodes)

  -- `inspectExternalState`, by the Node's UUID in the row.
  unfoldable pub inspect_external_state : Deployment → Option String → Run Verdict
  unfolding nodes_answer inspect_node
  inspect_external_state item none = do answer ← ask_nodes o; nodes_answer item answer
  inspect_external_state item (some uuid) = inspect_node item (some uuid)

  unfoldable pub classify_case : Deployment → Case → Run Verdict
  unfolding inspect_external_state manual
  classify_case item already_done = return (result item recovered_completed)
  classify_case item inspected = inspect_external_state item item.node_uuid
  classify_case item by_hand = manual item

  -- `classify`.
  unfoldable pub classify : Deployment → Run Verdict
  unfolding classify_case case_of
  classify item = classify_case item (case_of item.status item.current_step)

  -- `RecheckRemnawave`.
  unfoldable pub recheck_remnawave : String → Run Verdict
  unfolding classify
  recheck_remnawave id = do
    item ← or_message (get_deployment o id) "load deployment for recheck failed"
    if foreign service.panel_id item
        then throw (message "deployment belongs to another panel")
        else classify item

  -- `FindUnfinishedDeploymentsByPanel`.
  unfoldable pub find_unfinished : ℕ → Run (List Deployment)
  find_unfinished limit w = (
    if valid_panel_id service.panel_id && leb 1 limit && leb limit 100 && not (o.db_fails w.tick)
        then ok (unfinished service.panel_id limit w.db.deployments)
        else err not_found,
    tick_on w,
  )

  abbrev pub after_item : Result Error Verdict → Run Batch → Run Batch
  after_item (err e) rest = return (record { results = []; error = some e })
  after_item (ok verdict) rest = do
    batch ← rest
    return (record batch { results = verdict ∷ batch.results })

  -- The loop of `RecoverUnfinished`.
  unfoldable pub recover_items : List Deployment → Run Batch
  unfolding classify
  recover_items [] = return (record { results = []; error = none })
  recover_items (item ∷ items) =
      let rest = recover_items items in
      if foreign service.panel_id item
      then rest
      else (do answer ← attempt (classify item); after_item answer rest)

  abbrev pub after_find : Result Error (List Deployment) → Run Batch
  after_find (err _) =
      return (record { results = []; error = some (message "load unfinished deployments failed") })
  after_find (ok items) = recover_items items

  -- `RecoverUnfinished`.
  unfoldable pub recover_unfinished : ℕ → Run Batch
  unfolding recover_items
  recover_unfinished limit = do found ← attempt (find_unfinished limit); after_find found
