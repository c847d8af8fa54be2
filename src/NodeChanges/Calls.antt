-- ===== src/NodeChanges/Calls.antt =====
-- What the changes of a Node call: the panel's updates, the DNS balancer, the switch of a server to
-- another SNI, and the statements of internal/repository/postgres/postgres.go on a Node's job.
pub mod Reads
use remnanode_setup_bot.Base.{
  ℕ, suc, String, Bool, true, false, not, ◌&&◌, ◌||◌, Option, none, some, List, [], ◌∷◌,
  if◌then◌else◌, ◌==◌, string_comparable, ltb, Result, ok, err, ◌>>=◌, return, throw, attempt,
  is_blank, trim_space,
}
use remnanode_setup_bot.Base.Net.{Addr, is_valid, unmap}
use remnanode_setup_bot.Deployment.{Deployment}
use remnanode_setup_bot.Repository.{Db, valid_uuid, update_row}
use remnanode_setup_bot.Repository.Unfinished.{valid_panel_id}
use remnanode_setup_bot.Remnawave.{Host, Node}
use remnanode_setup_bot.Dns.Models.{ZoneMatch}
use remnanode_setup_bot.Orchestrator.World.{
  invalid_input, persistence_failed, Error, plain, not_found, message, Kind, Config, Outside,
  SniSwitch, Answer, refused, unchanged, changed, address_updated, profile_updated, ip_included,
  ip_replaced, ip_moved, sni_switched, target_saved, binding_saved, Run, tick_on, from_option,
}
use remnanode_setup_bot.Orchestrator.Stages.{has_row}

-- The answers of the panel, the balancer and the switch. `none` is an error; a change of a zone
-- answers whether the zone changed. `has_switcher`: a `NodeSNISwitcher` is configured.
pub record Services : Type 0 where
  pub has_switcher : Bool
  pub update_address : ℕ → String → Addr → Bool
  pub update_profile : ℕ → String → Host → Option Node
  pub find_zones : ℕ → Addr → Option (List ZoneMatch)
  pub find_zone : ℕ → String → Option ZoneMatch
  pub add_ip : ℕ → String → Addr → Option Bool
  pub replace_ip : ℕ → String → Addr → Addr → Option Bool
  pub move_ip : ℕ → String → String → Addr → Option Bool
  pub switch_sni : ℕ → SniSwitch → Bool

abbrev pub answer_of : Option Bool → Answer
answer_of none = refused
answer_of (some true) = changed
answer_of (some false) = unchanged

abbrev pub took_effect : Answer → Bool
took_effect changed = true
took_effect _ = false

abbrev pub did : Option Node → Bool
did none = false
did (some _) = true

-- `if err != nil { return kind }`.
unfoldable pub expect : {A : Type 0} → Kind → Option A → Run A
expect kind none = throw (plain kind)
expect kind (some a) = return a

-- `SNIDomain`, `HostUUID` and `HostRemark` of `SetNodeHostBindingParams`.
pub record Binding : Type 0 where
  pub host_uuid : String
  pub host_remark : String
  pub sni_domain : String

-- A statement on the jobs, if it succeeds.
abbrev pub on_rows : Bool → (List Deployment → List Deployment) → Db → Db
on_rows true f db = record db { deployments = f db.deployments }
on_rows false f db = db

-- The SET clauses of `SetTargetVPSIP` and `SetNodeHostBinding`.
unfoldable pub with_target : Addr → ℕ → Deployment → Deployment
with_target address now d = record d { target_ip = unmap address; updated_at = now }

unfoldable pub with_binding : Binding → ℕ → Deployment → Deployment
with_binding p now d = record d {
  host_uuid = p.host_uuid;
  host_remark = trim_space p.host_remark;
  sni_domain = trim_space p.sni_domain;
  updated_at = now;
}

abbrev is_job_of : String → String → Deployment → Bool
is_job_of panel node d =
    d.panel_id == panel && elim d.node_uuid [ none ↦ false | some uuid ↦ uuid == node ]

abbrev newer : Deployment → Option Deployment → Deployment
newer d none = d
newer d (some e) = if ltb d.updated_at e.updated_at then e else d

-- The SELECT of `FindDeploymentByPanelNodeUUID`; of rows updated at one time the first is taken.
unfoldable pub latest_job : String → String → List Deployment → Option Deployment
latest_job panel node [] = none
latest_job panel node (d ∷ ds) =
    let rest = latest_job panel node ds in
    if is_job_of panel node d then some (newer d rest) else rest

abbrev pub managed_of : Result Error Deployment → Run (Option Deployment)
managed_of (ok d) = return (some d)
managed_of (err not_found) = return none
managed_of (err _) = throw (plain persistence_failed)

module _ (o : Outside) where
  -- `FindDeploymentByPanelNodeUUID`.
  unfoldable pub find_job : String → String → Run Deployment
  unfolding latest_job
  find_job panel node w = (
    if not (valid_panel_id panel) || not (valid_uuid node)
        then err (plain invalid_input)
        else if o.db_fails w.tick
        then err (message "find deployment by panel Node UUID")
        else from_option (latest_job panel node w.db.deployments) not_found,
    tick_on w,
  )

  -- The call of it, with the errors that its callers tell apart: a Node without a job is `none`.
  unfoldable pub managed_job : Config → String → Run (Option Deployment)
  unfolding find_job
  managed_job config node = attempt (find_job config.panel_id node) >>= managed_of

  -- `SetTargetVPSIP`.
  unfoldable pub set_target_ip : String → Addr → Run Bool
  unfolding with_target
  set_target_ip id address w =
      let saved = valid_uuid id && is_valid address && not (o.db_fails w.tick) && has_row id w in
      (
        ok saved,
        record w {
          tick = suc w.tick;
          db = on_rows saved (update_row id (with_target address (o.now w.tick))) w.db;
          events = target_saved id address saved ∷ w.events;
        },
      )

  -- `SetNodeHostBinding`.
  unfoldable pub set_host_binding : String → Binding → Run Bool
  unfolding with_binding
  set_host_binding id p w =
      let saved =
        valid_uuid id
        && valid_uuid p.host_uuid
        && not (is_blank p.host_remark)
        && not (is_blank p.sni_domain)
        && not (o.db_fails w.tick)
        && has_row id w in
      (
        ok saved,
        record w {
          tick = suc w.tick;
          db = on_rows saved (update_row id (with_binding p (o.now w.tick))) w.db;
          events = binding_saved id p.sni_domain saved ∷ w.events;
        },
      )

module _ (services : Services) where
  -- The calls of the other components, each recorded with its answer.
  unfoldable pub update_address : String → Addr → Run Bool
  update_address uuid address w =
      let done = services.update_address w.tick uuid address in
      (
        ok done,
        record w { tick = suc w.tick; events = address_updated uuid address done ∷ w.events },
      )

  unfoldable pub update_profile : String → Host → Run (Option Node)
  update_profile uuid host w =
      let node = services.update_profile w.tick uuid host in
      (
        ok node,
        record w { tick = suc w.tick; events = profile_updated uuid host (did node) ∷ w.events },
      )

  unfoldable pub find_zones : Addr → Run (Option (List ZoneMatch))
  find_zones address w = (ok (services.find_zones w.tick address), tick_on w)

  unfoldable pub find_zone : String → Run (Option ZoneMatch)
  find_zone sni w = (ok (services.find_zone w.tick sni), tick_on w)

  unfoldable pub include_ip : String → Addr → Run Answer
  include_ip fqdn address w =
      let answer = answer_of (services.add_ip w.tick fqdn address) in
      (
        ok answer,
        record w { tick = suc w.tick; events = ip_included fqdn address answer ∷ w.events },
      )

  unfoldable pub replace_ip : String → Addr → Addr → Run Answer
  replace_ip fqdn from to w =
      let answer = answer_of (services.replace_ip w.tick fqdn from to) in
      (
        ok answer,
        record w { tick = suc w.tick; events = ip_replaced fqdn from to answer ∷ w.events },
      )

  unfoldable pub move_ip : String → String → Addr → Run Answer
  move_ip from to address w =
      let answer = answer_of (services.move_ip w.tick from to address) in
      (
        ok answer,
        record w { tick = suc w.tick; events = ip_moved from to address answer ∷ w.events },
      )

  unfoldable pub switch_sni : SniSwitch → Run Bool
  switch_sni input w =
      let done = services.switch_sni w.tick input in
      (ok done, record w { tick = suc w.tick; events = sni_switched input done ∷ w.events })
