-- ===== src/Orchestrator/Prepare.antt =====
-- Prepare of internal/orchestrator/service.go, with CreateDeployment of
-- internal/repository/postgres/postgres.go. The id drawn and the preflight of the VPS are given by the
-- number of the call. What is only shown to the operator, the zone, the readiness of the certificate
-- and the warnings, is left out of the result; the calls for it are made.
use remnanode_setup_bot.Base.{
  ℕ, suc, ◌+◌, ◌*◌, String, Bool, true, false, not, ◌&&◌, ◌||◌, Option, none, some, ◌∷◌, leb, ltb,
  ◌==◌, nat_comparable, string_comparable, if◌then◌else◌, Result, ok, err, ◌>>=◌, ◌>>◌, return,
  throw, attempt, lift, trim_space, is_blank, is_some,
}
use remnanode_setup_bot.Base.Net.{Addr, invalid, v4, v4_in_6, v6, unmap, is_valid, Std}
use remnanode_setup_bot.Deployment
use remnanode_setup_bot.Deployment.{Deployment}
use remnanode_setup_bot.Repository.{valid_uuid, find_row}
use remnanode_setup_bot.Repository.Unfinished.{valid_panel_id}
use remnanode_setup_bot.Remnawave.{valid_node_name}
use remnanode_setup_bot.Orchestrator.World.{
  invalid_input, persistence_failed, preflight_failed, Error, plain, safe, not_found, Config,
  Outside, Run, tick_on, check_context, or_else,
}
use remnanode_setup_bot.Orchestrator.Nodes.{Selected}
use remnanode_setup_bot.Orchestrator.Stages.{
  get_deployment, begin_stage, complete_stage, fail_stage, with_execution, with_slot,
}
use remnanode_setup_bot.Orchestrator.Calls.{step_preflight, unless}
use remnanode_setup_bot.Orchestrator.Deploy.{selected_host, check_unique}

-- `PrepareInput`; of the password only whether there is one.
pub record PrepareInput : Type 0 where
  pub panel_id : String
  pub operator : ℕ
  pub host_id : String
  pub node_name : String
  pub ip : Addr
  pub has_password : Bool

abbrev ip4 : ℕ → ℕ → ℕ → ℕ → ℕ
ip4 a b c d = ((a * 256 + b) * 256 + c) * 256 + d

abbrev within : ℕ → ℕ → ℕ → Bool
within base size n = leb base n && ltb n (base + size)

-- What `IsGlobalUnicast` and the tests beside it refuse of IPv4, and the prefixes of `publicIP`.
refused_v4 : ℕ → Bool
refused_v4 n =
    n == 0
    || n == ip4 255 255 255 255
    || within (ip4 10 0 0 0) 0x1000000 n
    || within (ip4 172 16 0 0) 0x100000 n
    || within (ip4 192 168 0 0) 0x10000 n
    || within (ip4 127 0 0 0) 0x1000000 n
    || within (ip4 169 254 0 0) 0x10000 n
    || within (ip4 224 0 0 0) 0x10000000 n
    || within (ip4 100 64 0 0) 0x400000 n
    || within (ip4 192 0 2 0) 0x100 n
    || within (ip4 198 18 0 0) 0x20000 n
    || within (ip4 198 51 100 0) 0x100 n
    || within (ip4 203 0 113 0) 0x100 n

-- The same of IPv6; a prefix contains no address with a zone, and the unspecified address has none.
refused_v6 : ℕ → String → Bool
refused_v6 n zone =
    (n == 0 && zone == "")
    || n == 1
    || within 0xfc000000000000000000000000000000 0x2000000000000000000000000000000 n
    || within 0xfe800000000000000000000000000000 0x400000000000000000000000000000 n
    || within 0xff000000000000000000000000000000 0x1000000000000000000000000000000 n
    || (zone == "" && within 0x20010db8000000000000000000000000 0x1000000000000000000000000 n)

public_unmapped : Addr → Bool
public_unmapped invalid = false
public_unmapped (v4 n) = not (refused_v4 n)
public_unmapped (v4_in_6 n _) = not (refused_v4 n)
public_unmapped (v6 n zone) = not (refused_v6 n zone)

-- `publicIP`.
unfoldable pub public_ip : Addr → Bool
unfolding public_unmapped refused_v4 refused_v6
public_ip address = is_valid address && public_unmapped (unmap address)

-- `CreateDeploymentParams` with the id.
pub record CreateParams : Type 0 where
  pub id : String
  pub panel_id : String
  pub operator : ℕ
  pub host_uuid : String
  pub host_remark : String
  pub sni_domain : String
  pub node_name : String
  pub target_ip : Addr

-- `validateCreate`.
unfoldable pub valid_create : CreateParams → Bool
valid_create p =
    valid_uuid p.id
    && not (p.operator == 0)
    && valid_panel_id p.panel_id
    && valid_uuid p.host_uuid
    && not (is_blank p.sni_domain)
    && not (is_blank p.node_name)
    && is_valid p.target_ip

-- The row that `CreateDeployment` inserts.
abbrev pub created_row : CreateParams → ℕ → Deployment
created_row p now = record {
  id = p.id;
  panel_id = p.panel_id;
  operator = p.operator;
  host_uuid = p.host_uuid;
  host_remark = p.host_remark;
  sni_domain = p.sni_domain;
  node_name = p.node_name;
  target_ip = p.target_ip;
  node_uuid = none;
  status = Deployment.created;
  current_step = "created";
  error_code = none;
  created_at = now;
  updated_at = now;
  started_at = none;
  completed_at = none;
}

module _ (std : Std) (o : Outside) (config : Config) (new_id : ℕ → Option String)
    (passes : ℕ → Option Bool) where
  -- The INSERT of `CreateDeployment`; the id is the primary key.
  unfoldable pub insert_deployment : CreateParams → Run Deployment
  insert_deployment p w =
      if valid_create p && not (o.db_fails w.tick) && not (is_some (find_row p.id w.db.deployments))
      then (
        ok (created_row p (o.now w.tick)),
        record w {
          tick = suc w.tick;
          db = record w.db { deployments = created_row p (o.now w.tick) ∷ w.db.deployments };
        },
      )
      else (err not_found, tick_on w)

  abbrev pub params_of : PrepareInput → Selected → String → CreateParams
  params_of input selected id = record {
    id = id;
    panel_id = if is_blank config.panel_id then "default" else config.panel_id;
    operator = input.operator;
    host_uuid = selected.host.uuid;
    host_remark = selected.host.remark;
    sni_domain = selected.profile.sni_domain;
    node_name = trim_space input.node_name;
    target_ip = unmap input.ip;
  }

  unfoldable pub create_with : PrepareInput → Selected → Option String → Run Deployment
  create_with input selected none = throw not_found
  create_with input selected (some id) = insert_deployment (params_of input selected id)

  -- `CreateDeployment` of a job for the input.
  unfoldable pub create_deployment : PrepareInput → Selected → Run Deployment
  unfolding create_with insert_deployment
  create_deployment input selected w = create_with input selected (new_id w.tick) (tick_on w)

  -- A call whose answer is only shown.
  unfoldable pub shown_call : Run (Unit {0})
  shown_call w = (ok tt, tick_on w)

  unfoldable pub ask_preflight : Run (Option Bool)
  ask_preflight w = (ok (passes w.tick), tick_on w)

  unfoldable pub preflight_of : String → Option Bool → Run (Unit {0})
  preflight_of id none =
      fail_stage o id step_preflight Deployment.failed "PREFLIGHT_FAILED"
        (safe "PREFLIGHT_FAILED" preflight_failed)
  preflight_of id (some false) =
      fail_stage o id step_preflight Deployment.failed "PREFLIGHT_REJECTED"
        (safe "PREFLIGHT_REJECTED" preflight_failed)
  preflight_of id (some true) = return tt

  -- The stage of the preflight, and the job as it is then.
  unfoldable pub preflight_job : String → Run Deployment
  unfolding shown_call ask_preflight preflight_of
  preflight_job id = do
    begin_stage o id Deployment.preflight step_preflight
    answer ← ask_preflight
    check_context o
    preflight_of id answer
    complete_stage o id step_preflight
    current ← or_else o (get_deployment o id) (safe "PERSISTENCE_READ_FAILED" persistence_failed)
    unless config.dns_disabled shown_call
    check_context o
    shown_call
    check_context o
    return current

  unfoldable pub unique_or : Result Error (Unit {0}) → Run (Unit {0})
  unique_or (ok _) = return tt
  unique_or (err e) = check_context o >> throw e

  abbrev pub refuses : PrepareInput → Bool
  refuses input =
      not (is_blank input.panel_id) && not (input.panel_id == config.panel_id)
      || input.operator == 0
      || is_blank input.host_id
      || not (valid_node_name input.node_name)
      || not (public_ip input.ip)
      || not input.has_password

  -- `Prepare`.
  unfoldable pub prepare : PrepareInput → Run Deployment
  unfolding create_deployment preflight_job unique_or
  prepare input = if refuses input then throw (plain invalid_input) else (do
    answer ← attempt (selected_host std o config input.host_id)
    check_context o
    selected ← lift answer
    unique ← attempt (check_unique std o config (trim_space input.node_name) input.ip "" false)
    unique_or unique
    created ←
        or_else o (create_deployment input selected)
          (safe "PERSISTENCE_CREATE_FAILED" persistence_failed)
    with_execution created.id (with_slot o (preflight_job created.id)))
