-- ===== src/Orchestrator/World.antt =====
-- What the workflow runs on: the tables, the components that it calls, and the record of its calls.
-- The components answer by the number of the call, so that every behaviour of theirs is covered.
use remnanode_setup_bot.Base.{ℕ, suc, String}
use remnanode_setup_bot.Base.{Bool, Option, none, some, List}
use remnanode_setup_bot.Base.{if◌then◌else◌}
use remnanode_setup_bot.Base.{Result, ok, err, ◌>>=◌, ◌>>◌, return, throw, attempt}
use remnanode_setup_bot.Base.Net.{Addr}
use remnanode_setup_bot.Deployment.{Status}
use remnanode_setup_bot.Repository.{Db}
use remnanode_setup_bot.Remnawave.{Host, Node}

-- The sentinel errors of types.go; `context_done` is the error of a cancelled context. The code of a
-- safe error is kept, its text for the operator is left out. `message` is an error made by
-- `errors.New`, `nil_pointer` the panic of a nil pointer.
pub data Kind : Type 0 where
  invalid_input host_unavailable duplicate_name duplicate_address duplicate_both : Kind
  certificate_unavailable provisioning_failed creation_failed : Kind
  connection_failed connection_timeout dns_update_failed dns_retry_required : Kind
  already_running not_runnable persistence_failed preflight_failed : Kind
  ip_change_failed node_not_found node_host_move_failed node_state_changed node_host_unchanged :
      Kind
  node_sni_switch_failed dns_sync_unavailable dns_target_unknown ambiguous_node : Kind

pub data Error : Type 0 where
  plain : Kind → Error
  safe : String → Kind → Error
  context_done : Error
  not_found : Error
  out_of_fuel : Error
  message : String → Error
  nil_pointer : Error

-- How the certificate manager can fail: the errors that the workflow tells apart.
pub data CertificateFailure : Type 0 where
  issuance distribution storage persistence unclassified : CertificateFailure

pub record Material : Type 0 where
  pub certificate : String
  pub private_key : String

-- `NodeSNISwitchInput`.
pub record SniSwitch : Type 0 where
  pub address : Addr
  pub previous_sni : String
  pub target_sni : String
  pub password : String
  pub previous_certificate : Material
  pub certificate : Material

-- What the balancer answers to a change: an error, that nothing was to be done, or that it was done.
pub data Answer : Type 0 where
  refused unchanged changed : Answer

pub record CreateNodeInput : Type 0 where
  pub name : String
  pub address : Addr
  pub host : Host

-- `ProvisionVPSInput`.
pub record ProvisionInput : Type 0 where
  pub deployment_id : String
  pub address : Addr
  pub sni_domain : String
  pub secret_key : String
  pub certificate : Material

-- `Config`, with durations in one unit; `NewDeploymentService` treats what is not positive as absent,
-- and 0 stands for it.
pub record Config : Type 0 where
  pub panel_id : String
  pub dns_disabled : Bool
  pub max_concurrent : ℕ
  pub node_connect_timeout : ℕ
  pub initial_poll_backoff : ℕ
  pub max_poll_backoff : ℕ

-- The answers of the context, the database, the panel, the certificate manager, the VPS operator and
-- the DNS client. `none` is an error.
pub record Outside : Type 0 where
  pub done : ℕ → Bool
  pub db_fails : ℕ → Bool
  pub now : ℕ → ℕ
  pub hosts : ℕ → Option (List Host)
  pub nodes : ℕ → Option (List Node)
  pub node : ℕ → String → Option Node
  pub create : ℕ → CreateNodeInput → Option Node
  pub secret_key : ℕ → Option String
  pub certificate : ℕ → String → Result CertificateFailure Material
  pub provision : ℕ → ProvisionInput → Bool
  pub add_ip : ℕ → String → Addr → Bool
  pub slot : ℕ → Bool
  pub poll_time : ℕ → ℕ

-- The calls with effects outside, and the reads that guard them.
pub data Event : Type 0 where
  node_created : String → Addr → Event
  nodes_listed : List Node → Event
  node_read : String → Bool → Event
  ip_added : String → Addr → Bool → Event
  vps_provisioned : ProvisionInput → Bool → Event
  zone_read : String → Addr → Bool → Event
  state_written : String → Status → Event
  address_updated : String → Addr → Bool → Event
  profile_updated : String → Host → Bool → Event
  ip_included : String → Addr → Answer → Event
  ip_replaced : String → Addr → Addr → Answer → Event
  ip_moved : String → String → Addr → Answer → Event
  sni_switched : SniSwitch → Bool → Event
  target_saved : String → Addr → Bool → Event
  binding_saved : String → String → Bool → Event

pub record World : Type 0 where
  pub tick : ℕ
  pub db : Db
  pub running : List String
  pub slots : ℕ
  pub events : List Event

abbrev pub Run : Type 0 → Type 0
Run A = World → Result Error A × World

abbrev pub tick_on : World → World
tick_on w = record w { tick = suc w.tick }

abbrev pub from_option {ℓ} : {A : Type ℓ} → Option A → Error → Result Error A
from_option none e = err e
from_option (some a) e = ok a

module _ (o : Outside) where
  -- `if ctx.Err() != nil { return ctx.Err() }`.
  unfoldable pub check_context : Run (Unit {0})
  check_context w = (if o.done w.tick then err context_done else ok tt, tick_on w)

  unfoldable pub or_fail : {A : Type 0} → Error → Result Error A → Run A
  or_fail e (ok a) = return a
  or_fail e (err _) = check_context >> throw e

  -- `if err != nil { if ctx.Err() != nil { return ctx.Err() }; return e }`.
  unfoldable pub or_else : {A : Type 0} → Run A → Error → Run A
  unfolding or_fail
  or_else m e = attempt m >>= or_fail e
