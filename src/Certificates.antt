-- ===== src/Certificates.antt =====
-- The certificates of one domain: internal/certmanager/manager.go over the statements of
-- internal/repository/postgres/certificates.go. The store of materials, the issuer, the check of a
-- material (X.509), the resolver and the distributor answer by the number of the call. Serial
-- numbers, the dates but the expiry, observers and texts are left out, and a statement that refuses an
-- argument counts as one that fails.
pub mod Statements
pub mod Distribution
pub mod Issuance
pub mod Rollback
pub mod Steady
pub mod Ordered
pub mod Served
use remnanode_setup_bot.Base.{ℕ, String, Bool, Option, List, Result}
use remnanode_setup_bot.Base.Net.{Addr}

pub data Error : Type 0 where
  not_found invalid_material issuance_failed storage_failed : Error
  persistence_failed distribution_failed cancelled invalid_input : Error
  other : ℕ → Error

-- `Status` of a record.
pub data RecordStatus : Type 0 where
  issuing active renewal_due distribution_missed invalid : RecordStatus

pub data VersionStatus : Type 0 where
  pending current superseded undistributed rejected : VersionStatus

pub record Material : Type 0 where
  pub fullchain : String
  pub private_key : String

-- `certificates.Info`.
pub record Info : Type 0 where
  pub fingerprint : String
  pub expires_at : ℕ

pub record Version : Type 0 where
  pub version : String
  pub fingerprint : String
  pub expires_at : ℕ
  pub status : VersionStatus

-- `Record`, as `GetActive` returns it.
pub record Active : Type 0 where
  pub version : String
  pub fingerprint : String
  pub expires_at : ℕ

pub record Target : Type 0 where
  pub deployment_id : String
  pub ip : Addr

-- `TargetResolution`.
pub record Resolution : Type 0 where
  pub managed : List Target
  pub unmanaged : List Addr
  pub acknowledged : List Addr

pub record Delivery : Type 0 where
  pub target : Target
  pub succeeded : Bool

-- Why the marker of the store was set.
pub data Reason : Type 0 where
  chosen repaired undone : Reason

-- The calls that change the Nodes, the marker or the active record, when they took effect.
-- `resolved` is what the resolver answered; `unneeded` is a distribution without targets, with whether
-- there is a resolver.
pub data Event : Type 0 where
  delivered : String → List Target → List Delivery → Event
  unneeded : String → Bool → Event
  resolved : Resolution → Event
  marked : Reason → String → Event
  activated : String → Event

pub record Config : Type 0 where
  pub renew_before : ℕ
  pub has_resolver : Bool
  pub has_distributor : Bool

pub record Outside : Type 0 where
  pub locks : ℕ → Bool
  pub ended : ℕ → Bool
  pub now : ℕ → ℕ
  pub db_fails : ℕ → Bool
  pub issue : ℕ → Result Error Material
  pub validate : ℕ → Material → Option Info
  pub stage : ℕ → Material → Result Error String
  pub load : ℕ → String → Result Error Material
  pub marker_fails : ℕ → Bool
  pub mark : ℕ → String → Result Error (Unit {0})
  pub resolve : ℕ → Result Error Resolution
  pub distribute : ℕ → Material → List Target → List Delivery

-- The tables and the marker of one domain, the number of calls, and the events, newest first.
pub record World : Type 0 where
  pub tick : ℕ
  pub status : Option RecordStatus
  pub active : Option Active
  pub versions : List Version
  pub marker : Option String
  pub events : List Event

abbrev pub Run : Type 0 → Type 0
Run A = World → Result Error A × World
