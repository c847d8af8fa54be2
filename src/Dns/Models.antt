-- ===== src/Dns/Models.antt =====
-- The data of the client: internal/dnsbalancer/models.go, and the errors of the package.
use remnanode_setup_bot.Base.{ℕ, String}
use remnanode_setup_bot.Base.{Bool, Option, none, some, List, []}
use remnanode_setup_bot.Base.{Result, ok, err}

-- The sentinel errors, and the other failures. Messages are left out.
pub data Error : Type 0 where
  not_found ambiguous_zone invalid_input : Error
  unauthorized conflict unprocessable invalid_response : Error
  lock_failed transport : Error
  http_error : ℕ → Error

pub record ZoneNode : Type 0 where
  pub ip : String
  pub address : String

-- A slice that may be nil is an option.
pub record Zone : Type 0 where
  pub name : String
  pub ttl : ℕ
  pub proxied : Bool
  pub ips : Option (List String)
  pub nodes : Option (List ZoneNode)

pub record Domain : Type 0 where
  pub name : String
  pub zones : List Zone

pub record ZoneMatch : Type 0 where
  pub domain : String
  pub zone_name : String
  pub fqdn : String
  pub zone : Zone

pub record AddIpResult : Type 0 where
  pub fqdn : String
  pub added : Bool
  pub ips : List String

pub record ReplaceIpResult : Type 0 where
  pub fqdn : String
  pub changed : Bool
  pub ips : List String
  pub nodes : List ZoneNode

pub record MoveIpResult : Type 0 where
  pub source_fqdn : String
  pub target_fqdn : String
  pub changed : Bool

-- A nil slice ranges over nothing.
abbrev pub items {ℓ} : {A : Type ℓ} → Option (List A) → List A
items none = []
items (some xs) = xs

-- A computation that may fail and changes nothing.
abbrev pub and_then {ℓ κ} :
    {A : Type ℓ} {B : Type κ} → Result Error A → (A → Result Error B) → Result Error B
and_then (ok a) f = f a
and_then (err e) f = err e
