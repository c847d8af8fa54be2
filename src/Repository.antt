-- ===== src/Repository.antt =====
-- The tables of jobs and steps: internal/repository/postgres/postgres.go. A statement that succeeds
-- is a function on the rows; whether one fails is decided by the caller of these.
pub mod Laws
pub mod Unfinished
use remnanode_setup_bot.Base.{ℕ, zero, suc, String}
use remnanode_setup_bot.Base.{Bool, true, false, not, ◌&&◌, ◌||◌, Option, none, some, List, [], ◌∷◌}
use remnanode_setup_bot.Base.{leb, ◌==◌, nat_comparable, string_comparable, if◌then◌else◌, length}
use remnanode_setup_bot.Base.Net.{addr_comparable}
use Prim.Native.Char.{code}
use remnanode_setup_bot.Deployment.{
  Status, created, is_terminal, StepStatus, pending, running, is_finished, Deployment, Step,
}

pub record Db : Type 0 where
  pub deployments : List Deployment
  pub steps : List Step

-- `UpdateDeploymentStateParams`, without the message.
pub record StateParams : Type 0 where
  pub status : Status
  pub current_step : String
  pub error_code : Option String

-- `validUUID`, on the bytes of the text: 36 bytes, dashes at four places, and an even number of hexadecimal digits beside the
-- dashes. A text with a character that is not ASCII is refused either way.
unfoldable pub codes : String → List ℕ
codes String.[] = []
codes (String.◌∷◌ c s) = code c ∷ codes s

unfoldable pub is_hex : ℕ → Bool
is_hex c = (leb b'0' c && leb c b'9') || (leb b'a' c && leb c b'f') || (leb b'A' c && leb c b'F')

-- The digits beside the dashes, `none` if something else occurs.
unfoldable pub hex_digits : List ℕ → Option ℕ
hex_digits [] = some 0
hex_digits (c ∷ cs) = elim (hex_digits cs) [
  | none ↦ none
  | some n ↦ if c == b'-' then some n else if is_hex c then some (suc n) else none
]

unfoldable pub dash_at : ℕ → List ℕ → Bool
dash_at i [] = false
dash_at zero (c ∷ cs) = c == b'-'
dash_at (suc i) (c ∷ cs) = dash_at i cs

unfoldable pub is_even : ℕ → Bool
is_even zero = true
is_even (suc n) = not (is_even n)

unfoldable pub valid_uuid_bytes : List ℕ → Bool
unfolding is_hex hex_digits dash_at is_even
valid_uuid_bytes cs =
    length cs == 36
    && dash_at 8 cs
    && dash_at 13 cs
    && dash_at 18 cs
    && dash_at 23 cs
    && elim (hex_digits cs) [ none ↦ false | some n ↦ is_even n ]

unfoldable pub valid_uuid : String → Bool
unfolding codes valid_uuid_bytes
valid_uuid value = valid_uuid_bytes (codes value)

-- `COALESCE`.
abbrev pub coalesce {ℓ} : {A : Type ℓ} → Option A → A → A
coalesce none a = a
coalesce (some b) a = b

-- The row with an id.
unfoldable pub find_row : String → List Deployment → Option Deployment
find_row id [] = none
find_row id (d ∷ ds) = if d.id == id then some d else find_row id ds

-- `UPDATE deployments … WHERE id = $1`; the id is the primary key.
unfoldable pub update_row : String → (Deployment → Deployment) → List Deployment → List Deployment
update_row id f [] = []
update_row id f (d ∷ ds) = if d.id == id then f d ∷ ds else d ∷ update_row id f ds

abbrev with_start : Status → ℕ → Option ℕ → Option ℕ
with_start created now started = started
with_start _ now started = some (coalesce started now)

-- The SET clause of `UpdateDeploymentState`.
unfoldable pub with_state : StateParams → ℕ → Deployment → Deployment
unfolding is_terminal
with_state p now d = record d {
  status = p.status;
  current_step = p.current_step;
  error_code = p.error_code;
  started_at = with_start p.status now d.started_at;
  completed_at = if is_terminal p.status then some (coalesce d.completed_at now) else none;
  updated_at = now;
}

abbrev is_running : StepStatus → Bool
is_running running = true
is_running _ = false

-- The UPDATE of `RecordDeploymentStep`.
unfoldable pub touch : StepStatus → String → ℕ → Deployment → Deployment
touch status name now d = record d {
  current_step = if is_running status then name else d.current_step;
  updated_at = now;
}

-- The SET clause of `SetRemnawaveNodeUUID`.
unfoldable pub with_node_uuid : String → ℕ → Deployment → Deployment
with_node_uuid uuid now d = record d { node_uuid = some uuid; updated_at = now }

abbrev fresh_start : StepStatus → ℕ → Option ℕ
fresh_start pending now = none
fresh_start _ now = some now

-- The row that `RecordDeploymentStep` inserts.
unfoldable pub new_step : String → String → StepStatus → ℕ → Step
unfolding is_finished
new_step id name status now = record {
  deployment_id = id;
  name = name;
  status = status;
  started_at = fresh_start status now;
  completed_at = if is_finished status then some now else none;
}

abbrev kept_start : StepStatus → ℕ → Option ℕ → Option ℕ
kept_start pending now started = started
kept_start _ now started = some (coalesce started now)

-- Its ON CONFLICT clause.
unfoldable pub with_step : StepStatus → ℕ → Step → Step
unfolding is_finished
with_step status now s = record s {
  status = status;
  started_at = kept_start status now s.started_at;
  completed_at = if is_finished status then some (coalesce s.completed_at now) else none;
}

unfoldable pub upsert_step : String → String → StepStatus → ℕ → List Step → List Step
unfolding new_step with_step
upsert_step id name status now [] = new_step id name status now ∷ []
upsert_step id name status now (s ∷ ss) =
    if s.deployment_id == id && s.name == name
    then with_step status now s ∷ ss
    else s ∷ upsert_step id name status now ss
