-- ===== src/Repository/Laws.antt =====
-- What the tables keep to.
use remnanode_setup_bot.Base.{ℕ, String, ◌≡◌, inl, inr}
use remnanode_setup_bot.Base.{
  Bool, true, false, ◌&&◌, Option, none, some, List, [], ◌∷◌, arith, eq_iff,
}
use remnanode_setup_bot.Base.{
  ◌==◌, nat_comparable, string_comparable, if◌then◌else◌, Bool-cases, is_some, All,
}
use remnanode_setup_bot.Base.Net.{addr_comparable}
use remnanode_setup_bot.Deployment.{Status, created, is_terminal, StepStatus, Deployment, Step}
use remnanode_setup_bot.Repository.{
  StateParams, find_row, update_row, with_state, touch, with_node_uuid, upsert_step,
}

abbrev pub not_created : Status → Bool
not_created created = false
not_created _ = true

-- The lifecycle times of a job: it is over exactly in a terminal state, and it was begun unless it was
-- only created.
pub record IsTimed (d : Deployment) : Type 0 where
  pub over : is_some d.completed_at ≡ is_terminal d.status
  pub begun : not_created d.status ≡ true → is_some d.started_at ≡ true

-- The rows of a table keep their times in order.
abbrev pub AllTimed : List Deployment → Type 0
AllTimed = All IsTimed

-- Whatever state is written over a job, its times fit the new state.
pub with_state-IsTimed : (p : StateParams) (now : ℕ) (d : Deployment) → IsTimed (with_state p now d)
unfolding with_state
with_state-IsTimed p now d = ground arith

pub touch-IsTimed :
    (status : StepStatus) (name : String) (now : ℕ) (d : Deployment)
    → IsTimed d
    → IsTimed (touch status name now d)
unfolding touch
touch-IsTimed status name now d t = record { over = t.over; begun = t.begun }

pub with_node_uuid-IsTimed :
    (uuid : String) (now : ℕ) (d : Deployment) → IsTimed d → IsTimed (with_node_uuid uuid now d)
unfolding with_node_uuid
with_node_uuid-IsTimed uuid now d t = record { over = t.over; begun = t.begun }

-- An update of one row by a change that leaves its times in order leaves all of them so.
pub update_row-AllTimed :
    (id : String) (f : Deployment → Deployment) (rows : List Deployment)
    → ((d : Deployment) → IsTimed d → IsTimed (f d))
    → AllTimed rows
    → AllTimed (update_row id f rows)
unfolding update_row
update_row-AllTimed id f [] h t = tt
update_row-AllTimed id f (d ∷ ds) h (t, ts) = elim (Bool-cases (d.id == id)) [
  | inl e ↦ rw e (h d t, ts)
  | inr e ↦ rw e (t, update_row-AllTimed id f ds h ts)
]

abbrev pub map_row : (Deployment → Deployment) → Option Deployment → Option Deployment
map_row f none = none
map_row f (some d) = some (f d)

-- A read after an update that keeps ids: the row with the id is changed, every other is not.
pub find_row-update_row :
    (id other : String) (f : Deployment → Deployment) (rows : List Deployment)
    → ((d : Deployment) → (f d).id ≡ d.id)
    → find_row other (update_row id f rows)
      ≡ (if id == other then map_row f (find_row other rows) else find_row other rows)
unfolding find_row update_row
find_row-update_row id other f [] h = ground arith
find_row-update_row id other f (d ∷ ds) h = ground (
  arith,
  h d,
  eq_iff d.id id,
  eq_iff d.id other,
  eq_iff (f d).id other,
  eq_iff id other,
  find_row-update_row id other f ds h,
)

-- The status last recorded for a step.
unfoldable pub step_status : String → String → List Step → Option StepStatus
step_status id name [] = none
step_status id name (s ∷ ss) =
    if s.deployment_id == id && s.name == name then some s.status else step_status id name ss

-- A step recorded reads back, and no other step is changed.
pub step_status-upsert_step :
    (id name id' name' : String) (status : StepStatus) (now : ℕ) (steps : List Step)
    → step_status id' name' (upsert_step id name status now steps)
      ≡ (if id == id' && name == name' then some status else step_status id' name' steps)
unfolding step_status upsert_step
step_status-upsert_step id name id' name' status now [] = ground arith
step_status-upsert_step id name id' name' status now (s ∷ ss) = ground (
  arith,
  eq_iff s.deployment_id id,
  eq_iff s.name name,
  eq_iff s.deployment_id id',
  eq_iff s.name name',
  eq_iff id id',
  eq_iff name name',
  step_status-upsert_step id name id' name' status now ss,
)
