-- ===== src/Provisioner/Progress.antt =====
-- What the map of completed stages says of the table of steps: internal/provisioner/engine.go.
use remnanode_setup_bot.Base.{
  ℕ, String, ◌≡◌, refl, ◌∙◌, Bool, false, ◌&&◌, Option, none, some, List, [], ◌∷◌, arith, eq_iff,
  if◌then◌else◌, ◌==◌, string_comparable, Bool-cases, inl, inr,
}
use remnanode_setup_bot.Deployment.{StepStatus, Step}
use remnanode_setup_bot.Repository.{upsert_step, new_step, with_step}
use remnanode_setup_bot.Repository.Laws.{step_status, step_status-upsert_step}
use remnanode_setup_bot.Provisioner.{is_done, steps_of, mark_completed}

-- The primary key of the table: no two rows are of one step of one deployment.
abbrev pub IsKeyed : List Step → Type 0
IsKeyed [] = Unit
IsKeyed (s ∷ ss) = (step_status s.deployment_id s.name ss ≡ none) × IsKeyed ss

pub upsert_step-IsKeyed :
    (id name : String) (status : StepStatus) (now : ℕ) (steps : List Step)
    → IsKeyed steps
    → IsKeyed (upsert_step id name status now steps)
unfolding upsert_step step_status new_step with_step
upsert_step-IsKeyed id name status now [] k = (refl, tt)
upsert_step-IsKeyed id name status now (s ∷ ss) (fresh, k) =
    elim (Bool-cases (s.deployment_id == id && s.name == name)) [
      | inl e ↦ rw e (fresh, k)
      | inr e ↦ rw e (
        step_status-upsert_step id name s.deployment_id s.name status now ss
            ∙ ground (
              arith,
              fresh,
              eq_iff id s.deployment_id,
              eq_iff name s.name,
              eq_iff s.deployment_id id,
              eq_iff s.name name,
            ),
        upsert_step-IsKeyed id name status now ss k,
      )
    ]

abbrev pub or_status : Bool → Option StepStatus → Bool
or_status completed none = completed
or_status completed (some status) = is_done status

mark_completed-or_status :
    (id name : String) (steps : List Step) (completed : String → Bool)
    → IsKeyed steps
    → mark_completed (steps_of id steps) completed name
      ≡ or_status (completed name) (step_status id name steps)
unfolding mark_completed steps_of step_status
mark_completed-or_status id name [] completed k = refl
mark_completed-or_status id name (s ∷ ss) completed (fresh, k) = ground (
  arith,
  eq_iff s.deployment_id id,
  eq_iff s.name name,
  eq_iff name s.name,
  mark_completed-or_status id name ss completed k,
  mark_completed-or_status id name ss
      (λ (other : String). if other == s.name then is_done s.status else completed other) k,
)

-- Whether the table says that a stage is completed.
abbrev pub completed_in : String → List Step → String → Bool
completed_in id steps name = or_status false (step_status id name steps)

-- The map that a run starts from says of each stage what the table says.
pub mark_completed-completed_in :
    (id name : String) (steps : List Step)
    → IsKeyed steps
    → mark_completed (steps_of id steps) (λ _. false) name ≡ completed_in id steps name
mark_completed-completed_in id name steps k = mark_completed-or_status id name steps (λ _. false) k
