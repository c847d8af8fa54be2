-- ===== src/Provisioner/Touches.antt =====
-- What a stage of internal/provisioner/engine.go leaves as it is.
use remnanode_setup_bot.Base.{
  suc, String, ◌≡◌, refl, ◌∙◌, Bool, false, List, [], ◌∷◌, arith, if◌then◌else◌, ◌==◌,
  string_comparable, Bool-cases, inl, inr,
}
use remnanode_setup_bot.Deployment.{StepStatus, running, done, broken}
use remnanode_setup_bot.Repository.Laws.{step_status, step_status-upsert_step}
use remnanode_setup_bot.Provisioner.{
  Stage, Event, inspected, applied, validated, World, Outside, Ran, run_stage, applied_stage,
  validated_stage, record_status, finish_stage, start_stage, turn,
}

abbrev pub event_name : Event → String
event_name (inspected name) = name
event_name (applied name) = name
event_name (validated name) = name

-- What was done for one stage.
abbrev pub acts_of : String → List Event → List Event
acts_of other [] = []
acts_of other (e ∷ es) = if event_name e == other then e ∷ acts_of other es else acts_of other es

-- Of the stage `other`, neither the row nor anything on the VPS is touched.
pub record Untouched (id other : String) (w w' : World) : Type 0 where
  pub row : step_status id other w'.steps ≡ step_status id other w.steps
  pub acts : acts_of other w'.events ≡ acts_of other w.events

pub Untouched-trans :
    {id other : String} {u v w : World}
    → Untouched id other u v
    → Untouched id other v w
    → Untouched id other u w
Untouched-trans h k = record { row = k.row ∙ h.row; acts = k.acts ∙ h.acts }

module _ (id other : String) (stage : Stage) (differs : (stage.name == other) ≡ false) where
  pub run_stage-Untouched : (w : World) → Untouched id other w (run_stage stage w).1
  unfolding run_stage applied_stage validated_stage
  run_stage-Untouched w = record { row = ground arith; acts = ground arith }

  module _ (o : Outside) where
    record_status-Untouched :
        (status : StepStatus) (w : World)
        → Untouched id other w (record_status o id stage.name status w).1
    unfolding record_status
    record_status-Untouched status w = record {
      row =
          ground
            (arith, step_status-upsert_step id stage.name id other status (o.now w.tick) w.steps);
      acts = ground arith;
    }

    finish_stage-Untouched :
        (ran : Ran) (w : World) → Untouched id other w (finish_stage o id stage ran w).1
    unfolding finish_stage
    finish_stage-Untouched ran w =
        ground (arith, record_status-Untouched broken w, record_status-Untouched done w)

    start_stage-Untouched : (w : World) → Untouched id other w (start_stage o id stage w).1
    unfolding start_stage
    start_stage-Untouched w =
        let w' = (record_status o id stage.name running w).1 in
        let (ran, w'') = run_stage stage w' in
        elim (Bool-cases (record_status o id stage.name running w).0) [
          | inl e ↦ rw e (
              Untouched-trans (record_status-Untouched running w)
                (Untouched-trans (run_stage-Untouched w') (finish_stage-Untouched ran w'')))
          | inr e ↦ rw e (record_status-Untouched running w)
        ]

    pub turn-Untouched :
        (completed : String → Bool) (w : World)
        → Untouched id other w (turn o id completed stage w).1
    unfolding turn
    turn-Untouched completed w =
        let started = start_stage-Untouched (record w { tick = suc w.tick }) in
        elim (Bool-cases (completed stage.name)) [
          | inl e ↦ rw e (record { row = refl; acts = refl })
          | inr e ↦ elim (Bool-cases (o.ended w.tick)) [
            | inl f ↦ rw (e, f) (record { row = refl; acts = refl })
            | inr f ↦ rw (e, f) (record { row = started.row; acts = started.acts })
          ]
        ]
