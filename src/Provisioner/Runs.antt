-- ===== src/Provisioner/Runs.antt =====
-- What a run of the engine does: RunWithProgress of internal/provisioner/engine.go.
use mathlib.Core.Path.{subst}
use remnanode_setup_bot.Base.{
  suc, String, ◌≡◌, ◌⊎◌, refl, ◌∙◌, Bool, true, false, none, some, List, [], ◌∷◌, map, arith,
  eq_iff, ◌==◌, string_comparable, Bool-cases, inl, inr, any, All, is_blank,
}
use remnanode_setup_bot.Deployment.{skipped}
use remnanode_setup_bot.Provisioner.{
  Stage, World, Outside, Error, Report, stage_names, same_names, new_engine, steps_of,
  mark_completed, turn, run_stages, run_with_progress,
}
use remnanode_setup_bot.Provisioner.Progress.{IsKeyed, mark_completed-completed_in}
use remnanode_setup_bot.Provisioner.Loop.{
  AllCompleted, absent, Distinct, Stopped, Stopped-tick, Agrees, run_stages-completes,
  run_stages-stops,
}

abbrev NoRepeat : List String → Type 0
NoRepeat [] = Unit
NoRepeat (name ∷ names) = (any (λ (other : String). other == name) names ≡ false) × NoRepeat names

same_names-absent :
    (stages : List Stage) (names : List String) (name : String)
    → same_names stages names ≡ true
    → any (λ (other : String). other == name) names ≡ false
    → absent name stages ≡ true
unfolding same_names
same_names-absent [] [] name h n = refl
same_names-absent (stage ∷ stages) (first ∷ names) name h n =
    ground (arith, eq_iff stage.name first, same_names-absent stages names name)
same_names-absent [] (first ∷ names) name h n = absurd (ground arith)
same_names-absent (stage ∷ stages) [] name h n = absurd (ground arith)

same_names-Distinct :
    (stages : List Stage) (names : List String)
    → same_names stages names ≡ true
    → NoRepeat names
    → Distinct stages
unfolding same_names
same_names-Distinct [] names h n = tt
same_names-Distinct (stage ∷ stages) [] h n = absurd (ground arith)
same_names-Distinct (stage ∷ stages) (first ∷ names) h (n, ns) = (
  ground (arith, eq_iff stage.name first, same_names-absent stages names stage.name),
  same_names-Distinct stages names (ground arith) ns,
)

new_engine-Distinct :
    (stages : List Stage) {engine : List Stage} → new_engine stages ≡ some engine → Distinct engine
unfolding new_engine
new_engine-Distinct stages {engine} h = subst Distinct {x = stages} (ground arith) (
    same_names-Distinct stages stage_names (ground arith) (
      refl,
      (refl, (refl, (refl, (refl, (refl, (refl, (refl, (refl, (refl, (refl, (refl, tt))))))))))),
    ))

module _ (o : Outside) (id : String) (stages : List Stage) (w : World) where
  abbrev completed : String → Bool
  completed = mark_completed (steps_of id w.steps) (λ _. false)

  map-Agrees : IsKeyed w.steps → (some_stages : List Stage) → Agrees o id completed some_stages w
  map-Agrees k [] = tt
  map-Agrees k (s ∷ ss) = (mark_completed-completed_in id s.name w.steps k, map-Agrees k ss)

  -- An engine made by NewEngine, on a table with one row for each step: if a run returns no error,
  -- the table then has every one of its stages as completed.
  pub run_with_progress-completes :
      {engine : List Stage}
      → new_engine stages ≡ some engine
      → IsKeyed w.steps
      → (run_with_progress o id engine w).0.error ≡ none
      → AllCompleted id engine (run_with_progress o id engine w).1
  unfolding run_with_progress
  run_with_progress-completes {engine} n k h = elim (Bool-cases (is_blank id)) [
    | inl e ↦ absurd (ground arith)
    | inr e ↦ elim (Bool-cases (o.list_fails w.tick)) [
      | inl f ↦ absurd (ground arith)
      | inr f ↦
          rw (e, f)
            (run_stages-completes o id completed engine _ (new_engine-Distinct stages n)
              (map-Agrees k engine) (ground arith))
    ]
  ]

  -- An engine made by NewEngine, on a table with one row for each step: a run that returns an error
  -- has done nothing at all, or it stopped at one stage, those before which are then completed; of
  -- every stage after it neither the row nor anything on the VPS is touched.
  pub run_with_progress-stops :
      {engine : List Stage} {x : Error}
      → new_engine stages ≡ some engine
      → IsKeyed w.steps
      → (run_with_progress o id engine w).0.error ≡ some x
      → let w' = (run_with_progress o id engine w).1 in
        ((w'.steps ≡ w.steps) × (w'.events ≡ w.events)) ⊎ Stopped id engine w w'
  unfolding run_with_progress
  run_with_progress-stops {engine} {x} n k h = elim (Bool-cases (is_blank id)) [
    | inl e ↦ rw e (inl (refl, refl))
    | inr e ↦ elim (Bool-cases (o.list_fails w.tick)) [
      | inl f ↦ rw (e, f) (inl (refl, refl))
      | inr f ↦
          rw (e, f)
            (inr (
              Stopped-tick id engine w _ (
                run_stages-stops o id completed engine _ {x = x} (new_engine-Distinct stages n)
                  (map-Agrees k engine) (ground arith))))
    ]
  ]

-- The report of a stage that was completed before.
abbrev pub skip_report : Stage → Report
skip_report stage = record { name = stage.name; status = skipped; changed = false }

module _ (o : Outside) (id : String) where
  run_stages-skips :
      (done_before : String → Bool) (stages : List Stage) (w : World)
      → All (λ (s : Stage). done_before s.name ≡ true) stages
      → run_stages o id done_before stages w
        ≡ (record { reports = map skip_report stages; error = none }, w)
  unfolding run_stages turn
  run_stages-skips done_before [] w a = refl
  run_stages-skips done_before (stage ∷ stages) w (a, others) =
      rw (a, run_stages-skips done_before stages w others)

  marks :
      (stages : List Stage) (w : World)
      → IsKeyed w.steps
      → AllCompleted id stages w
      → All (λ (s : Stage). mark_completed (steps_of id w.steps) (λ _. false) s.name ≡ true) stages
  marks [] w k a = tt
  marks (s ∷ ss) w k (a, others) =
      (mark_completed-completed_in id s.name w.steps k ∙ a, marks ss w k others)

  -- Stages that the table has as completed, one row for each step, and a list of steps that is
  -- read: a run reports every stage as skipped, and changes neither the table nor the VPS, whatever
  -- an inspection of it would say.
  pub run_with_progress-resumed :
      (stages : List Stage) (w : World)
      → IsKeyed w.steps
      → AllCompleted id stages w
      → is_blank id ≡ false
      → o.list_fails w.tick ≡ false
      → run_with_progress o id stages w ≡ (
        record { reports = map skip_report stages; error = none },
        record w { tick = suc w.tick },
      )
  unfolding run_with_progress
  run_with_progress-resumed stages w k a b f =
      rw (b, f) (run_stages-skips _ stages (record w { tick = suc w.tick }) (marks stages w k a))
