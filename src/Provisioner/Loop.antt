-- ===== src/Provisioner/Loop.antt =====
-- The loop over the stages: internal/provisioner/engine.go.
use mathlib.Core.Path.{subst}
use remnanode_setup_bot.Base.{
  suc, String, ◌≡◌, refl, ap, sym, ◌∙◌, Bool, true, false, not, none, some, List, [], ◌∷◌, ◌++◌,
  arith, eq_iff, ◌==◌, string_comparable, Option-cases, inl, inr, any, All,
}
use remnanode_setup_bot.Deployment.{running, done}
use remnanode_setup_bot.Repository.Laws.{step_status-upsert_step}
use remnanode_setup_bot.Provisioner.{
  Stage, World, Outside, Ran, Outcome, Error, run_stage, record_status, finish_stage, start_stage,
  turn, after_turn, run_stages,
}
use remnanode_setup_bot.Provisioner.Progress.{completed_in}
use remnanode_setup_bot.Provisioner.Touches.{Untouched, Untouched-trans, turn-Untouched}

abbrev pub AllCompleted : String → List Stage → World → Type 0
AllCompleted id stages w = All (λ (s : Stage). completed_in id w.steps s.name ≡ true) stages

-- A name that no stage has.
abbrev pub absent : String → List Stage → Bool
absent other stages = not (any (λ (s : Stage). s.name == other) stages)

abbrev pub Distinct : List Stage → Type 0
Distinct [] = Unit
Distinct (stage ∷ stages) = (absent stage.name stages ≡ true) × Distinct stages

-- A run that stopped at a stage: those before it are completed, and nothing was done for another.
pub data Stopped (id : String) (stages : List Stage) (w w' : World) : Type 0 where
  stopped_at :
      (front : List Stage) (stage : Stage) (back : List Stage)
      → stages ≡ front ++ (stage ∷ back)
      → AllCompleted id front w'
      → ((other : String) → absent other (front ++ (stage ∷ [])) ≡ true → Untouched id other w w')
      → Stopped id stages w w'

pub Stopped-tick :
    (id : String) (stages : List Stage) (w w' : World)
    → Stopped id stages (record w { tick = suc w.tick }) w'
    → Stopped id stages w w'
Stopped-tick id stages w w' (stopped_at front s back e before others) =
    stopped_at front s back e before
      (λ other h. record { row = (others other h).row; acts = (others other h).acts })

module _ (o : Outside) (id : String) where
  recorded_done :
      (stage : Stage) (w : World)
      → (record_status o id stage.name done w).0 ≡ true
      → completed_in id (record_status o id stage.name done w).1.steps stage.name ≡ true
  unfolding record_status
  recorded_done stage w h = ground (
    arith,
    step_status-upsert_step id stage.name id stage.name done (o.now w.tick) w.steps,
    eq_iff id id,
    eq_iff stage.name stage.name,
  )

  finish_stage-completes :
      (stage : Stage) (ran : Ran) (w : World)
      → (finish_stage o id stage ran w).0.error ≡ none
      → completed_in id (finish_stage o id stage ran w).1.steps stage.name ≡ true
  unfolding finish_stage
  finish_stage-completes stage ran w h = ground (arith, recorded_done stage w)

  start_stage-completes :
      (stage : Stage) (w : World)
      → (start_stage o id stage w).0.error ≡ none
      → completed_in id (start_stage o id stage w).1.steps stage.name ≡ true
  unfolding start_stage
  start_stage-completes stage w h =
      let w' = (record_status o id stage.name running w).1 in
      let (ran, w'') = run_stage stage w' in ground (arith, finish_stage-completes stage ran w'')

  turn-completes :
      (completed : String → Bool) (stage : Stage) (w : World)
      → completed stage.name ≡ completed_in id w.steps stage.name
      → (turn o id completed stage w).0.error ≡ none
      → completed_in id (turn o id completed stage w).1.steps stage.name ≡ true
  unfolding turn
  turn-completes completed stage w c h =
      ground (arith, start_stage-completes stage (record w { tick = suc w.tick }))

  module _ (completed : String → Bool) where
    after_turn-none :
        (first : Outcome × World) (rest : World → Outcome × World)
        → first.0.error ≡ none
        → ((after_turn o first rest).1 ≡ (rest first.1).1)
          × ((after_turn o first rest).0.error ≡ (rest first.1).0.error)
    after_turn-none (first, w) rest h = rw h (refl, refl)

    after_turn-some :
        (first : Outcome × World) (rest : World → Outcome × World) {e : Error}
        → first.0.error ≡ some e
        → after_turn o first rest ≡ first
    after_turn-some (first, w) rest h = ground arith

    after_turn-Untouched :
        (other : String) (w : World) (first : Outcome × World) (rest : World → Outcome × World)
        → Untouched id other w first.1
        → Untouched id other first.1 (rest first.1).1
        → Untouched id other w (after_turn o first rest).1
    after_turn-Untouched other w (first, w') rest h k = elim (Option-cases first.error) [
      | inl e ↦ rw e (Untouched-trans h k)
      | inr (x, e) ↦ rw e h
    ]

    run_stages-Untouched :
        (other : String) (stages : List Stage) (w : World)
        → absent other stages ≡ true
        → Untouched id other w (run_stages o id completed stages w).1
    unfolding run_stages
    run_stages-Untouched other [] w h = record { row = refl; acts = refl }
    run_stages-Untouched other (stage ∷ stages) w h =
        after_turn-Untouched other w (turn o id completed stage w)
          (run_stages o id completed stages)
          (turn-Untouched id other stage (ground arith) o completed w)
          (run_stages-Untouched other stages _ (ground arith))

    -- The map agrees with the table on some stages.
    abbrev pub Agrees : List Stage → World → Type 0
    Agrees stages w = All (λ (s : Stage). completed s.name ≡ completed_in id w.steps s.name) stages

    Agrees-Untouched :
        (stage : Stage) (stages : List Stage) (w w' : World)
        → ((other : String) → (stage.name == other) ≡ false → Untouched id other w w')
        → absent stage.name stages ≡ true
        → Agrees stages w
        → Agrees stages w'
    Agrees-Untouched stage [] w w' keeps d a = tt
    Agrees-Untouched stage (s ∷ ss) w w' keeps d (a, agreed) =
        let differs : (stage.name == s.name) ≡ false =
          ground (arith, eq_iff stage.name s.name, eq_iff s.name stage.name) in
        (
          ground (arith, a, (keeps s.name differs).row),
          Agrees-Untouched stage ss w w' keeps (ground arith) agreed,
        )

    Agrees-turn :
        (stage : Stage) (stages : List Stage) (w : World)
        → absent stage.name stages ≡ true
        → Agrees stages w
        → Agrees stages (turn o id completed stage w).1
    Agrees-turn stage stages w =
        Agrees-Untouched stage stages w _ (λ other n. turn-Untouched id other stage n o completed w)

    pub run_stages-completes :
        (stages : List Stage) (w : World)
        → Distinct stages
        → Agrees stages w
        → (run_stages o id completed stages w).0.error ≡ none
        → AllCompleted id stages (run_stages o id completed stages w).1
    unfolding run_stages
    run_stages-completes [] w d a h = tt
    run_stages-completes (stage ∷ stages) w (d, ds) (a, agreed) h =
        let first = turn o id completed stage w in
        let loop = run_stages o id completed stages in
        elim (Option-cases first.0.error) [
          | inl e ↦
              let (world, error) = after_turn-none first loop e in
              let later = run_stages-Untouched stage.name stages first.1 d in
              subst (AllCompleted id (stage ∷ stages)) (sym world) (
                ground (arith, turn-completes completed stage w a e, later.row),
                run_stages-completes stages first.1 ds (Agrees-turn stage stages w d agreed)
                    (sym error ∙ h),
              )
          | inr (x, e) ↦ absurd (ground (arith, after_turn-some first loop e))
        ]

    Stopped-cons :
        (stage : Stage) (stages : List Stage) (w w' w'' : World)
        → ((other : String) → (stage.name == other) ≡ false → Untouched id other w w')
        → completed_in id w''.steps stage.name ≡ true
        → Stopped id stages w' w''
        → Stopped id (stage ∷ stages) w w''
    Stopped-cons stage stages w w' w'' first c (stopped_at front s back e before others) =
        stopped_at (stage ∷ front) s back (ap (λ l. stage ∷ l) e) (c, before)
          (λ other h. Untouched-trans (first other (ground arith)) (others other (ground arith)))

    pub run_stages-stops :
        (stages : List Stage) (w : World) {x : Error}
        → Distinct stages
        → Agrees stages w
        → (run_stages o id completed stages w).0.error ≡ some x
        → Stopped id stages w (run_stages o id completed stages w).1
    unfolding run_stages
    run_stages-stops [] w d a h = absurd (ground arith)
    run_stages-stops (stage ∷ stages) w (d, ds) (a, agreed) h =
        let first = turn o id completed stage w in
        let loop = run_stages o id completed stages in
        let untouched = λ (other : String) (n : (stage.name == other) ≡ false).
          turn-Untouched id other stage n o completed w in
        elim (Option-cases first.0.error) [
          | inl e ↦
              let (world, error) = after_turn-none first loop e in
              let later = run_stages-Untouched stage.name stages first.1 d in
              subst (Stopped id (stage ∷ stages) w) (sym world) (
                Stopped-cons stage stages w first.1 _ untouched
                  (ground (arith, turn-completes completed stage w a e, later.row))
                  (run_stages-stops stages first.1 ds (Agrees-turn stage stages w d agreed)
                    (sym error ∙ h)))
          | inr (y, e) ↦
              subst (λ (r : Outcome × World). Stopped id (stage ∷ stages) w r.1)
                (sym (after_turn-some first loop e))
                (stopped_at [] stage stages refl tt (λ other n. untouched other (ground arith)))
        ]
