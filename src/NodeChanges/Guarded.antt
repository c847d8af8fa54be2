-- ===== src/NodeChanges/Guarded.antt =====
-- A change runs as one job with one slot. Entering, waiting and leaving touch neither the tables nor
-- the record of calls, so what holds of these around the body holds around the whole.
use remnanode_setup_bot.Base.{
  String, Bool, true, false, List, if◌then◌else◌, Result, ok, err, suc, Triple, After, Triple-bind,
  Triple-caught, lift, is_blank, ◌∷◌,
}
use remnanode_setup_bot.Repository.{Db}
use remnanode_setup_bot.Orchestrator.World.{
  invalid_input, already_running, Error, plain, context_done, Outside, Event, World, Run, tick_on,
}
use remnanode_setup_bot.Orchestrator.Stages.{
  with_execution, with_slot, is_in, enter_execution, leave_execution, acquire, release_slot,
}

module _ {A : Type 0} (P : Db → List Event → Type 0) (Q : A → Db → List Event → Type 0)
    (R : Error → Db → List Event → Type 0)
    (early : (e : Error) (db : Db) (es : List Event) → P db es → R e db es) where
  abbrev Before : World → Type 0
  Before w = P w.db w.events

  abbrev Done : A → World → Type 0
  Done a w = Q a w.db w.events

  abbrev Failed : Error → World → Type 0
  Failed e w = R e w.db w.events

  abbrev Handed : Result Error A → World → Type 0
  Handed r w = After Done Failed (r, w)

  handed-lift : (r : Result Error A) → Triple (Handed r) (lift r) Done Failed
  unfolding lift
  handed-lift (ok a) = record { run = λ w h. h }
  handed-lift (err e) = record { run = λ w h. h }

  entered : (id : String) → Triple Before (enter_execution id) (λ _. Before) Failed
  unfolding enter_execution
  entered id = record { run = λ w h. by_test (is_blank id) (is_in id w.running) w h }
    where
      by_test :
          (b c : Bool) (w : World)
          → Before w
          → After
              (λ _. Before)
              Failed
              (if b
                then (err (plain invalid_input), w)
                else if c
                then (err (plain already_running), w)
                else (ok tt, record w { running = id ∷ w.running }))
      by_test true c w h = early _ _ _ h
      by_test false true w h = early _ _ _ h
      by_test false false w h = h

  left :
      (id : String) (r : Result Error A)
      → Triple (Handed r) (leave_execution id) (λ _. Handed r) Failed
  unfolding leave_execution
  left id (ok a) = record { run = λ w h. h }
  left id (err e) = record { run = λ w h. h }

  module _ (o : Outside) where
    acquired : Triple Before (acquire o) (λ _. Before) Failed
    unfolding acquire
    acquired = record { run = λ w h. by_test (o.slot w.tick) w h }
      where
        by_test :
            (b : Bool) (w : World)
            → Before w
            → After
                (λ _. Before)
                Failed
                (if b
                  then (ok tt, record w { tick = suc w.tick; slots = suc w.slots })
                  else (err context_done, tick_on w))
        by_test true w h = h
        by_test false w h = early _ _ _ h

    released : (r : Result Error A) → Triple (Handed r) (release_slot o) (λ _. Handed r) Failed
    unfolding release_slot
    released (ok a) = record { run = λ w h. h }
    released (err e) = record { run = λ w h. h }

    -- What holds of the tables and the calls around the body holds around the job.
    pub guarded-Triple :
        (id : String) {body : Run A}
        → Triple Before body Done Failed
        → Triple Before (with_execution id (with_slot o body)) Done Failed
    unfolding with_execution with_slot
    guarded-Triple id {body} h = Triple-bind (entered id) λ _.
        Triple-bind
          (Triple-caught (
            Triple-bind acquired
              λ _. Triple-bind (Triple-caught h) λ r. Triple-bind (released r) λ _. handed-lift r))
          λ r. Triple-bind (left id r) λ _. handed-lift r
