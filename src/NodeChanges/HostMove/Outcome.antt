-- ===== src/NodeChanges/HostMove/Outcome.antt =====
-- The two outcomes of `MoveNodeToHost` of internal/orchestrator/node_host_move.go: all of the move, or
-- none of it.
use remnanode_setup_bot.Base.{Bool, true, List, ◌≡◌, ◌⊎◌}
use remnanode_setup_bot.Base.Net.{Std}
use remnanode_setup_bot.Repository.{Db}
use remnanode_setup_bot.Orchestrator.World.{Config, Outside, Event, World}
use remnanode_setup_bot.NodeChanges.Calls.{Services}
use remnanode_setup_bot.NodeChanges.HostMove.{HostMoveResult, Plan}
use remnanode_setup_bot.NodeChanges.HostMove.Request.{HostMoveInput}
use remnanode_setup_bot.NodeChanges.HostMove.Restored.{untouched, is_back}
use remnanode_setup_bot.NodeChanges.HostMove.Applied.{told_result, applied_events}
use remnanode_setup_bot.NodeChanges.HostMove.Planned.{IsPlanFor}

module _ (std : Std) (o : Outside) (config : Config) (services : Services) (input : HostMoveInput)
    (db : Db) where
  -- A move that returned: it had a plan for what was asked, its result tells that plan, and the record
  -- of calls holds every change of it, in order and each carried out, on a record without changes.
  pub record IsApplied (result : HostMoveResult) (es : List Event) : Type 0 where
    pub plan : Plan
    pub is_plan : IsPlanFor std o config services input db plan
    pub tells : result ≡ told_result config plan
    pub before : List Event
    pub is_fresh : untouched before ≡ true
    pub dns_changed : Bool
    pub applied : es ≡ applied_events services plan before config.dns_disabled dns_changed plan.job

  -- A move that failed: no change is recorded, or it had a plan for what was asked and all of its
  -- changes were taken back.
  abbrev pub Restored : List Event → Type 0
  Restored es =
      (untouched es ≡ true)
      ⊎ ((p : Plan) × (IsPlanFor std o config services input db p × (is_back p es ≡ true)))
