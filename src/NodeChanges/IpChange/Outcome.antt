-- ===== src/NodeChanges/IpChange/Outcome.antt =====
-- A change of an address that fails takes back all that it did: `ReplaceNodeIP` of
-- internal/orchestrator/ip_change.go.
use remnanode_setup_bot.Base.{String, Bool, true, false, [], string_comparable}
use remnanode_setup_bot.Base.Net.{Addr, addr_comparable}
use remnanode_setup_bot.Deployment.{Deployment}
use remnanode_setup_bot.Orchestrator.World.{Outside, World}
use remnanode_setup_bot.NodeChanges.Calls.{Services}
use remnanode_setup_bot.NodeChanges.IpChange.Restored.{Left, IsBack}

module _ (o : Outside) (services : Services) (uuid : String) (old new : Addr) where
  abbrev Addressed : Bool → World → Type 0
  Addressed true w = Left services uuid old new [] w
  Addressed false w = IsBack old w
