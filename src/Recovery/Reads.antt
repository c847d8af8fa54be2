-- ===== src/Recovery/Reads.antt =====
-- Recovery repeats nothing that changes the outside: internal/recovery/service.go.
use remnanode_setup_bot.Base.{◌≡◌, List, [], ◌∷◌, string_comparable}
use remnanode_setup_bot.Deployment.{Deployment}
use remnanode_setup_bot.Orchestrator.World.{
  Event, nodes_listed, node_read, zone_read, state_written, World,
}

-- All events but the reads of the panel and the balancer and the writes of a job's own state: every
-- change of the panel, the balancer or a server, and of what a job is bound to.
abbrev pub lasting : List Event → List Event
lasting [] = []
lasting (nodes_listed _ ∷ es) = lasting es
lasting (node_read _ _ ∷ es) = lasting es
lasting (zone_read _ _ _ ∷ es) = lasting es
lasting (state_written _ _ ∷ es) = lasting es
lasting (e ∷ es) = e ∷ lasting es

module _ (es : List Event) where
  abbrev pub Same : World → Type 0
  Same w = lasting w.events ≡ es
