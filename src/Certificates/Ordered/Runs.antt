-- ===== src/Certificates/Ordered/Runs.antt =====
-- The order over whole runs of the operations: internal/certmanager/manager.go.
use remnanode_setup_bot.Base.{string_comparable}
