-- ===== src/Cli/Run/Pins.antt =====
-- The paths that a run keeps local whatever else it routes remote.
use remote_adapter.Adapter.Link.{Link}
