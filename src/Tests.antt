-- ===== src/Tests.antt =====
-- Runs of the model at concrete inputs. Nothing here models code of the repository.
pub mod Stubs
mod Wire
mod Files
mod Sessions
mod Routes
mod Children
mod Mounts
mod CommandLine
mod Spawns
mod Pairings
mod Launches
mod Namespaces
mod Serves
mod Listeners
mod Mounted
mod Relays
mod Failures
mod Connections
