-- ===== src/Tests.antt =====
-- The theorems at concrete inputs.
pub mod Capabilities
pub mod Goals
pub mod Flags
pub mod Devices
pub mod Pipeline
pub mod Rebuilt
pub mod Reports
pub mod Collection
pub mod Unique
pub mod Sources
pub mod Groups
pub mod DeviceNodes
pub mod Status
pub mod Mounts
pub mod FlagSearch
pub mod Commands
pub mod Chain
