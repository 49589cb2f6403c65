-- ===== src/Collect.antt =====
-- The collection of the configuration from the kernel's files (src/c_config and src/lib.rs).
pub mod Kernel
pub mod Numbers
pub mod Process
pub mod UserNs
pub mod Unique
pub mod Disjoint
pub mod Caps
pub mod CapBits
pub mod CapConfig
pub mod Ancestry
pub mod Descent
pub mod Cgroup
pub mod CgroupLimits
pub mod Namespaces
pub mod Trees
pub mod Lineage
pub mod Devices
pub mod Mknod
pub mod KnownDevices
pub mod Searched
pub mod MadeDevices
pub mod Status
pub mod SeccompMode
pub mod Context
pub mod Join
pub mod Mounts
pub mod Reached
pub mod FoundPairs
pub mod Found
pub mod Rebuild
pub mod Numerals
pub mod MapLine
pub mod Restore
pub mod FlagFiles
pub mod FlagHome
pub mod FlagRecord
pub mod FlagSpaces
pub mod MountIds
pub mod MountSpaces
