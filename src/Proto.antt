-- ===== src/Proto.antt =====
-- The messages and enumerations of protos/: a message is a record, an enumeration a data type with
-- the numbers of the `.proto` file. The Rust types are generated from these files.
pub mod Ns
pub mod Caps
pub mod Device
pub mod Cgroup
pub mod Host
pub mod Evaluation
pub mod Assessment
