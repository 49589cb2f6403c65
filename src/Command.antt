-- ===== src/Command.antt =====
-- The four commands of src/main.rs, as far as they are not the parsing of arguments, the set-up of the log
-- and JSON: what each collects or reads, and the report that it stores.
pub mod Store
pub mod Reports
pub mod Combine
pub mod Complete
pub mod Main
pub mod Stored
pub mod Chain
