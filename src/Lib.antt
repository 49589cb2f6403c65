-- ===== src/Lib.antt =====
-- checkc: how well a container is isolated from its host.
--
-- The program has four commands (src/main.rs). `host` and `container` each read the part of a
-- container's configuration that can be seen from there (src/c_config), `evaluation` combines the two
-- reports and turns them into tests by category (src/evaluation/mod.rs), and `assessment` gives a
-- verdict on four security goals (src/assessment/mod.rs). A command stores its result as JSON and a
-- later one reads it. The tables that the last two consult are in src/config.
--
-- Files:
--   Base          shared names: tests, equality (`==` as an instance), outcomes of calls, sets, maps,
--                 their reordering, text, the integers of the messages, paths, calls that change a state (Effects).
--   Proto         the messages of protos/*.proto, as records, and their enums, as data types with the
--                 numbers they are sent as; what prost generates for them.
--   Config        src/config/mod.rs; Config/CapSec is src/config/cap_sec.rs.
--   Evaluation    src/evaluation/mod.rs. Evaluation/Categories, Devices and Flags hold its functions;
--                 Whitelist, FlagMatches and HostFlags what they compute.
--   Assessment    src/assessment/mod.rs. Assessment/State, Capabilities, Goals and Global hold its
--                 functions; Severity, Table, Verdicts, Harmless, Monotone, TestGoals and GlobalGoal
--                 what they compute.
--   Collect       src/c_config and src/lib.rs. Collect/Kernel is what the kernel is asked; Numbers the
--                 parsing of the language; Process src/lib.rs and `Info` of src/c_config/ns.rs; Caps,
--                 UserNs, Cgroup and Namespaces the files of that name (ns.rs); Ancestry
--                 `get_container_pids` of src/lib.rs and Join its `join_ns_by_path`; Devices and
--                 Mknod device.rs; Status seccomp.rs, chroot.rs and uts.rs; Mounts, FlagFiles and
--                 Restore fs.rs. Context is the state of the process that Join, FlagFiles and Restore
--                 change. Rebuild is the way back from a message to a hierarchy and its printing
--                 (ns.rs). CapBits, CapConfig, Unique, Disjoint, Numerals, MapLine, Descent,
--                 CgroupLimits, Trees, Lineage, Reached, FoundPairs, Found, KnownDevices, Searched,
--                 MadeDevices, SeccompMode, MountIds, MountSpaces, FlagHome, FlagRecord and
--                 FlagSpaces what they compute.
--   Command       src/main.rs. Command/Store is `store_report`, Reports what `host` and `container`
--                 collect, Combine how `evaluation` combines that, and Main the commands; Complete,
--                 Stored and Chain what they compute.
--   Pipeline      the evaluation of a configuration, then its assessment.
--   Tests         the theorems at concrete inputs.
--
-- How the code is read:
--   - A call has an `Outcome`: it returns, returns one of the errors of src/lib.rs, or panics, as a
--     failed `unwrap`, `expect` or `panic!` does. State is passed explicitly.
--   - A `HashSet` or `HashMap` is a list in the order of its iteration. Rust leaves that open; the list
--     of a set or map that the code fills is in the order of insertion, or its reverse. Theorems on
--     sets and maps speak of membership, look-up and how often a value stands there.
--   - `EvalResult::from_config` enters its categories into a `HashMap`; the model lists them in the
--     order in which they are entered. The assessment goes through them in the order of the list it
--     is given: the theorems that follow an evaluation into its assessment take the result with the
--     list in any order (Base/Reordered, `Rearranged` of Pipeline/Evaluated). What a command stores and
--     loads is the one list.
--   - An enum field of a message is an `i32`, so a ℤ here; reading it back may fail, or fall back to
--     the default, as the code does at each place.
--   - Logging is left out. The arguments of `log::debug!` are evaluated, since that is on at the
--     default level; those of `log::trace!` are not.
--   - The expressions that the crate regex matches are parameters: that for UUIDs is `find_uuid`.
--   - Paths are texts, compared by components as `Path::starts_with` does.
--   - Parameters that a function does not read (`_unprivileged`) are left out.
--   - What the kernel answers is a parameter, `Kernel` and functions beside it: the lines of a file,
--     the identifier of a namespace, the parent of one. One collection sees one state of it.
--     The system calls that join namespaces see the context that they change.
--   - The sum of two `u32` wraps, as in a release build; a debug build panics there.
-- Most loops run over lists, so recursion is structural. Three use fuel: `populate` (as much as there
-- are pairs), `lineage` and `walk` (as much as the depth of the namespace or process); theorems below
-- say that this is enough.
--
-- Not modelled: the parsing of the arguments and the set-up of the log (src/main.rs), JSON, and the
-- build. Paths and the names in /dev and /sys/dev are taken to be UTF-8. Modelled without a caller in
-- the program: `_mknod_sys_dev` of device.rs, of ns.rs the way back from a message and the printing,
-- `contains_ns_type` and `capability_is_set` of src/evaluation/mod.rs, and `_log_open_fds` of src/lib.rs.
pub mod Assessment
pub mod Base
pub mod Collect
pub mod Command
pub mod Config
pub mod Evaluation
pub mod Pipeline
pub mod Proto
pub mod Tests
