-- ===== src/Evaluation/Flags.antt =====
-- `do_check_flags_host` and `do_check_flags_refcontainer` of src/evaluation/mod.rs: which flag files
-- were seen from which mount namespaces. The expression for a UUID is matched by the crate `regex`,
-- a parameter here. The arguments of a `log::debug!` are evaluated at the default log level, those of
-- a `log::trace!` are not.
use checkc.Base.{
  String, not, ◌&&◌, Option, none, some, List, [], ◌∷◌, ◌++◌, map, Outcome, ok, ◌>>=◌, unwrap,
  if◌then◌else◌, is_some, string_eq,
}
use checkc.Base.Maps
use checkc.Base.Text.{◌<>◌, show_ℕ, join}
use checkc.Base.Paths.{path_starts_with}
use checkc.Proto.Ns.{NsId}
use checkc.Proto.Host.{MountNamespace}

-- The flag files and the namespaces in which each was seen.
abbrev pub FlagMatches : Type 0
FlagMatches = List (String × List NsId)

-- The end of the loop body: a new entry, or one more namespace for a present one.
unfoldable pub add_match : String → NsId → FlagMatches → FlagMatches
add_match flag id matches = elim (Maps.lookup flag matches) [
  | none ↦ Maps.insert flag (id ∷ []) matches
  | some ids ↦ Maps.insert flag (ids ++ id ∷ []) matches
]

-- A line of the result.
unfoldable pub match_line : String × List NsId → String
match_line (flag, ids) =
    flag <> ": " <> join ", " (map (λ (id : NsId). show_ℕ id.st_dev <> ":" <> show_ℕ id.st_ino) ids)

-- The loop over the flag files of one namespace. The inner loop over `FLAG_LOCATION_ALLOW` has no
-- effect: its `continue` goes on with the next entry of that list.
module _ (find_uuid : String → Option String) (root_dir : String) where
  -- The loop body. Flags without a UUID and those below the container root are passed over.
  unfoldable pub host_flag : Option NsId → String → FlagMatches → Outcome FlagMatches
  host_flag ns_id flag matches =
      if is_some (find_uuid flag) && not (path_starts_with flag root_dir)
      then (do id ← unwrap ns_id; ok (add_match flag id matches))
      else ok matches

  unfoldable pub host_flags : Option NsId → List String → FlagMatches → Outcome FlagMatches
  host_flags ns_id [] matches = ok matches
  host_flags ns_id (flag ∷ flags) matches = do
    matches' ← host_flag ns_id flag matches
    host_flags ns_id flags matches'

  unfoldable pub host_namespaces : List MountNamespace → FlagMatches → Outcome FlagMatches
  host_namespaces [] matches = ok matches
  host_namespaces (mountns ∷ rest) matches = do
    matches' ← host_flags mountns.ns_id mountns.flag_files matches
    host_namespaces rest matches'

  unfoldable pub do_check_flags_host : List MountNamespace → Outcome (List String)
  do_check_flags_host namespaces = do
    matches ← host_namespaces namespaces []
    ok (map match_line matches)

unfoldable pub refcontainer_flags : NsId → List String → FlagMatches → FlagMatches
refcontainer_flags id [] matches = matches
refcontainer_flags id (flag ∷ flags) matches =
    refcontainer_flags id flags (add_match flag id matches)

-- The identifier is unwrapped for the message at the top of the loop.
unfoldable pub refcontainer_namespaces : List MountNamespace → FlagMatches → Outcome FlagMatches
refcontainer_namespaces [] matches = ok matches
refcontainer_namespaces (mountns ∷ rest) matches = do
  id ← unwrap mountns.ns_id
  refcontainer_namespaces rest (refcontainer_flags id mountns.flag_files matches)

unfoldable pub do_check_flags_refcontainer : List MountNamespace → Outcome (List String)
do_check_flags_refcontainer namespaces = do
  matches ← refcontainer_namespaces namespaces []
  ok (map match_line matches)
