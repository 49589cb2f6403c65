-- ===== src/Evaluation/HostFlags.antt =====
-- Which flag files the check of the host reports.

use checkc.Base.{
  String, ◌≡◌, refl, ◌∙◌, Bool, not, ◌&&◌, Option, some, List, [], ◌∷◌, map, ok, All, is_some,
  is_empty, string_eq, Bool-cases, inl, inr,
}
use checkc.Base.Sets.{all, filter}
use checkc.Base.Paths.{path_starts_with}
use checkc.Proto.Ns.{NsId}
use checkc.Proto.Host.{MountNamespace}
use checkc.Evaluation.Flags.{
  FlagMatches, add_match, host_flag, host_flags, host_namespaces, do_check_flags_host,
  refcontainer_flags, refcontainer_namespaces, do_check_flags_refcontainer,
}
use checkc.Evaluation.FlagMatches.{IsIdentified, do_check_flags_refcontainer-exact}

module _ (find_uuid : String → Option String) (root_dir : String) where
  -- A flag file with a UUID outside the container's root.
  unfoldable pub is_escaped : String → Bool
  is_escaped flag = is_some (find_uuid flag) && not (path_starts_with flag root_dir)

  -- A namespace with only the files that escaped.
  abbrev pub escaped : MountNamespace → MountNamespace
  escaped mountns = record mountns { flag_files = filter is_escaped mountns.flag_files }

  host_flags-refcontainer_flags :
      (id : NsId) (flags : List String) (m : FlagMatches)
      → host_flags find_uuid root_dir (some id) flags m
        ≡ ok (refcontainer_flags id (filter is_escaped flags) m)
  unfolding host_flags host_flag refcontainer_flags filter is_escaped
  host_flags-refcontainer_flags id [] m = refl
  host_flags-refcontainer_flags id (flag ∷ flags) m = elim (Bool-cases (is_escaped flag)) [
    | inl e ↦ rw e (host_flags-refcontainer_flags id flags (add_match flag id m))
    | inr e ↦ rw e (host_flags-refcontainer_flags id flags m)
  ]

  -- On identified namespaces the check of the host is the check of the reference container, on the
  -- flag files that have a UUID and lie outside the container's root.
  pub host_namespaces-refcontainer :
      (namespaces : List MountNamespace) (m : FlagMatches)
      → All IsIdentified namespaces
      → host_namespaces find_uuid root_dir namespaces m
        ≡ refcontainer_namespaces (map escaped namespaces) m
  unfolding host_namespaces refcontainer_namespaces
  host_namespaces-refcontainer [] m h = refl
  host_namespaces-refcontainer (mountns ∷ rest) m ((id, e), h) =
      rw (e, host_flags-refcontainer_flags id mountns.flag_files m)
        (host_namespaces-refcontainer rest _ h)

  escaped-IsIdentified :
      (namespaces : List MountNamespace)
      → All IsIdentified namespaces
      → All IsIdentified (map escaped namespaces)
  escaped-IsIdentified [] h = tt
  escaped-IsIdentified (mountns ∷ rest) h = (h.0, escaped-IsIdentified rest h.1)

  abbrev pub hides_flags : MountNamespace → Bool
  hides_flags mountns = is_empty (filter is_escaped mountns.flag_files)

  all-map :
      (namespaces : List MountNamespace)
      → all (λ mountns. is_empty mountns.flag_files) (map escaped namespaces)
        ≡ all hides_flags namespaces
  unfolding all
  all-map [] = refl
  all-map (mountns ∷ rest) = rw (all-map rest)

  -- The check of the host has no finding exactly if no flag file with a UUID lies outside the
  -- container's root.
  pub do_check_flags_host-exact :
      (namespaces : List MountNamespace)
      → All IsIdentified namespaces
      → (lines : List String) × (do_check_flags_host find_uuid root_dir namespaces ≡ ok lines)
        × (is_empty lines ≡ all hides_flags namespaces)
  unfolding do_check_flags_host do_check_flags_refcontainer
  do_check_flags_host-exact namespaces h =
      let (lines, r, e) =
        do_check_flags_refcontainer-exact (map escaped namespaces)
          (escaped-IsIdentified namespaces h) in
      (lines, rw (host_namespaces-refcontainer namespaces [] h) r, e ∙ all-map namespaces)
