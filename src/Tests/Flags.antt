-- ===== src/Tests/Flags.antt =====
-- The checks of the flag files (src/evaluation/mod.rs) at concrete inputs.
use checkc.Base.{String, ◌≡◌, refl, Option, some, List, [], ◌∷◌, map, ok, All, is_empty}
use checkc.Base.Sets.{all}
use checkc.Base.Maps
use checkc.Proto.Ns.{NsId}
use checkc.Proto.Host.{MountNamespace}
use checkc.Evaluation.Flags.{
  FlagMatches, host_namespaces, do_check_flags_host, refcontainer_namespaces,
  do_check_flags_refcontainer,
}
use checkc.Evaluation.FlagMatches.{
  IsIdentified, ids_of, occurrences, seen_in, refcontainer_namespaces-seen,
  do_check_flags_refcontainer-exact,
}
use checkc.Evaluation.HostFlags.{
  hides_flags, escaped, host_namespaces-refcontainer, do_check_flags_host-exact,
}

abbrev host_ns : NsId
host_ns = record { st_dev = 4; st_ino = 100 }

abbrev container_ns : NsId
container_ns = record { st_dev = 4; st_ino = 200 }

abbrev mount_ns : NsId → List String → MountNamespace
mount_ns id flag_files = record {
  ns_id = some id;
  ns_pids = [];
  mounts = [];
  mountinfo = [];
  flag_files = flag_files;
}

-- A flag in the container's root, one outside, and one in a namespace of its own.
abbrev namespaces : List MountNamespace
namespaces =
    mount_ns host_ns ("/var/root/flag_1" ∷ "/tmp/flag_1" ∷ [])
    ∷ mount_ns container_ns ("/tmp/flag_1" ∷ [])
    ∷ []

namespaces-IsIdentified : All IsIdentified namespaces
namespaces-IsIdentified = ((host_ns, refl), ((container_ns, refl), tt))

-- Stands for the expression: every flag has this UUID.
abbrev find_uuid : String → Option String
find_uuid flag = some "5ed2d6f8-0f7a-4c6a-9b5e-1d0cbb7a1f00"

refcontainer_namespaces-seen_example :
    (m' : FlagMatches) × (refcontainer_namespaces namespaces [] ≡ ok m')
    × ((g : String) → ids_of m' g ≡ seen_in g namespaces)
unfolding seen_in Maps.lookup
refcontainer_namespaces-seen_example =
    refcontainer_namespaces-seen namespaces [] namespaces-IsIdentified

seen_in_both : seen_in "/tmp/flag_1" namespaces ≡ host_ns ∷ container_ns ∷ []
unfolding seen_in occurrences
seen_in_both = refl

do_check_flags_refcontainer-exact_example :
    (lines : List String) × (do_check_flags_refcontainer namespaces ≡ ok lines)
    × (is_empty lines ≡ all (λ (mountns : MountNamespace). is_empty mountns.flag_files) namespaces)
do_check_flags_refcontainer-exact_example =
    do_check_flags_refcontainer-exact namespaces namespaces-IsIdentified

host_namespaces-refcontainer_example :
    host_namespaces find_uuid "/var/root" namespaces []
    ≡ refcontainer_namespaces (map (escaped find_uuid "/var/root") namespaces) []
host_namespaces-refcontainer_example =
    host_namespaces-refcontainer find_uuid "/var/root" namespaces [] namespaces-IsIdentified

do_check_flags_host-exact_example :
    (lines : List String) × (do_check_flags_host find_uuid "/var/root" namespaces ≡ ok lines)
    × (is_empty lines ≡ all (hides_flags find_uuid "/var/root") namespaces)
do_check_flags_host-exact_example =
    do_check_flags_host-exact find_uuid "/var/root" namespaces namespaces-IsIdentified
