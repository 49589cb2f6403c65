-- ===== src/Tests/Collection.antt =====
-- The collection (src/c_config and src/lib.rs) from a concrete kernel.
use checkc.Base.{ℕ, String, List, [], ◌∷◌, ◌⊎◌, inr, if◌then◌else◌, ◌==◌, string_eq}
use checkc.Base.Int.{int_eq}
use checkc.Proto.Ns.{NsId}
use checkc.Collect.Kernel.{Kernel}

abbrev pub id_of : ℕ → NsId
id_of st_ino = record { st_dev = 4; st_ino = st_ino }

-- Process 7 is the container's, process 9 is in another user namespace, process 1 is the host's.
abbrev ns_file : String → ℕ ⊎ NsId
ns_file path =
    if path == "/proc/7/ns/user"
    then inr (id_of 200)
    else if path == "/proc/9/ns/user"
    then inr (id_of 300)
    else inr (id_of 1)

abbrev lines : String → String → ℕ ⊎ List String
lines other_map path =
    if path == "/proc/7/uid_map"
    then inr ("0 100000 65536" ∷ [])
    else if path == "/proc/9/uid_map"
    then inr (other_map ∷ [])
    else if path == "/proc/7/status"
    then inr ("CapInh: 0" ∷ "CapPrm: 80000" ∷ "CapEff: 0" ∷ "CapBnd: 0" ∷ "CapAmb: 0" ∷ [])
    else if path == "/proc/7/cgroup"
    then inr ("0::/a" ∷ [])
    else inr []

abbrev pub kernel_with : String → Kernel
kernel_with other_map = record {
  lines = lines other_map;
  proc_dirs = inr ("7" ∷ "fs" ∷ "9" ∷ []);
  ns_file = ns_file;
  ns_owner = λ path. inr (id_of 1);
}

-- The mappings are apart, or overlap.
abbrev pub kernel_apart : Kernel
kernel_apart = kernel_with "0 300000 1000"

abbrev pub kernel_overlap : Kernel
kernel_overlap = kernel_with "0 100010 5"
