-- ===== src/Collect/Kernel.antt =====
-- What the collection reads: a parameter of the model, since it is the kernel's.
use checkc.Base.{ℕ, String, List, ◌⊎◌}
use checkc.Proto.Ns.{NsId}

-- A file that cannot be opened or read is its error number.
pub record Kernel : Type 0 where
  -- The lines of a file that are valid text; the code drops the others.
  pub lines : String → ℕ ⊎ List String
  -- The names of the directories in `/proc`.
  pub proc_dirs : ℕ ⊎ List String
  -- The device and inode of a namespace file.
  pub ns_file : String → ℕ ⊎ NsId
  -- The device and inode behind the ioctl `NS_GET_USERNS` on a namespace file.
  pub ns_owner : String → ℕ ⊎ NsId
