-- ===== src/Collect/FlagHome.antt =====
-- The search of the flag files (src/c_config/fs.rs) keeps the program's descriptor of its own mount
-- namespace, so the program is back in that afterwards.
use checkc.Base.{
  ℕ, ◌≡◌, String, Bool, Option, none, some, List, [], ◌∷◌, Outcome, ok, err, panic, ◌⊎◌, inl, inr,
  ◌∙◌, ap, ◌==◌, string_eq, nat_eq, Bool-cases,
}
use checkc.Base.Effects.{
  Effect, lift, pure, Keeps, >>=-Keeps, traverse_effect-Keeps, traverse_effect,
}
use checkc.Base.Int.{ℤ}
use checkc.Base.Maps
use checkc.Base.Text.{◌<>◌}
use checkc.Proto.Ns.{NsId}
use checkc.Collect.Kernel.{Kernel}
use checkc.Collect.Numbers.{show_int}
use checkc.Collect.Context.{
  Context, ContextCalls, clone_newns, HasDescriptor, with_descriptor,
  with_descriptor-HasDescriptor_self,
}
use checkc.Collect.Join.{OpensFresh, join_ns_by_path-HasDescriptor}
use checkc.Collect.Mounts.{get_mountinfos}
use checkc.Collect.Restore.{rejoined, rejoined-descriptors, fs_config_generic-mount_ns}
use checkc.Collect.FlagFiles.{
  DiskCalls, search_found, search_mount, search_mounts, on_join, join_and_search, on_cmdline,
  search_pids, search_namespace, process_mountpoints_host, fs_config_hostview,
}

module _ (kernel : Kernel) (mounts_match mountinfo_match : String → Option (String × String))
    (disk : DiskCalls) (calls : ContextCalls) (fresh : OpensFresh calls) (fd : ℕ) (id : NsId) where
  abbrev Home : {A : Type 0} → Effect Context A → Type 0
  Home call = Keeps (HasDescriptor fd id) call

  search_found-Home :
      (flag_files : List String) (mp : String) (o : Option (String × String))
      → Home (search_found kernel mounts_match mountinfo_match disk flag_files mp o)
  unfolding search_found
  search_found-Home flag_files mp none context h = h
  search_found-Home flag_files mp (some found) context h = h

  search_mounts-Home :
      (mountinfo flag_files : List String)
      → Home (search_mounts kernel mounts_match mountinfo_match disk mountinfo flag_files)
  unfolding search_mounts search_mount
  search_mounts-Home [] flag_files context h = h
  search_mounts-Home (mp ∷ mountinfo) flag_files context h =
      >>=-Keeps (HasDescriptor fd id)
        (search_mount kernel mounts_match mountinfo_match disk flag_files mp)
        (search_mounts kernel mounts_match mountinfo_match disk mountinfo)
        (search_found-Home flag_files mp (mountinfo_match mp)) (search_mounts-Home mountinfo)
        context h

  module _ (rest : Effect Context (List String)) (rest-Home : Home rest)
      (mountinfo flag_files : List String) where
    on_join-Home :
        (r : Outcome (Unit {0}))
        → Home (on_join kernel mounts_match mountinfo_match disk calls rest mountinfo flag_files r)
    unfolding on_join
    on_join-Home panic context h = h
    on_join-Home (err e) context h = rest-Home context h
    on_join-Home (ok _) context h = search_mounts-Home mountinfo flag_files context h

    join_and_search-Home :
        (p : ℤ)
        → Home (
            join_and_search kernel mounts_match mountinfo_match disk calls rest p mountinfo
              flag_files)
    unfolding join_and_search
    join_and_search-Home p context h = on_join-Home _ _ (
        join_ns_by_path-HasDescriptor calls ("/proc/" <> show_int p <> "/ns/mnt") clone_newns fd id
          context fresh h)

    on_cmdline-Home :
        (p : ℤ) (o : ℕ ⊎ (ℕ ⊎ String))
        → Home (
            on_cmdline kernel mounts_match mountinfo_match disk calls rest p mountinfo flag_files o)
    unfolding on_cmdline
    on_cmdline-Home p (inl errno) context h = rest-Home context h
    on_cmdline-Home p (inr (inl errno)) context h = h
    on_cmdline-Home p (inr (inr cmdline)) context h = elim (Bool-cases (cmdline == "")) [
      | inl e ↦ rw e (rest-Home context h)
      | inr e ↦ rw e (join_and_search-Home p context h)
    ]

  search_pids-Home :
      (home_fd : ℕ) (pids : List ℤ) (mountinfo flag_files : List String)
      → Home (
          search_pids kernel mounts_match mountinfo_match disk calls home_fd pids mountinfo
            flag_files)
  unfolding search_pids
  search_pids-Home home_fd [] mountinfo flag_files context h = h
  search_pids-Home home_fd (p ∷ pids) mountinfo flag_files context h =
      on_cmdline-Home
        (search_pids kernel mounts_match mountinfo_match disk calls home_fd pids mountinfo
          flag_files)
        (search_pids-Home home_fd pids mountinfo flag_files) mountinfo flag_files p
        (disk.cmdline p (rejoined calls home_fd context)) (rejoined calls home_fd context)
        (ap (Maps.lookup fd) (rejoined-descriptors calls home_fd context) ∙ h)

  process_mountpoints_host-Home :
      (home_fd : ℕ) (pid_cfg : Option (List ℤ × Bool))
      → Home
          (process_mountpoints_host kernel mounts_match mountinfo_match disk calls home_fd pid_cfg)
  unfolding process_mountpoints_host search_namespace
  process_mountpoints_host-Home home_fd pid_cfg =
      >>=-Keeps (HasDescriptor fd id)
        (lift (get_mountinfos kernel mounts_match mountinfo_match pid_cfg))
        (traverse_effect (search_namespace kernel mounts_match mountinfo_match disk calls home_fd))
        (λ context h. h)
        (traverse_effect-Keeps (HasDescriptor fd id)
          (search_namespace kernel mounts_match mountinfo_match disk calls home_fd)
          λ mountns.
            >>=-Keeps (HasDescriptor fd id)
              (search_pids kernel mounts_match mountinfo_match disk calls home_fd mountns.ns_pids
                mountns.mountinfo mountns.flag_files)
              (λ found. pure (record mountns { flag_files = found }))
              (search_pids-Home home_fd mountns.ns_pids mountns.mountinfo mountns.flag_files)
              (λ found context h. h))

-- Where opening gives descriptors that are not open, the first of them stands for the mount namespace of
-- the process, and neither setns on that nor the change to the first directory fails, the process is
-- after the search in the mount namespace and in the directory that it was in before, whatever the search
-- answered.
pub fs_config_hostview-mount_ns :
    (kernel : Kernel) (mounts_match mountinfo_match : String → Option (String × String))
    (disk : DiskCalls) (calls : ContextCalls) (own_pid : ℤ) (pid_list : List ℤ)
    (include_mode : Bool) (context : Context) (fd : ℕ)
    → OpensFresh calls
    → calls.current_dir context ≡ inr context.directory
    → calls.open_ns ("/proc/" <> show_int own_pid <> "/ns/mnt") context ≡ inr (fd, context.mount_ns)
    → ((c : Context) → calls.setns fd clone_newns c ≡ none)
    → ((c : Context) → calls.set_current_dir context.directory c ≡ none)
    → ((fs_config_hostview kernel mounts_match mountinfo_match disk calls own_pid pid_list
          include_mode context).1.mount_ns
        ≡ context.mount_ns)
      × ((fs_config_hostview kernel mounts_match mountinfo_match disk calls own_pid pid_list
            include_mode context).1.directory
          ≡ context.directory)
unfolding fs_config_hostview
fs_config_hostview-mount_ns kernel mounts_match mountinfo_match disk calls own_pid pid_list
      include_mode context fd fresh here own joins changes =
    fs_config_generic-mount_ns calls own_pid _ (some (pid_list, include_mode)) context fd here own
      (process_mountpoints_host-Home kernel mounts_match mountinfo_match disk calls fresh fd
        context.mount_ns fd (some (pid_list, include_mode))
        (with_descriptor fd context.mount_ns context)
        (with_descriptor-HasDescriptor_self fd context.mount_ns context))
      joins changes
