-- ===== src/Collect/Restore.antt =====
-- `fs_config_generic` of src/c_config/fs.rs, which runs a function that may join other mount namespaces.
use checkc.Base.{
  ℕ, ◌≡◌, refl, String, Bool, Option, none, some, List, ◌⊎◌, inl, inr, ◌∙◌, ap, io_error,
  syscall_error,
}
use checkc.Base.Effects.{Effect, fail}
use checkc.Base.Int.{ℤ}
use checkc.Base.Text.{◌<>◌}
use checkc.Proto.Ns.{NsId}
use checkc.Proto.Host.{MountNamespace}
use checkc.Collect.Numbers.{show_int}
use checkc.Collect.Context.{
  Context, ContextCalls, clone_newns, entered, closed, with_descriptor, HasDescriptor,
  entered-descriptors, entered-mount_ns, closed-mount_ns,
}

-- A function that processes mount points, given the descriptor and the processes to look at.
abbrev pub Processing : Type 0
Processing = ℕ → Option (List ℤ × Bool) → Effect Context (List MountNamespace)

-- `set_current_dir`: a failure is logged.
unfoldable pub back_in : Option ℕ → String → Context → Context
back_in (some errno) directory context = context
back_in none directory context = record context { directory = directory }

-- `setns` to the mount namespace behind a descriptor: a failure is logged.
unfoldable pub entered_if : Option ℕ → ℕ → Context → Context
entered_if (some errno) fd context = context
entered_if none fd context = entered fd clone_newns context

module _ (calls : ContextCalls) where
  unfoldable pub rejoined : ℕ → Context → Context
  unfolding entered_if
  rejoined fd context = entered_if (calls.setns fd clone_newns context) fd context

  -- What follows the function, whatever it answered.
  unfoldable pub restored : ℕ → String → Context → Context
  unfolding back_in rejoined
  restored fd directory context =
      let joined = rejoined fd context in
      let left = closed (calls.close fd joined) fd joined in
      back_in (calls.set_current_dir directory left) directory left

  unfoldable pub processed :
      Processing
      → Option (List ℤ × Bool)
      → String
      → ℕ ⊎ (ℕ × NsId)
      → Effect Context (List MountNamespace)
  unfolding restored
  processed f_mp pid_cfg directory (inl errno) = fail (syscall_error "open" errno)
  processed f_mp pid_cfg directory (inr (fd, id)) = λ context.
      let result = f_mp fd pid_cfg (with_descriptor fd id context) in
      (result.0, restored fd directory result.1)

  unfoldable pub in_directory :
      ℤ → Processing → Option (List ℤ × Bool) → ℕ ⊎ String → Effect Context (List MountNamespace)
  unfolding processed
  in_directory own_pid f_mp pid_cfg (inl errno) = fail (io_error errno)
  in_directory own_pid f_mp pid_cfg (inr directory) = λ context.
      processed f_mp pid_cfg directory
        (calls.open_ns ("/proc/" <> show_int own_pid <> "/ns/mnt") context) context

  unfoldable pub fs_config_generic :
      ℤ → Processing → Option (List ℤ × Bool) → Effect Context (List MountNamespace)
  unfolding in_directory
  fs_config_generic own_pid f_mp pid_cfg context =
      in_directory own_pid f_mp pid_cfg (calls.current_dir context) context

  pub rejoined-descriptors :
      (fd : ℕ) (context : Context) → (rejoined fd context).descriptors ≡ context.descriptors
  unfolding rejoined
  rejoined-descriptors fd context = by_setns (calls.setns fd clone_newns context)
    where
      by_setns : (o : Option ℕ) → (entered_if o fd context).descriptors ≡ context.descriptors
      by_setns none = entered-descriptors fd clone_newns context
      by_setns (some errno) = refl

  restored-mount_ns :
      (fd : ℕ) (directory : String) (context : Context) (id : NsId)
      → HasDescriptor fd id context
      → ((c : Context) → calls.setns fd clone_newns c ≡ none)
      → ((c : Context) → calls.set_current_dir directory c ≡ none)
      → ((restored fd directory context).mount_ns ≡ id)
        × ((restored fd directory context).directory ≡ directory)
  unfolding restored
  restored-mount_ns fd directory context id kept joins changes = (
    rw
        (
          joins context,
          changes (
              closed (calls.close fd (entered fd clone_newns context)) fd
                (entered fd clone_newns context)),
        )
        (closed-mount_ns (calls.close fd (entered fd clone_newns context)) fd _
          ∙ ap (λ (c : Context). c.mount_ns) (entered-mount_ns fd id context kept)),
    rw (changes (closed (calls.close fd (rejoined fd context)) fd (rejoined fd context))) refl,
  )

  -- Where the function that processes the mount points keeps its descriptor, and neither setns on that
  -- nor the change to the first directory fails, the process is afterwards in the mount namespace and in
  -- the directory that it was in before, whatever the function answered.
  pub fs_config_generic-mount_ns :
      (own_pid : ℤ) (f_mp : Processing) (pid_cfg : Option (List ℤ × Bool)) (context : Context)
      (fd : ℕ)
      → calls.current_dir context ≡ inr context.directory
      → calls.open_ns ("/proc/" <> show_int own_pid <> "/ns/mnt") context
        ≡ inr (fd, context.mount_ns)
      → HasDescriptor fd context.mount_ns
          (f_mp fd pid_cfg (with_descriptor fd context.mount_ns context)).1
      → ((c : Context) → calls.setns fd clone_newns c ≡ none)
      → ((c : Context) → calls.set_current_dir context.directory c ≡ none)
      → ((fs_config_generic own_pid f_mp pid_cfg context).1.mount_ns ≡ context.mount_ns)
        × ((fs_config_generic own_pid f_mp pid_cfg context).1.directory ≡ context.directory)
  unfolding fs_config_generic in_directory processed
  fs_config_generic-mount_ns own_pid f_mp pid_cfg context fd here own kept joins changes =
      rw (here, own) (restored-mount_ns fd context.directory _ context.mount_ns kept joins changes)
