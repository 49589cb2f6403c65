-- ===== src/Collect/FlagSpaces.antt =====
-- The configuration that the flag files of src/c_config/fs.rs end up in: the container records the files
-- that it wrote, and the evaluation returns on the mount namespaces that the host records.
use mathlib.Core.Path.{subst}
use checkc.Base.{
  ℕ, ◌≤◌, ◌≡◌, refl, ◌∙◌, ap, sym, String, Bool, Option, none, some, List, [], ◌∷◌, ◌++◌, map,
  Outcome, ok, ◌⊎◌, inl, inr, All, Returns, option_eq,
}
use checkc.Base.Effects.{Effect, lift, >>=-eq-ok, traverse_effect, traverse_effect-Keeps}
use checkc.Base.Int.{ℤ}
use checkc.Base.Text.{◌<>◌}
use checkc.Proto.Ns.{NsId, ns_id_eq}
use checkc.Proto.Host.{MountNamespace}
use checkc.Evaluation.{do_check_flags_host, do_check_flags_refcontainer}
use checkc.Evaluation.FlagMatches.{IsIdentified, do_check_flags_refcontainer-exact}
use checkc.Evaluation.HostFlags.{do_check_flags_host-exact}
use checkc.Collect.Kernel.{Kernel}
use checkc.Collect.Context.{Context, ContextCalls, with_descriptor}
use checkc.Collect.Mounts.{get_mountinfos}
use checkc.Collect.MountIds.{HasNoFlags, occurrences_of}
use checkc.Collect.MountSpaces.{get_mountinfos-ok-IsSound}
use checkc.Collect.Restore.{Processing, fs_config_generic, in_directory, processed}
use checkc.Collect.FlagFiles.{
  DiskCalls, concat, mark_namespace, process_mountpoints_container, search_pids, search_namespace,
  process_mountpoints_host, fs_config_hostview, flag_base_name,
}
use checkc.Collect.FlagRecord.{
  all_flags, Distinct, KeepsFiles, in_ok, traverse_effect-Lists, concat-all_flags,
  mark_namespace-Lists, mark_namespace-Once,
}

-- The same namespaces, in the same order.
abbrev SameIds : List MountNamespace → List MountNamespace → Type 0
SameIds [] [] = Unit {0}
SameIds [] (m ∷ ms) = ⊥
SameIds (n ∷ ns) [] = ⊥
SameIds (n ∷ ns) (m ∷ ms) = (m.ns_id ≡ n.ns_id) × SameIds ns ms

SameIds-IsIdentified :
    (ns ms : List MountNamespace) → SameIds ns ms → All IsIdentified ns → All IsIdentified ms
SameIds-IsIdentified [] [] s h = tt
SameIds-IsIdentified [] (m ∷ ms) s h = absurd s
SameIds-IsIdentified (n ∷ ns) [] s h = absurd s
SameIds-IsIdentified (n ∷ ns) (m ∷ ms) (e, s) ((id, k), h) =
    ((id, e ∙ k), SameIds-IsIdentified ns ms s h)

occurrences_of-SameIds :
    (id : NsId) (ns ms : List MountNamespace)
    → SameIds ns ms
    → occurrences_of id ms ≡ occurrences_of id ns
unfolding occurrences_of
occurrences_of-SameIds id [] [] s = refl
occurrences_of-SameIds id [] (m ∷ ms) s = absurd s
occurrences_of-SameIds id (n ∷ ns) [] s = absurd s
occurrences_of-SameIds id (n ∷ ns) (m ∷ ms) (e, s) = rw (e, occurrences_of-SameIds id ns ms s) refl

-- A call that hands a namespace on with its identifier.
abbrev KeepsId : (MountNamespace → Effect Context MountNamespace) → Type 0
KeepsId f =
    (mountns m : MountNamespace) (context after : Context)
    → f mountns context ≡ (ok m, after)
    → m.ns_id ≡ mountns.ns_id

traverse_effect-SameIds :
    (f : MountNamespace → Effect Context MountNamespace)
    → KeepsId f
    → (ns ms : List MountNamespace) (context after : Context)
    → traverse_effect f ns context ≡ (ok ms, after)
    → SameIds ns ms
unfolding traverse_effect
traverse_effect-SameIds f keeps [] ms context after h =
    subst (SameIds []) (ap (λ (r : Outcome (List MountNamespace) × Context). in_ok [] r.0) h) tt
traverse_effect-SameIds f keeps (n ∷ ns) ms context after h =
    let (m, c, e, h1) = >>=-eq-ok (f n) _ context after h in
    let (rest, d, k, h2) = >>=-eq-ok (traverse_effect f ns) _ c after h1 in
    subst (SameIds (n ∷ ns)) (ap (λ (r : Outcome (List MountNamespace) × Context). in_ok [] r.0) h2)
      (keeps n m context c e, traverse_effect-SameIds f keeps ns rest c d k)

module _ (kernel : Kernel) (mounts_match mountinfo_match : String → Option (String × String))
    (disk : DiskCalls) where
  -- Where the container has written its flag files, and had created none before, those that it records are
  -- those that it created, and none is recorded twice.
  pub process_mountpoints_container-Distinct :
      (uuid : String) (fd : ℕ) (pid_cfg : Option (List ℤ × Bool)) (context after : Context)
      (namespaces : List MountNamespace)
      → KeepsFiles disk
      → context.created ≡ []
      → process_mountpoints_container kernel mounts_match mountinfo_match disk uuid fd pid_cfg
          context
        ≡ (ok namespaces, after)
      → (all_flags namespaces ≡ after.created) × Distinct (all_flags namespaces)
  unfolding process_mountpoints_container
  process_mountpoints_container-Distinct uuid fd pid_cfg context after namespaces keeps start h =
      let mark =
        mark_namespace kernel mounts_match mountinfo_match disk (flag_base_name <> "_" <> uuid) in
      let (ms, c, e, h1) =
        >>=-eq-ok (lift (get_mountinfos kernel mounts_match mountinfo_match none)) _ context after
          h in
      let sound =
        get_mountinfos-ok-IsSound kernel mounts_match mountinfo_match none
          (ap (λ (r : Outcome (List MountNamespace) × Context). r.0) e) in
      let unchanged = ap (λ (r : Outcome (List MountNamespace) × Context). r.1.created) e in
      let same : all_flags namespaces ≡ after.created = sym (
        traverse_effect-Lists HasNoFlags mark (λ (m : MountNamespace). m.flag_files)
          (mark_namespace-Lists kernel mounts_match mountinfo_match disk
            (flag_base_name <> "_" <> uuid))
          ms sound.2 c after namespaces h1
        ∙ ap
            (λ (l : List String).
              l ++ concat (map (λ (m : MountNamespace). m.flag_files) namespaces))
            (sym unchanged ∙ start)
        ∙ concat-all_flags namespaces) in
      let once =
        traverse_effect-Keeps (λ (x : Context). Distinct x.created) mark
          (mark_namespace-Once kernel mounts_match mountinfo_match disk keeps
            (flag_base_name <> "_" <> uuid))
          ms c (subst Distinct (sym start ∙ unchanged) tt) in
      (
        same,
        subst Distinct
            (ap (λ (r : Outcome (List MountNamespace) × Context). r.1.created) h1 ∙ sym same) once,
      )

  module _ (calls : ContextCalls) where
    search_namespace-KeepsId :
        (fd : ℕ) → KeepsId (search_namespace kernel mounts_match mountinfo_match disk calls fd)
    unfolding search_namespace
    search_namespace-KeepsId fd mountns m context after h =
        let (found, c, e, h1) =
          >>=-eq-ok
            (search_pids kernel mounts_match mountinfo_match disk calls fd mountns.ns_pids
              mountns.mountinfo mountns.flag_files)
            _ context after h in
        sym (ap (λ (r : Outcome MountNamespace × Context). (in_ok mountns r.0).ns_id) h1)

    process_mountpoints_host-IsSound :
        (fd : ℕ) (pid_cfg : Option (List ℤ × Bool)) (context after : Context)
        (namespaces : List MountNamespace)
        → process_mountpoints_host kernel mounts_match mountinfo_match disk calls fd pid_cfg context
          ≡ (ok namespaces, after)
        → All IsIdentified namespaces × ((id : NsId) → occurrences_of id namespaces ≤ 1)
    unfolding process_mountpoints_host
    process_mountpoints_host-IsSound fd pid_cfg context after namespaces h =
        let search = search_namespace kernel mounts_match mountinfo_match disk calls fd in
        let (ms, c, e, h1) =
          >>=-eq-ok (lift (get_mountinfos kernel mounts_match mountinfo_match pid_cfg)) _ context
            after h in
        let sound =
          get_mountinfos-ok-IsSound kernel mounts_match mountinfo_match pid_cfg
            (ap (λ (r : Outcome (List MountNamespace) × Context). r.0) e) in
        let same =
          traverse_effect-SameIds search (search_namespace-KeepsId fd) ms namespaces c after h1 in
        (
          SameIds-IsIdentified ms namespaces same sound.0,
          λ id. rw (occurrences_of-SameIds id ms namespaces same) (sound.1 id),
        )

    -- What `fs_config_generic` answers is what the function answered.
    processed-answer :
        (f_mp : Processing) (pid_cfg : Option (List ℤ × Bool)) (directory : String)
        (o : ℕ ⊎ (ℕ × NsId)) (context : Context) (namespaces : List MountNamespace)
        → (processed calls f_mp pid_cfg directory o context).0 ≡ ok namespaces
        → (fd : ℕ) × (before : Context) × ((f_mp fd pid_cfg before).0 ≡ ok namespaces)
    unfolding processed
    processed-answer f_mp pid_cfg directory (inl errno) context namespaces h = cc h
    processed-answer f_mp pid_cfg directory (inr (fd, id)) context namespaces h =
        (fd, with_descriptor fd id context, h)

    in_directory-answer :
        (own_pid : ℤ) (f_mp : Processing) (pid_cfg : Option (List ℤ × Bool)) (o : ℕ ⊎ String)
        (context : Context) (namespaces : List MountNamespace)
        → (in_directory calls own_pid f_mp pid_cfg o context).0 ≡ ok namespaces
        → (fd : ℕ) × (before : Context) × ((f_mp fd pid_cfg before).0 ≡ ok namespaces)
    unfolding in_directory
    in_directory-answer own_pid f_mp pid_cfg (inl errno) context namespaces h = cc h
    in_directory-answer own_pid f_mp pid_cfg (inr directory) context namespaces h =
        processed-answer f_mp pid_cfg directory _ context namespaces h

    -- The mount namespaces that the host's collection of the flag files answers are identified, each is there
    -- once, and both checks of the evaluation return on them.
    pub fs_config_hostview-do_check_flags :
        (find_uuid : String → Option String) (root_dir : String) (own_pid : ℤ) (pid_list : List ℤ)
        (include_mode : Bool) (context : Context) (namespaces : List MountNamespace)
        → (fs_config_hostview kernel mounts_match mountinfo_match disk calls own_pid pid_list
            include_mode context).0
          ≡ ok namespaces
        → All IsIdentified namespaces
          × ((id : NsId) → occurrences_of id namespaces ≤ 1)
          × Returns (do_check_flags_host find_uuid root_dir namespaces)
          × Returns (do_check_flags_refcontainer namespaces)
    unfolding fs_config_hostview fs_config_generic
    fs_config_hostview-do_check_flags find_uuid root_dir own_pid pid_list include_mode context
          namespaces h =
        let host = process_mountpoints_host kernel mounts_match mountinfo_match disk calls in
        let (fd, before, answer) =
          in_directory-answer own_pid host (some (pid_list, include_mode))
            (calls.current_dir context) context namespaces h in
        let (known, once) =
          process_mountpoints_host-IsSound fd (some (pid_list, include_mode)) before _ namespaces
            (λ i. (answer i, (host fd (some (pid_list, include_mode)) before).1)) in
        let (hosts, a, _) = do_check_flags_host-exact find_uuid root_dir namespaces known in
        let (refs, b, _) = do_check_flags_refcontainer-exact namespaces known in
        (known, once, (hosts, a), (refs, b))
