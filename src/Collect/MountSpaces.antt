-- ===== src/Collect/MountSpaces.antt =====
-- The mount namespaces that `get_mountinfos` of src/c_config/fs.rs collects: each once, and identified, as the
-- evaluation of the flag files needs them.
use mathlib.Core.Path.{subst}
use checkc.Base.{
  ℕ, zero, suc, ◌≤◌, ◌≡◌, refl, ◌∙◌, ap, sym, String, Bool, Option, List, [], ◌∷◌, Outcome, ok, err,
  panic, ◌>>=◌, All, arith, Bool-cases, ◌⊎◌, inl, inr, io_error, option_eq, >>=-elim, Error, ◌≢◌,
  my_io_error,
}
use checkc.Base.Int.{ℤ}
use checkc.Base.Text.{◌<>◌}
use checkc.Proto.Ns.{NsId, NsType, ns_id_eq}
use checkc.Proto.Host.{MountNamespace}
use checkc.Evaluation.FlagMatches.{IsIdentified}
use checkc.Collect.Kernel.{Kernel}
use checkc.Collect.Numbers.{show_int}
use checkc.Collect.Process.{or_error, from_type, get_pid_list, ns_path}
use checkc.Collect.Mounts.{
  Info, is_selected, with_info, unwrap_result, info_by_pid, on_count, with_id, collect_mountinfos,
  get_mountinfos,
}
use checkc.Collect.MountIds.{
  IsSound, HasNoFlags, occurrences_of, count_matches-occurrences_of, occurrences_of-none,
  push_pid-IsSound, append-IsSound,
}

-- The value of a call, where it returned.
abbrev in_ok : {A : Type 0} → A → Outcome A → A
in_ok default panic = default
in_ok default (err e) = default
in_ok default (ok a) = a

-- What a step returns is sound.
abbrev SoundResult : Outcome (List MountNamespace) → Type 0
SoundResult r = (namespaces : List MountNamespace) × (r ≡ ok namespaces) × IsSound namespaces

with_info-SoundResult :
    (p : ℤ) (namespaces : List MountNamespace) (r : Outcome Info)
    → r ≢ panic
    → ((info : Info) → r ≡ ok info → occurrences_of info.ns_id namespaces ≡ 0)
    → IsSound namespaces
    → SoundResult (with_info p namespaces r)
unfolding with_info
with_info-SoundResult p namespaces panic safe fresh h = absurd (safe refl)
with_info-SoundResult p namespaces (err e) safe fresh h = (namespaces, refl, h)
with_info-SoundResult p namespaces (ok info) safe fresh h =
    (_, refl, append-IsSound p info namespaces (fresh info refl) h)

module _ (kernel : Kernel) (mounts_match mountinfo_match : String → Option (String × String)) where
  info_by_pid-ok-ns_id :
      (p : ℤ) {info : Info}
      → info_by_pid kernel mounts_match mountinfo_match p ≡ ok info
      → from_type kernel p NsType.mount ≡ ok info.ns_id
  unfolding info_by_pid
  info_by_pid-ok-ns_id p {info} h =
      >>=-elim (or_error io_error (kernel.lines ("/proc/" <> show_int p <> "/mounts"))) _ h
        λ a e h1.
          >>=-elim (or_error io_error (kernel.lines ("/proc/" <> show_int p <> "/mountinfo"))) _ h1
            λ b k h2.
              >>=-elim (from_type kernel p NsType.mount) _ h2 λ id i h3. i ∙ ap ok (ap id_in h3)
    where
      id_in : Outcome Info → NsId
      id_in panic = record { st_dev = 0; st_ino = 0 }
      id_in (err _) = record { st_dev = 0; st_ino = 0 }
      id_in (ok i) = i.ns_id

  or_error-safe :
      {A B : Type 0} (o : ℕ ⊎ A) (to_error : ℕ → Error) (next : A → Outcome B)
      → ((a : A) → next a ≢ panic)
      → (or_error to_error o >>= next) ≢ panic
  or_error-safe (inl errno) to_error next h = λ k. cc k
  or_error-safe (inr a) to_error next h = h a

  info_by_pid-safe : (p : ℤ) → info_by_pid kernel mounts_match mountinfo_match p ≢ panic
  unfolding info_by_pid from_type
  info_by_pid-safe p = or_error-safe (kernel.lines _) io_error _ λ a.
      or_error-safe (kernel.lines _) io_error _
        λ b. or_error-safe (kernel.ns_file _) _ _ λ id k. cc k

  on_count-SoundResult :
      (p : ℤ) (id : NsId) (namespaces : List MountNamespace) (n : ℕ)
      → n ≡ occurrences_of id namespaces
      → from_type kernel p NsType.mount ≡ ok id
      → IsSound namespaces
      → SoundResult (on_count kernel mounts_match mountinfo_match p id namespaces n)
  unfolding on_count
  on_count-SoundResult p id namespaces zero e i h =
      with_info-SoundResult p namespaces (info_by_pid kernel mounts_match mountinfo_match p)
        (info_by_pid-safe p) (λ info k. cc (info_by_pid-ok-ns_id p k, i, e)) h
  on_count-SoundResult p id namespaces (suc zero) e i h =
      (_, refl, push_pid-IsSound id p namespaces h)
  on_count-SoundResult p id namespaces (suc (suc n)) e i h = absurd (omega (arith, e, h.1 id))

  with_id-SoundResult :
      (p : ℤ) (namespaces : List MountNamespace)
      → IsSound namespaces
      → SoundResult (
          with_id kernel mounts_match mountinfo_match p namespaces
            (from_type kernel p NsType.mount))
  unfolding with_id from_type
  with_id-SoundResult p namespaces h = by_file (kernel.ns_file _) refl
    where
      by_file :
          (o : ℕ ⊎ NsId)
          → kernel.ns_file (ns_path p NsType.mount) ≡ o
          → SoundResult (
              with_id kernel mounts_match mountinfo_match p namespaces
                (or_error (my_io_error (ns_path p NsType.mount)) o))
      by_file (inl errno) e = (namespaces, refl, h)
      by_file (inr id) e =
          rw (count_matches-occurrences_of id namespaces h.0)
            (on_count-SoundResult p id namespaces (occurrences_of id namespaces) refl (rw e refl) h)

  collect_mountinfos-SoundResult :
      (pid_cfg : Option (List ℤ × Bool)) (pids : List ℤ) (namespaces : List MountNamespace)
      → IsSound namespaces
      → SoundResult (collect_mountinfos kernel mounts_match mountinfo_match pid_cfg pids namespaces)
  unfolding collect_mountinfos
  collect_mountinfos-SoundResult pid_cfg [] namespaces h = (namespaces, refl, h)
  collect_mountinfos-SoundResult pid_cfg (p ∷ pids) namespaces h =
      elim (Bool-cases (is_selected pid_cfg p)) [
        | inl e ↦
            let (next, r, k) = with_id-SoundResult p namespaces h in
            rw (e, r) (collect_mountinfos-SoundResult pid_cfg pids next k)
        | inr e ↦ rw e (collect_mountinfos-SoundResult pid_cfg pids namespaces h)
      ]

  -- Where the processes can be listed, the collection of their mount namespaces returns: every namespace
  -- is identified, none is there twice, and none has flag files yet.
  pub get_mountinfos-IsSound :
      (pid_cfg : Option (List ℤ × Bool)) {pids : List ℤ}
      → get_pid_list kernel ≡ ok pids
      → (namespaces : List MountNamespace) × (get_mountinfos kernel mounts_match mountinfo_match
            pid_cfg
          ≡ ok namespaces)
        × All IsIdentified namespaces
        × ((id : NsId) → occurrences_of id namespaces ≤ 1)
        × All HasNoFlags namespaces
  unfolding get_mountinfos unwrap_result
  get_mountinfos-IsSound pid_cfg {pids} h =
      let (namespaces, r, k) =
        collect_mountinfos-SoundResult pid_cfg pids [] (tt, occurrences_of-none, tt) in
      (namespaces, rw h r, k.0, k.1, k.2)

  pub get_mountinfos-ok-IsSound :
      (pid_cfg : Option (List ℤ × Bool)) {namespaces : List MountNamespace}
      → get_mountinfos kernel mounts_match mountinfo_match pid_cfg ≡ ok namespaces
      → IsSound namespaces
  unfolding get_mountinfos unwrap_result
  get_mountinfos-ok-IsSound pid_cfg {namespaces} h = by_list (get_pid_list kernel) h
    where
      by_list :
          (o : Outcome (List ℤ))
          → (unwrap_result o >>= λ pids.
              collect_mountinfos kernel mounts_match mountinfo_match pid_cfg pids [])
            ≡ ok namespaces
          → IsSound namespaces
      by_list panic k = cc k
      by_list (err e) k = cc k
      by_list (ok pids) k =
          let (found, r, sound) =
            collect_mountinfos-SoundResult pid_cfg pids [] (tt, occurrences_of-none, tt) in
          subst IsSound (ap (in_ok []) (sym r ∙ k)) sound
