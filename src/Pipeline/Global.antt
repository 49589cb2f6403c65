-- ===== src/Pipeline/Global.antt =====
-- What goal S1 (src/assessment/mod.rs) asks for where every namespace type is wanted.
use checkc.Base.{◌≡◌, refl, true, not, ◌&&◌, ◌||◌, List, [], ◌∷◌, arith, leb, is_empty, Eq}
use checkc.Base.Sets.{contains, is_subset, all, difference, filter, is_subset-contains}
use checkc.Proto.Ns.{
  NsType, network, uts, mount, cgroup, pid, ipc, user, time, ns_type_eq, ns_type_beq,
}
use checkc.Proto.Caps.{Capability, capability_eq, capability_beq_iff}
use checkc.Proto.Evaluation.{Chroot}
use checkc.Proto.Assessment.{Criticality, criticality_number}
use checkc.Assessment.Table.{required_namespaces}
use checkc.Assessment.Verdicts.{is_harmless}

abbrev pub all_types : List NsType
all_types = cgroup ∷ ipc ∷ network ∷ mount ∷ pid ∷ time ∷ user ∷ uts ∷ []

module _ {A : Type 0} ⦃e : Eq A⦄ where
  pub difference-is_subset : (xs ys : List A) → is_empty (difference xs ys) ≡ is_subset xs ys
  unfolding difference filter is_subset all
  difference-is_subset [] ys = refl
  difference-is_subset (x ∷ xs) ys = ground (arith, difference-is_subset xs ys)

  pub is_subset-intro :
      (xs ys : List A)
      → ((a : A) → contains xs a ≡ true → contains ys a ≡ true)
      → is_subset xs ys ≡ true
  unfolding is_subset all contains
  is_subset-intro [] ys h = refl
  is_subset-intro (x ∷ xs) ys h =
      ground (arith, h x, e.beq_iff x x, is_subset-intro xs ys (λ a m. h a (ground arith)))

  -- A subset test depends on the members alone.
  pub is_subset-members :
      (xs ys xs' ys' : List A)
      → ((a : A) → contains xs a ≡ contains xs' a)
      → ((a : A) → contains xs' a ≡ true → contains ys a ≡ contains ys' a)
      → is_subset xs ys ≡ is_subset xs' ys'
  is_subset-members xs ys xs' ys' same within = ground (
    arith,
    (λ (h : is_subset xs ys ≡ true).
        is_subset-intro xs' ys'
          (λ a m. ground (arith, same a, within a, is_subset-contains xs ys a h))),
    (λ (h : is_subset xs' ys' ≡ true).
        is_subset-intro xs ys
          (λ a m. ground (arith, same a, within a, is_subset-contains xs' ys' a h))),
  )

module _ (active : List NsType) (covered : is_subset all_types active ≡ true) where
  is_active : (t : NsType) → contains all_types t ≡ true → contains active t ≡ true
  is_active t h = is_subset-contains all_types active t covered h

  required-active : (c : Capability) → is_subset (required_namespaces c) active ≡ true
  unfolding required_namespaces is_subset all contains ns_type_beq
  required-active Capability.cap_checkpoint_restore =
      rw (is_active user refl, is_active pid refl) refl
  required-active Capability.cap_sys_boot = rw (is_active user refl, is_active pid refl) refl
  required-active Capability.cap_ipc_owner = rw (is_active user refl, is_active ipc refl) refl
  required-active Capability.cap_net_broadcast =
      rw (is_active user refl, is_active network refl) refl
  required-active Capability.cap_sys_chroot = rw (is_active user refl, is_active mount refl) refl
  required-active _ = rw (is_active user refl) refl

  -- With every namespace active, only CAP_SYS_CHROOT can do harm.
  pub all-harmless :
      (s2 : Criticality) (chroot : Chroot) (caps : List Capability)
      → all (is_harmless active s2 chroot) caps ≡ (
          not (contains caps Capability.cap_sys_chroot)
          || (chroot.chroot && chroot.pivot_root && leb (criticality_number s2) 1))
  unfolding all is_harmless contains
  all-harmless s2 chroot [] = refl
  all-harmless s2 chroot (c ∷ caps) = ground (
    arith,
    required-active c,
    all-harmless s2 chroot caps,
    capability_beq_iff c Capability.cap_sys_chroot,
    capability_beq_iff Capability.cap_sys_chroot c,
  )
