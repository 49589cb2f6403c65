-- ===== src/Collect/MountIds.antt =====
-- Lists of mount namespaces (src/c_config/fs.rs) in which each is identified and none is there twice.
use checkc.Base.{
  ℕ, suc, ◌+◌, ◌≤◌, ◌≡◌, refl, ◌∙◌, sym, Bool, true, false, some, List, [], ◌∷◌, ◌++◌, ok, ◌==◌,
  if◌then◌else◌, All, arith, Bool-cases, inl, inr, option_eq,
}
use checkc.Base.Int.{ℤ}
use checkc.Proto.Ns.{NsId, ns_id_eq, ns_id_beq_iff}
use checkc.Proto.Host.{MountNamespace}
use checkc.Evaluation.FlagMatches.{IsIdentified}
use checkc.Collect.Mounts.{Info, count_matches, push_pid, new_namespace}

-- How often an identifier occurs.
unfoldable pub occurrences_of : NsId → List MountNamespace → ℕ
occurrences_of id [] = 0
occurrences_of id (n ∷ namespaces) =
    let others = occurrences_of id namespaces in if n.ns_id == some id then suc others else others

abbrev pub HasNoFlags : MountNamespace → Type 0
HasNoFlags mountns = mountns.flag_files ≡ []

-- Every namespace is identified, none is there twice, and none has flag files yet.
abbrev pub IsSound : List MountNamespace → Type 0
IsSound namespaces =
    All IsIdentified namespaces
    × ((id : NsId) → occurrences_of id namespaces ≤ 1)
    × All HasNoFlags namespaces

pub occurrences_of-none : (id : NsId) → occurrences_of id [] ≤ 1
unfolding occurrences_of
occurrences_of-none id = ground arith

same_id : (id own : NsId) → (id == own) ≡ (some own == some id)
same_id id own = ground (arith, ns_id_beq_iff id own, ns_id_beq_iff own id)

pub count_matches-occurrences_of :
    (id : NsId) (namespaces : List MountNamespace)
    → All IsIdentified namespaces
    → count_matches id namespaces ≡ ok (occurrences_of id namespaces)
unfolding count_matches occurrences_of
count_matches-occurrences_of id [] h = refl
count_matches-occurrences_of id (n ∷ namespaces) ((own, e), h) =
    rw (e, count_matches-occurrences_of id namespaces h, same_id id own) refl

occurrences_of-append :
    (id : NsId) (xs ys : List MountNamespace)
    → occurrences_of id (xs ++ ys) ≡ occurrences_of id xs + occurrences_of id ys
unfolding occurrences_of
occurrences_of-append id [] ys = ground arith
occurrences_of-append id (x ∷ xs) ys = ground (arith, occurrences_of-append id xs ys)

All-snoc :
    (P : MountNamespace → Type 0) (xs : List MountNamespace) (x : MountNamespace)
    → All P xs
    → P x
    → All P (xs ++ x ∷ [])
All-snoc P [] x h k = (k, tt)
All-snoc P (y ∷ xs) x h k = (h.0, All-snoc P xs x h.1 k)

pushed-ns_id :
    (b : Bool) (n : MountNamespace) (pids : List ℤ)
    → (if b then record n { ns_pids = pids } else n).ns_id ≡ n.ns_id
pushed-ns_id true n pids = refl
pushed-ns_id false n pids = refl

push_pid-IsIdentified :
    (id : NsId) (p : ℤ) (namespaces : List MountNamespace)
    → All IsIdentified namespaces
    → All IsIdentified (push_pid id p namespaces)
unfolding push_pid
push_pid-IsIdentified id p [] h = tt
push_pid-IsIdentified id p (n ∷ namespaces) ((own, e), h) =
    ((own, pushed-ns_id (n.ns_id == some id) n _ ∙ e), push_pid-IsIdentified id p namespaces h)

pushed-flag_files :
    (b : Bool) (n : MountNamespace) (pids : List ℤ)
    → (if b then record n { ns_pids = pids } else n).flag_files ≡ n.flag_files
pushed-flag_files true n pids = refl
pushed-flag_files false n pids = refl

push_pid-HasNoFlags :
    (id : NsId) (p : ℤ) (namespaces : List MountNamespace)
    → All HasNoFlags namespaces
    → All HasNoFlags (push_pid id p namespaces)
unfolding push_pid
push_pid-HasNoFlags id p [] h = tt
push_pid-HasNoFlags id p (n ∷ namespaces) (e, h) =
    (pushed-flag_files (n.ns_id == some id) n _ ∙ e, push_pid-HasNoFlags id p namespaces h)

occurrences_of-push_pid :
    (id' id : NsId) (p : ℤ) (namespaces : List MountNamespace)
    → occurrences_of id' (push_pid id p namespaces) ≡ occurrences_of id' namespaces
unfolding push_pid occurrences_of
occurrences_of-push_pid id' id p [] = refl
occurrences_of-push_pid id' id p (n ∷ namespaces) =
    rw
      (
        pushed-ns_id (n.ns_id == some id) n (n.ns_pids ++ p ∷ []),
        occurrences_of-push_pid id' id p namespaces,
      )
      refl

pub push_pid-IsSound :
    (id : NsId) (p : ℤ) (namespaces : List MountNamespace)
    → IsSound namespaces
    → IsSound (push_pid id p namespaces)
push_pid-IsSound id p namespaces (h, k, f) = (
  push_pid-IsIdentified id p namespaces h,
  λ id'. rw (occurrences_of-push_pid id' id p namespaces) (k id'),
  push_pid-HasNoFlags id p namespaces f,
)

occurrences_of-append_once :
    (n : MountNamespace) (own id : NsId) (namespaces : List MountNamespace)
    → n.ns_id ≡ some own
    → occurrences_of own namespaces ≡ 0
    → occurrences_of id namespaces ≤ 1
    → occurrences_of id (namespaces ++ n ∷ []) ≤ 1
unfolding occurrences_of
occurrences_of-append_once n own id namespaces e fresh h = elim (Bool-cases (id == own)) [
  | inl same ↦
      rw (occurrences_of-append id namespaces (n ∷ []), (ns_id_beq_iff id own).0 same, fresh)
        (ground arith)
  | inr apart ↦
      rw (occurrences_of-append id namespaces (n ∷ []), e, sym (same_id id own), apart)
        (omega arith)
]

pub append-IsSound :
    (p : ℤ) (info : Info) (namespaces : List MountNamespace)
    → occurrences_of info.ns_id namespaces ≡ 0
    → IsSound namespaces
    → IsSound (namespaces ++ new_namespace p info ∷ [])
unfolding new_namespace
append-IsSound p info namespaces fresh (h, k, f) = (
  All-snoc IsIdentified namespaces _ h (info.ns_id, refl),
  λ id.
      occurrences_of-append_once (new_namespace p info) info.ns_id id namespaces refl fresh (k id),
  All-snoc HasNoFlags namespaces _ f refl,
)
