-- ===== src/Evaluation/FlagMatches.antt =====
-- Which flag files are reported, and with which namespaces.
use mathlib.Core.List.{append-nil, append_assoc}
use text.Mathlib.TextEquality.{eq_iff}
use checkc.Base.{
  String, ◌≡◌, refl, sym, ◌∙◌, ap, false, ◌&&◌, Option, none, some, List, [], ◌∷◌, ◌++◌, map, arith,
  ok, All, is_empty, ◌==◌, string_eq, if◌then◌else◌, Bool-cases, inl, inr,
}
use checkc.Base.Sets.{all}
use checkc.Base.Maps
use checkc.Proto.Ns.{NsId}
use checkc.Proto.Host.{MountNamespace}
use checkc.Evaluation.Flags.{
  FlagMatches, add_match, match_line, refcontainer_flags, refcontainer_namespaces,
  do_check_flags_refcontainer,
}

-- The namespaces under which a flag file is entered.
abbrev pub entry_ids : Option (List NsId) → List NsId
entry_ids none = []
entry_ids (some ids) = ids

abbrev pub ids_of : FlagMatches → String → List NsId
ids_of m flag = entry_ids (Maps.lookup flag m)

ids_of-insert :
    (f g : String) (ids : List NsId) (m : FlagMatches)
    → ids_of (Maps.insert f ids m) g ≡ (if f == g then ids else ids_of m g)
ids_of-insert f g ids m = ap entry_ids (Maps.lookup-insert f g ids m) ∙ ground arith

add_match-insert :
    (f : String) (id : NsId) (m : FlagMatches)
    → add_match f id m ≡ Maps.insert f (ids_of m f ++ id ∷ []) m
unfolding add_match
add_match-insert f id m = by_entry (Maps.lookup f m)
  where
    by_entry :
        (o : Option (List NsId))
        → elim o [ none ↦ Maps.insert f (id ∷ []) m | some ids ↦ Maps.insert f (ids ++ id ∷ []) m ]
          ≡ Maps.insert f (entry_ids o ++ id ∷ []) m
    by_entry none = refl
    by_entry (some ids) = refl

-- A new match is the last of its flag, and leaves the others alone.
pub ids_of-add_match :
    (f g : String) (id : NsId) (m : FlagMatches)
    → ids_of (add_match f id m) g ≡ ids_of m g ++ (if f == g then id ∷ [] else [])
ids_of-add_match f g id m = elim (Bool-cases (f == g)) [
  | inl e ↦
      rw (add_match-insert, ids_of-insert, e) (ap (λ h. ids_of m h ++ id ∷ []) ((eq_iff f g).0 e))
  | inr e ↦ rw (add_match-insert, ids_of-insert, e) (sym (append-nil (ids_of m g)))
]

insert-ne_nil :
    (k : String) (v : List NsId) (m : FlagMatches) → is_empty (Maps.insert k v m) ≡ false
unfolding Maps.insert
insert-ne_nil k v [] = refl
insert-ne_nil k v ((j, w) ∷ m) = ground arith

pub add_match-ne_nil :
    (f : String) (id : NsId) (m : FlagMatches) → is_empty (add_match f id m) ≡ false
add_match-ne_nil f id m = rw add_match-insert (insert-ne_nil f _ m)

-- The namespaces in which a flag file was seen, once for each time it is listed.
unfoldable pub occurrences : String → NsId → List String → List NsId
occurrences g id [] = []
occurrences g id (flag ∷ flags) = (if flag == g then id ∷ [] else []) ++ occurrences g id flags

unfoldable pub seen_in : String → List MountNamespace → List NsId
seen_in g [] = []
seen_in g (mountns ∷ rest) =
    elim mountns.ns_id [ none ↦ [] | some id ↦ occurrences g id mountns.flag_files ]
    ++ seen_in g rest

abbrev pub IsIdentified : MountNamespace → Type 0
IsIdentified mountns = (id : NsId) × (mountns.ns_id ≡ some id)

ids_of-refcontainer_flags :
    (g : String) (id : NsId) (flags : List String) (m : FlagMatches)
    → ids_of (refcontainer_flags id flags m) g ≡ ids_of m g ++ occurrences g id flags
unfolding refcontainer_flags occurrences
ids_of-refcontainer_flags g id [] m = sym (append-nil (ids_of m g))
ids_of-refcontainer_flags g id (flag ∷ flags) m =
    ids_of-refcontainer_flags g id flags (add_match flag id m) ∙ rw (ids_of-add_match, append_assoc)

-- The check of the reference container finds every flag file, with the namespaces it was seen in.
pub refcontainer_namespaces-seen :
    (namespaces : List MountNamespace) (m : FlagMatches)
    → All IsIdentified namespaces
    → (m' : FlagMatches) × (refcontainer_namespaces namespaces m ≡ ok m')
      × ((g : String) → ids_of m' g ≡ ids_of m g ++ seen_in g namespaces)
unfolding refcontainer_namespaces seen_in
refcontainer_namespaces-seen [] m h = (m, refl, λ g. sym (append-nil (ids_of m g)))
refcontainer_namespaces-seen (mountns ∷ rest) m ((id, e), h) =
    let (m', r, s) =
      refcontainer_namespaces-seen rest (refcontainer_flags id mountns.flag_files m) h in
    (
      m',
      rw (e, r),
      λ g. s g ∙ rw (e, ids_of-refcontainer_flags g id mountns.flag_files m, append_assoc),
    )

pub is_empty-map {ℓ κ} :
    {A : Type ℓ} {B : Type κ} (f : A → B) (xs : List A) → is_empty (map f xs) ≡ is_empty xs
is_empty-map f [] = refl
is_empty-map f (x ∷ xs) = refl

refcontainer_flags-empty :
    (id : NsId) (flags : List String) (m : FlagMatches)
    → is_empty (refcontainer_flags id flags m) ≡ (is_empty m && is_empty flags)
unfolding refcontainer_flags
refcontainer_flags-empty id [] m = ground arith
refcontainer_flags-empty id (flag ∷ flags) m =
    ground
      (arith, refcontainer_flags-empty id flags (add_match flag id m), add_match-ne_nil flag id m)

refcontainer_namespaces-empty :
    (namespaces : List MountNamespace) (m : FlagMatches)
    → All IsIdentified namespaces
    → (m' : FlagMatches) × (refcontainer_namespaces namespaces m ≡ ok m')
      × (is_empty m' ≡ (is_empty m && all (λ mountns. is_empty mountns.flag_files) namespaces))
unfolding refcontainer_namespaces all
refcontainer_namespaces-empty [] m h = (m, refl, ground arith)
refcontainer_namespaces-empty (mountns ∷ rest) m ((id, e), h) =
    let (m', r, s) =
      refcontainer_namespaces-empty rest (refcontainer_flags id mountns.flag_files m) h in
    (m', rw (e, r), ground (arith, s, refcontainer_flags-empty id mountns.flag_files m))

-- The check of the reference container has no finding exactly if no namespace holds a flag file.
pub do_check_flags_refcontainer-exact :
    (namespaces : List MountNamespace)
    → All IsIdentified namespaces
    → (lines : List String) × (do_check_flags_refcontainer namespaces ≡ ok lines)
      × (is_empty lines ≡ all (λ mountns. is_empty mountns.flag_files) namespaces)
unfolding do_check_flags_refcontainer
do_check_flags_refcontainer-exact namespaces h =
    let (m, r, s) = refcontainer_namespaces-empty namespaces [] h in
    (map match_line m, rw r, is_empty-map match_line m ∙ s)
