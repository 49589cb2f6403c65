-- ===== src/Base/Maps.antt =====
-- `HashMap`, as an association list in the order in which it is iterated.
use mathlib.Core.Path.{◌≡◌, refl}
use mathlib.Core.Bool.{Bool}
use mathlib.Core.Option.{Option, none, some}
use mathlib.Core.List.{List, [], ◌∷◌}
use native.Mathlib.Omega.{arith}
use checkc.Base.Tests.{if◌then◌else◌, is_some}
use checkc.Base.Equality.{Eq, ◌==◌}
use checkc.Base.Sets.{contains}

module _ {ℓ κ} {K : Type ℓ} {V : Type κ} ⦃e : Eq K⦄ where
  -- `HashMap::get`.
  unfoldable pub lookup : K → List (K × V) → Option V
  lookup k [] = none
  lookup k ((j, v) ∷ m) = if j == k then some v else lookup k m

  -- `HashMap::insert`: the value of a present key is replaced.
  unfoldable pub insert : K → V → List (K × V) → List (K × V)
  insert k v [] = (k, v) ∷ []
  insert k v ((j, w) ∷ m) = if j == k then (k, v) ∷ m else (j, w) ∷ insert k v m

  -- `HashMap::contains_key`.
  abbrev pub contains_key : List (K × V) → K → Bool
  contains_key m k = is_some (lookup k m)

  -- Of all the keys only the inserted one changes.
  pub lookup-insert :
      (new old : K) (value : V) (m : List (K × V))
      → lookup old (insert new value m) ≡ (if new == old then some value else lookup old m)
  unfolding insert lookup
  lookup-insert new old value [] = refl
  lookup-insert new old value ((key, w) ∷ m) = ground (
    arith,
    lookup-insert new old value m,
    e.beq_iff new old,
    e.beq_iff key new,
    e.beq_iff key old,
  )

  -- The keys of a map.
  abbrev pub keys : List (K × V) → List K
  keys [] = []
  keys ((k, v) ∷ m) = k ∷ keys m

  pub contains_key-keys : (m : List (K × V)) (k : K) → contains_key m k ≡ contains (keys m) k
  unfolding lookup contains
  contains_key-keys [] k = refl
  contains_key-keys ((j, v) ∷ m) k =
      ground (arith, e.beq_iff j k, e.beq_iff k j, contains_key-keys m k)
