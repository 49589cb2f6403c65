-- ===== src/Base/Reordered.antt =====
-- Lists with the same entries in any order: a `HashMap` or `HashSet` may be iterated in each of them.
use mathlib.Core.Path.{◌≡◌, refl, ◌∙◌, ap}
use mathlib.Core.Bool.{Bool, true, not, ◌&&◌, ◌||◌}
use mathlib.Core.Option.{some}
use mathlib.Core.List.{List, [], ◌∷◌}
use native.Mathlib.Omega.{arith}
use checkc.Base.Tests.{if◌then◌else◌}
use checkc.Base.Equality.{Eq, ◌==◌}
use checkc.Base.Sets.{contains}
use checkc.Base.Maps.{lookup, keys}

pub data Reordered {A : Type 0} : List A → List A → Type 0 where
  same : (xs : List A) → Reordered xs xs
  skip : (x : A) (xs ys : List A) → Reordered xs ys → Reordered (x ∷ xs) (x ∷ ys)
  swap : (x y : A) (xs : List A) → Reordered (x ∷ y ∷ xs) (y ∷ x ∷ xs)
  both : (xs ys zs : List A) → Reordered xs ys → Reordered ys zs → Reordered xs zs

module _ {K V : Type 0} ⦃e : Eq K⦄ where
  -- No key stands twice.
  unfoldable pub are_distinct : List (K × V) → Bool
  are_distinct [] = true
  are_distinct ((k, v) ∷ m) = not (contains (keys m) k) && are_distinct m

  Reordered-keys :
      (xs ys : List (K × V))
      → Reordered xs ys
      → (k : K) → contains (keys xs) k ≡ contains (keys ys) k
  unfolding contains
  Reordered-keys xs ys (same _) k = refl
  Reordered-keys xs ys (skip x us vs r) k = ap (λ b. k == x.0 || b) (Reordered-keys us vs r k)
  Reordered-keys xs ys (swap x y us) k = ground arith
  Reordered-keys xs ys (both _ zs _ r s) k = Reordered-keys xs zs r k ∙ Reordered-keys zs ys s k

  pub Reordered-are_distinct :
      (xs ys : List (K × V)) → Reordered xs ys → are_distinct xs ≡ true → are_distinct ys ≡ true
  unfolding contains are_distinct
  Reordered-are_distinct xs ys (same _) h = h
  Reordered-are_distinct xs ys (skip x us vs r) h =
      ground (arith, h, Reordered-keys us vs r x.0, Reordered-are_distinct us vs r)
  Reordered-are_distinct xs ys (swap x y us) h =
      ground (arith, h, e.beq_iff x.0 y.0, e.beq_iff y.0 x.0)
  Reordered-are_distinct xs ys (both _ zs _ r s) h =
      Reordered-are_distinct zs ys s (Reordered-are_distinct xs zs r h)

  -- A look-up does not depend on the order.
  pub lookup-Reordered :
      (xs ys : List (K × V))
      → Reordered xs ys
      → are_distinct xs ≡ true
      → (k : K) → lookup k xs ≡ lookup k ys
  unfolding contains are_distinct lookup
  lookup-Reordered xs ys (same _) h k = refl
  lookup-Reordered xs ys (skip x us vs r) h k =
      ap (λ o. if x.0 == k then some x.1 else o) (lookup-Reordered us vs r (ground (arith, h)) k)
  lookup-Reordered xs ys (swap x y us) h k =
      ground (arith, h, e.beq_iff x.0 k, e.beq_iff y.0 k, e.beq_iff x.0 y.0)
  lookup-Reordered xs ys (both _ zs _ r s) h k =
      lookup-Reordered xs zs r h k ∙ lookup-Reordered zs ys s (Reordered-are_distinct xs zs r h) k
