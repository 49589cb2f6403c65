-- ===== src/Base/Sets.antt =====
-- `HashSet`, as a list in the order in which it is iterated. That order is unspecified in Rust:
-- theorems about a set speak of `contains`.
use mathlib.Core.Path.{◌≡◌, refl}
use mathlib.Core.Bool.{Bool, true, false, not, ◌&&◌, ◌||◌}
use mathlib.Core.List.{List, [], ◌∷◌, ◌++◌}
use native.Mathlib.Omega.{arith}
use checkc.Base.Tests.{if◌then◌else◌}
use checkc.Base.Equality.{Eq, ◌==◌}

-- `Iterator::filter`.
unfoldable pub filter {ℓ} : {A : Type ℓ} → (A → Bool) → List A → List A
filter p [] = []
filter p (x ∷ xs) = let rest = filter p xs in if p x then x ∷ rest else rest

-- `Iterator::all`, `Iterator::any`.
unfoldable pub all {ℓ} : {A : Type ℓ} → (A → Bool) → List A → Bool
all p [] = true
all p (x ∷ xs) = p x && all p xs

unfoldable pub any {ℓ} : {A : Type ℓ} → (A → Bool) → List A → Bool
any p [] = false
any p (x ∷ xs) = p x || any p xs

module _ {ℓ} {A : Type ℓ} ⦃e : Eq A⦄ where
  -- `HashSet::contains`, `Vec::contains`.
  unfoldable pub contains : List A → A → Bool
  contains [] x = false
  contains (y ∷ ys) x = x == y || contains ys x

  -- `HashSet::insert`.
  unfoldable pub insert : A → List A → List A
  insert x set = if contains set x then set else x ∷ set

  -- `HashSet::from`, `extend` and `collect`.
  unfoldable pub extend : List A → List A → List A
  extend xs [] = xs
  extend xs (y ∷ ys) = extend (insert y xs) ys

  -- `HashSet::intersection`: the members of the first set that the second has.
  unfoldable pub intersection : List A → List A → List A
  intersection xs ys = filter (contains ys) xs

  -- `HashSet::difference`.
  unfoldable pub difference : List A → List A → List A
  difference xs ys = filter (λ x. not (contains ys x)) xs

  -- `HashSet::is_subset`.
  unfoldable pub is_subset : List A → List A → Bool
  is_subset xs ys = all (contains ys) xs

  pub contains-append :
      (xs ys : List A) (a : A) → contains (xs ++ ys) a ≡ (contains xs a || contains ys a)
  unfolding contains
  contains-append [] ys a = refl
  contains-append (x ∷ xs) ys a = ground (arith, contains-append xs ys a)

  pub contains-filter :
      (p : A → Bool) (xs : List A) (a : A) → contains (filter p xs) a ≡ (p a && contains xs a)
  unfolding contains filter
  contains-filter p [] a = ground arith
  contains-filter p (x ∷ xs) a = ground (arith, contains-filter p xs a, e.beq_iff a x)

  pub contains-insert :
      (x : A) (xs : List A) (a : A) → contains (insert x xs) a ≡ (a == x || contains xs a)
  unfolding contains insert
  contains-insert x xs a = ground (arith, e.beq_iff a x)

  pub contains-extend :
      (xs ys : List A) (a : A) → contains (extend xs ys) a ≡ (contains xs a || contains ys a)
  unfolding contains extend
  contains-extend xs [] a = ground arith
  contains-extend xs (y ∷ ys) a =
      ground (arith, contains-extend (insert y xs) ys a, contains-insert y xs a)

  pub contains-intersection :
      (xs ys : List A) (a : A) → contains (intersection xs ys) a ≡ (contains ys a && contains xs a)
  unfolding intersection
  contains-intersection xs ys a = contains-filter (contains ys) xs a

  pub contains-difference :
      (xs ys : List A) (a : A)
      → contains (difference xs ys) a ≡ (not (contains ys a) && contains xs a)
  unfolding difference
  contains-difference xs ys a = contains-filter (λ x. not (contains ys x)) xs a

  -- A subset test that passed, at one member.
  pub is_subset-contains :
      (xs ys : List A) (a : A)
      → is_subset xs ys ≡ true
      → contains xs a ≡ true
      → contains ys a ≡ true
  unfolding is_subset all contains
  is_subset-contains [] ys a h m = cc
  is_subset-contains (x ∷ xs) ys a h m = ground (arith, is_subset-contains xs ys a, e.beq_iff a x)
