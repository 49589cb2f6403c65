-- ===== src/Base/Outcomes.antt =====
-- What a call may do: return, return the `Error` of lib.rs, or panic (a failed `unwrap`, `expect`
-- or `assert`). The backtraces in the errors are diagnostics and are left out; an operating system
-- error is its number.
use Prim.Native.Nat.{ℕ}
use Prim.Native.String.{String}
use mathlib.Core.Path.{◌≡◌, refl}
use mathlib.Core.Option.{Option, none, some}
use mathlib.Core.List.{List, [], ◌∷◌, map}

pub data Error : Type 0 where
  value_error : String → String → String → Error
  conversion_failed : String → Error
  my_io_error : String → ℕ → Error
  syscall_error : String → ℕ → Error
  io_error : ℕ → Error
  ioctl_failed : ℕ → Error
  nix_error : ℕ → Error
  cgroup_error : Error
  device_error : String → Option ℕ → Error
  -- An error of serde_json, which src/main.rs passes on through anyhow.
  json_error : String → Error

pub data Outcome {ℓ} (A : Type ℓ) : Type ℓ where
  panic : Outcome A
  err : Error → Outcome A
  ok : A → Outcome A

infixl 5 ◌>>=◌
abbrev pub ◌>>=◌ {ℓ κ} : {A : Type ℓ} {B : Type κ} → Outcome A → (A → Outcome B) → Outcome B
panic >>= next = panic
err error >>= next = err error
ok value >>= next = next value

-- `Option::unwrap` and `Option::expect`.
abbrev pub unwrap {ℓ} : {A : Type ℓ} → Option A → Outcome A
unwrap none = panic
unwrap (some a) = ok a

-- A fallible function over a list, in order, up to the first failure.
abbrev pub traverse {ℓ κ} : {A : Type ℓ} {B : Type κ} → (A → Outcome B) → List A → Outcome (List B)
traverse f [] = ok []
traverse f (x ∷ xs) = f x >>= λ y. traverse f xs >>= λ ys. ok (y ∷ ys)

-- A call that returns a value.
abbrev pub Returns {ℓ} : {A : Type ℓ} → Outcome A → Type ℓ
Returns {A = A} r = (a : A) × (r ≡ ok a)

-- The parts of a bind that returned.
pub >>=-eq-ok {ℓ κ} :
    {A : Type ℓ} {B : Type κ} (call : Outcome A) (next : A → Outcome B) {result : B}
    → (call >>= next) ≡ ok result
    → (value : A) × (call ≡ ok value) × (next value ≡ ok result)
>>=-eq-ok panic next returned = cc
>>=-eq-ok (err error) next returned = cc
>>=-eq-ok (ok value) next returned = (value, refl, returned)

pub unwrap-eq-ok {ℓ} : {A : Type ℓ} (o : Option A) {a : A} → unwrap o ≡ ok a → o ≡ some a
unwrap-eq-ok none h = cc
unwrap-eq-ok (some b) h = cc

-- A traversal in which every call returns.
pub traverse-map {ℓ κ μ} :
    {A : Type ℓ} {B : Type κ} {C : Type μ} (f : B → Outcome C) (g : A → B) (h : A → C)
    → ((a : A) → f (g a) ≡ ok (h a))
    → (xs : List A) → traverse f (map g xs) ≡ ok (map h xs)
traverse-map f g h each [] = refl
traverse-map f g h each (x ∷ xs) = rw (each x, traverse-map f g h each xs)

-- The same, for a goal: what is left to show, given the parts.
pub >>=-elim {ℓ κ μ} :
    {A : Type ℓ} {B : Type κ} {C : Type μ} (m : Outcome A) (f : A → Outcome B) {b : B}
    → (m >>= f) ≡ ok b
    → ((a : A) → m ≡ ok a → f a ≡ ok b → C)
    → C
>>=-elim m f h k = let (a, p, q) = >>=-eq-ok m f h in k a p q

-- The parts of a traversal that returned.
pub traverse-elim {ℓ κ μ} :
    {A : Type ℓ} {B : Type κ} {C : Type μ} (f : A → Outcome B) (x : A) (xs : List A) {ys : List B}
    → traverse f (x ∷ xs) ≡ ok ys
    → ((z : B) (zs : List B) → f x ≡ ok z → traverse f xs ≡ ok zs → z ∷ zs ≡ ys → C)
    → C
traverse-elim f x xs h k =
    >>=-elim (f x) _ h λ z p h1. >>=-elim (traverse f xs) _ h1 λ zs q h2. k z zs p q (cc h2)
