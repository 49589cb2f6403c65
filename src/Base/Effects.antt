-- ===== src/Base/Effects.antt =====
-- Calls that change a state, whatever they answer: a panic and an error leave the state behind too.
use mathlib.Core.Path.{◌≡◌, refl}
use mathlib.Core.List.{List, [], ◌∷◌}
use checkc.Base.Outcomes.{Outcome, panic, err, ok, Error}

abbrev pub Effect : Type 0 → Type 0 → Type 0
Effect S A = S → Outcome A × S

module _ {S : Type 0} where
  abbrev pub lift : {A : Type 0} → Outcome A → Effect S A
  lift result s = (result, s)

  abbrev pub pure : {A : Type 0} → A → Effect S A
  pure value = lift (ok value)

  abbrev pub fail : {A : Type 0} → Error → Effect S A
  fail error = lift (err error)

  -- What follows a call, by its result.
  abbrev pub continued : {A B : Type 0} → (A → Effect S B) → Outcome A → Effect S B
  continued next panic s = (panic, s)
  continued next (err error) s = (err error, s)
  continued next (ok value) s = next value s

  infixl 5 ◌>>=◌ ◌>>◌
  abbrev pub ◌>>=◌ : {A B : Type 0} → Effect S A → (A → Effect S B) → Effect S B
  ◌>>=◌ call next s = let result = call s in continued next result.0 result.1

  abbrev pub ◌>>◌ : {B : Type 0} → Effect S (Unit {0}) → Effect S B → Effect S B
  call >> next = call >>= λ _. next

  -- A change of the state that cannot fail.
  abbrev pub modify : (S → S) → Effect S (Unit {0})
  modify change s = (ok tt, change s)

  -- An effect over a list, in order, up to the first failure.
  unfoldable pub traverse_effect : {A B : Type 0} → (A → Effect S B) → List A → Effect S (List B)
  traverse_effect f [] = pure []
  traverse_effect f (x ∷ xs) = do y ← f x; ys ← traverse_effect f xs; pure (y ∷ ys)

  -- A predicate on states that a call keeps, whatever it answers.
  abbrev pub Keeps : {A : Type 0} → (S → Type 0) → Effect S A → Type 0
  Keeps P call = (s : S) → P s → P (call s).1

  continued-Keeps :
      {A B : Type 0} (P : S → Type 0) (next : A → Effect S B)
      → ((a : A) → Keeps P (next a))
      → (r : Outcome A) (s : S) → P s
      → P (continued next r s).1
  continued-Keeps P next h panic s k = k
  continued-Keeps P next h (err error) s k = k
  continued-Keeps P next h (ok value) s k = h value s k

  pub >>=-Keeps :
      {A B : Type 0} (P : S → Type 0) (call : Effect S A) (next : A → Effect S B)
      → Keeps P call
      → ((a : A) → Keeps P (next a))
      → Keeps P (call >>= next)
  >>=-Keeps P call next h k s p = continued-Keeps P next k (call s).0 (call s).1 (h s p)

  pub traverse_effect-Keeps :
      {A B : Type 0} (P : S → Type 0) (f : A → Effect S B)
      → ((a : A) → Keeps P (f a))
      → (xs : List A) → Keeps P (traverse_effect f xs)
  unfolding traverse_effect
  traverse_effect-Keeps P f h [] s p = p
  traverse_effect-Keeps P f h (x ∷ xs) s p =
      >>=-Keeps P (f x) _ (h x)
        (λ y. >>=-Keeps P (traverse_effect f xs) _ (traverse_effect-Keeps P f h xs) λ ys t q. q) s p

  -- The parts of a sequence that returned.
  pub >>=-eq-ok :
      {A B : Type 0} (call : Effect S A) (next : A → Effect S B) (s s' : S) {b : B}
      → (call >>= next) s ≡ (ok b, s')
      → (a : A) × (t : S) × (call s ≡ (ok a, t)) × (next a t ≡ (ok b, s'))
  >>=-eq-ok {A} {B} call next s s' {b} h = by_result (call s).0 (call s).1 refl h
    where
      by_result :
          (r : Outcome A) (t : S)
          → call s ≡ (r, t)
          → continued next r t ≡ (ok b, s')
          → (a : A) × (u : S) × (call s ≡ (ok a, u)) × (next a u ≡ (ok b, s'))
      by_result panic t e k = cc k
      by_result (err error) t e k = cc k
      by_result (ok a) t e k = (a, t, e, k)

  -- What holds of every value that a call returns.
  abbrev pub Ensures : {A : Type 0} → (A → Type 0) → Effect S A → Type 0
  Ensures {A} Q call = (s after : S) (a : A) → call s ≡ (ok a, after) → Q a

  -- Where the last call of a sequence ensures it, the sequence does.
  pub >>=-Ensures :
      {A B : Type 0} (Q : B → Type 0) (call : Effect S A) (next : A → Effect S B)
      → ((a : A) → Ensures Q (next a))
      → Ensures Q (call >>= next)
  >>=-Ensures Q call next h s after b e =
      let (a, t, _, k) = >>=-eq-ok call next s after e in h a t after b k
