-- ===== src/Collect/Numerals.antt =====
-- Decimal numbers, printed and parsed as a `u32` (`IdMapping::try_from` of src/c_config/user_ns.rs).
use Prim.Native.Char.{Char, code}
use text.Mathlib.TextLemmas.{nil-append, cons-append}
use checkc.Base.{
  ℕ, zero, suc, ◌+◌, ◌*◌, ◌/◌, ◌%◌, ◌^◌, ◌≤◌, ◌<◌, String, ◌≡◌, refl, ◌∙◌, sym, ap, Bool, true,
  false, ◌&&◌, Outcome, ok, err, panic, ◌>>=◌, >>=-elim, arith, ltb, Bool-cases, inl, inr, nat_eq,
}
use checkc.Base.Text.{◌<>◌, show_digit, show_fuel, show_ℕ}
use checkc.Collect.Numbers.{is_digit, push_digit, parse_digits, parse_u32}

unfoldable pub all_digits : String → Bool
all_digits String.[] = true
all_digits (String.◌∷◌ c s) = is_digit (code c) && all_digits s

-- Digits, and at least one.
unfoldable pub is_numeral : String → Bool
unfolding all_digits
is_numeral String.[] = false
is_numeral (String.◌∷◌ c s) = is_digit (code c) && all_digits s

digit_char : (d : ℕ) → d < 10 → (c : Char) × (show_digit d ≡ String.◌∷◌ c "") × (code c ≡ 48 + d)
unfolding show_digit
digit_char zero h = (_, refl, refl)
digit_char (suc zero) h = (_, refl, refl)
digit_char (suc (suc zero)) h = (_, refl, refl)
digit_char (suc (suc (suc zero))) h = (_, refl, refl)
digit_char (suc (suc (suc (suc zero)))) h = (_, refl, refl)
digit_char (suc (suc (suc (suc (suc zero))))) h = (_, refl, refl)
digit_char (suc (suc (suc (suc (suc (suc zero)))))) h = (_, refl, refl)
digit_char (suc (suc (suc (suc (suc (suc (suc zero))))))) h = (_, refl, refl)
digit_char (suc (suc (suc (suc (suc (suc (suc (suc zero)))))))) h = (_, refl, refl)
digit_char (suc (suc (suc (suc (suc (suc (suc (suc (suc zero))))))))) h = (_, refl, refl)
digit_char (suc (suc (suc (suc (suc (suc (suc (suc (suc (suc d)))))))))) h = absurd (omega arith)

all_digits-append : (s t : String) → all_digits (s <> t) ≡ (all_digits s && all_digits t)
unfolding all_digits
all_digits-append String.[] t = ap all_digits (nil-append t)
all_digits-append (String.◌∷◌ c s) t =
    ap all_digits (cons-append c s t)
    ∙ (let step : (is_digit (code c) && all_digits (s <> t))
            ≡ ((is_digit (code c) && all_digits s) && all_digits t) =
          ground (arith, all_digits-append s t) in
        step)

is_numeral-append :
    (s t : String) → is_numeral s ≡ true → all_digits t ≡ true → is_numeral (s <> t) ≡ true
unfolding is_numeral
is_numeral-append String.[] t h k = absurd (cc h)
is_numeral-append (String.◌∷◌ c s) t h k =
    let joined : (is_digit (code c) && all_digits (s <> t)) ≡ true =
      ground (arith, h, k, all_digits-append s t) in
    ap is_numeral (cons-append c s t) ∙ joined

pub is_numeral-all_digits : (s : String) → is_numeral s ≡ true → all_digits s ≡ true
unfolding is_numeral all_digits
is_numeral-all_digits String.[] h = refl
is_numeral-all_digits (String.◌∷◌ c s) h = h

is_numeral-show_digit : (d : ℕ) → d < 10 → is_numeral (show_digit d) ≡ true
unfolding is_numeral is_digit all_digits
is_numeral-show_digit d h =
    let (c, shown, value) = digit_char d h in rw (shown) (ground (arith, value))

is_numeral-show_fuel : (fuel n : ℕ) → is_numeral (show_fuel fuel n) ≡ true
unfolding show_fuel
is_numeral-show_fuel zero n = is_numeral-show_digit (n % 10) (omega arith)
is_numeral-show_fuel (suc fuel) n = elim (Bool-cases (ltb n 10)) [
  | inl y ↦ rw (y) (is_numeral-show_digit n (ground (arith, y)))
  | inr m ↦ rw (m) (
      is_numeral-append (show_fuel fuel (n / 10)) (show_digit (n % 10))
        (is_numeral-show_fuel fuel (n / 10))
        (is_numeral-all_digits (show_digit (n % 10))
          (is_numeral-show_digit (n % 10) (omega arith))))
]

pub is_numeral-show : (n : ℕ) → is_numeral (show_ℕ n) ≡ true
unfolding show_ℕ
is_numeral-show n = is_numeral-show_fuel n n

>>=-same :
    {A B : Type 0} (m : Outcome A) (f g : A → Outcome B) (h : B → Outcome B)
    → ((x : A) → f x ≡ (g x >>= h))
    → (m >>= f) ≡ (m >>= g >>= h)
>>=-same panic f g h each = refl
>>=-same (err e) f g h each = refl
>>=-same (ok x) f g h each = each x

parse_digits-append :
    (n : ℕ) (s t : String) → parse_digits n (s <> t) ≡ (parse_digits n s >>= λ m. parse_digits m t)
unfolding parse_digits
parse_digits-append n String.[] t = ap (parse_digits n) (nil-append t)
parse_digits-append n (String.◌∷◌ c s) t =
    ap (parse_digits n) (cons-append c s t)
    ∙ >>=-same (push_digit n c) _ _ _ (λ m. parse_digits-append m s t)

parse_digits-show_digit :
    (n d : ℕ) → d < 10 → n * 10 + d < 2 ^ 32 → parse_digits n (show_digit d) ≡ ok (n * 10 + d)
unfolding parse_digits push_digit is_digit
parse_digits-show_digit n d h k =
    let (c, shown, value) = digit_char d h in rw (shown, value) (ground (arith, h, k))

parse_digits-show_fuel :
    (fuel n : ℕ) → n ≤ fuel → n < 2 ^ 32 → parse_digits 0 (show_fuel fuel n) ≡ ok n
unfolding show_fuel
parse_digits-show_fuel zero n h k =
    parse_digits-show_digit 0 (n % 10) (omega arith) (omega arith) ∙ ap ok (omega arith)
parse_digits-show_fuel (suc fuel) n h k = elim (Bool-cases (ltb n 10)) [
  | inl y ↦
      rw (y)
        (parse_digits-show_digit 0 n (ground (arith, y)) (ground (arith, k)) ∙ ap ok (omega arith))
  | inr m ↦
      let ih = parse_digits-show_fuel fuel (n / 10) (ground (arith, h, m)) (omega arith) in
      let step = parse_digits-show_digit (n / 10) (n % 10) (omega arith) (omega arith) in
      rw (m, parse_digits-append 0 (show_fuel fuel (n / 10)) (show_digit (n % 10)), ih, step)
        (ap ok (omega arith))
]

>>=-ok : {A : Type 0} (m : Outcome A) → (m >>= λ x. ok x) ≡ m
>>=-ok panic = refl
>>=-ok (err e) = refl
>>=-ok (ok x) = refl

-- A numeral has no sign.
parse_u32-numeral : (s : String) → is_numeral s ≡ true → parse_u32 s ≡ parse_digits 0 s
unfolding parse_u32 is_numeral parse_digits is_digit
parse_u32-numeral String.[] h = absurd (cc h)
parse_u32-numeral (String.◌∷◌ c String.[]) h = sym (>>=-ok (push_digit 0 c))
parse_u32-numeral (String.◌∷◌ c (String.◌∷◌ d s)) h = ground (arith, h)

pub parse_u32-show : (n : ℕ) → n < 2 ^ 32 → parse_u32 (show_ℕ n) ≡ ok n
unfolding show_ℕ
parse_u32-show n h =
    parse_u32-numeral (show_ℕ n) (is_numeral-show n) ∙ parse_digits-show_fuel n n (omega arith) h

push_digit-lt : (n : ℕ) (c : Char) {m : ℕ} → push_digit n c ≡ ok m → m < 2 ^ 32
unfolding push_digit
push_digit-lt n c h = ground (arith, h)

parse_digits-lt : (n : ℕ) (s : String) {m : ℕ} → n < 2 ^ 32 → parse_digits n s ≡ ok m → m < 2 ^ 32
unfolding parse_digits
parse_digits-lt n String.[] h k = ground (arith, h, k)
parse_digits-lt n (String.◌∷◌ c s) h k =
    >>=-elim (push_digit n c) _ k λ m p q. parse_digits-lt m s (push_digit-lt n c p) q

-- A number that was parsed fits.
pub parse_u32-lt : (s : String) {m : ℕ} → is_numeral s ≡ true → parse_u32 s ≡ ok m → m < 2 ^ 32
parse_u32-lt s h k = parse_digits-lt 0 s (omega arith) (sym (parse_u32-numeral s h) ∙ k)
