-- ===== src/Collect/MapLine.antt =====
-- A line of `/proc/[pid]/uid_map` as the kernel prints it, and `IdMapping::try_from` of
-- src/c_config/user_ns.rs.
use Prim.Native.Char.{Char, char, code}
use mathlib.Core.Path.{subst}
use text.Mathlib.TextLemmas.{nil-append, cons-append, append-nil, append_assoc}
use text.Mathlib.TextEquality.{eq_iff}
use checkc.Base.{
  ℕ, zero, suc, ◌^◌, ◌<◌, String, ◌≡◌, refl, ◌∙◌, sym, ap, true, false, not, ◌↔◌, List, [], ◌∷◌, ok,
  >>=-eq-ok, arith, ◌==◌, nat_eq, string_eq, Bool-cases, inl, inr,
}
use checkc.Base.Sets.{filter}
use checkc.Base.Paths.{prepend}
use checkc.Base.Text.{◌<>◌, show_ℕ}
use checkc.Proto.Host.{IdMapping}
use checkc.Collect.Numbers.{is_ascii_whitespace, is_digit, pieces, words, tabs_to_spaces, parse_u32}
use checkc.Collect.UserNs.{mapping_of_words, mapping_try_from}
use checkc.Collect.Numerals.{
  all_digits, is_numeral, is_numeral-all_digits, is_numeral-show, parse_u32-show, parse_u32-lt,
}

-- A number of spaces.
unfoldable pub spaces : ℕ → String
spaces zero = ""
spaces (suc n) = " " <> spaces n

-- Three numbers, each behind padding, and at least one space between two.
unfoldable pub id_map_line : ℕ → ℕ → ℕ → IdMapping → String
unfolding spaces
id_map_line a b c m =
    spaces a
    <> show_ℕ m.current
    <> spaces (suc b)
    <> show_ℕ m.parent
    <> spaces (suc c)
    <> show_ℕ m.range

digit-no_space : (c : ℕ) → is_digit c ≡ true → is_ascii_whitespace c ≡ false
unfolding is_digit is_ascii_whitespace
digit-no_space c h = ground (arith, h)

digit-no_tab : (c : ℕ) → is_digit c ≡ true → (c == 9) ≡ false
unfolding is_digit
digit-no_tab c h = ground (arith, h)

-- Digits in front of the first piece.
pieces-digits :
    (s t : String) (p : String) (ps : List String)
    → all_digits s ≡ true
    → pieces t ≡ p ∷ ps
    → pieces (s <> t) ≡ (s <> p) ∷ ps
unfolding pieces all_digits prepend is_ascii_whitespace is_digit
pieces-digits String.[] t p ps h k =
    ap pieces (nil-append t) ∙ k ∙ ap (λ x. x ∷ ps) (sym (nil-append p))
pieces-digits (String.◌∷◌ c s) t p ps h k =
    let ih = pieces-digits s t p ps (ground (arith, h)) k in
    ap pieces (cons-append c s t)
    ∙ rw (ih, digit-no_space (code c) (ground (arith, h)))
        (ap (λ x. x ∷ ps) (sym (cons-append c s p)))

pieces-space : (t : String) → pieces (" " <> t) ≡ "" ∷ pieces t
unfolding pieces is_ascii_whitespace
pieces-space t = ap pieces (cons-append _ "" t) ∙ ap (λ x. "" ∷ pieces x) (nil-append t)

words-space : (t : String) → words (" " <> t) ≡ words t
unfolding words filter
words-space t = ap (filter (λ w. not (w == ""))) (pieces-space t)

words-spaces : (n : ℕ) (t : String) → words (spaces n <> t) ≡ words t
unfolding spaces
words-spaces zero t = ap words (nil-append t)
words-spaces (suc n) t =
    ap words (append_assoc " " (spaces n) t) ∙ words-space (spaces n <> t) ∙ words-spaces n t

numeral-not_empty : (s : String) → is_numeral s ≡ true → (s == "") ≡ false
unfolding is_numeral
numeral-not_empty s h = elim (Bool-cases (s == "")) [
  | inl y ↦ absurd (cc (h, ap is_numeral ((eq_iff s "").0 y)))
  | inr n ↦ n
]

-- A numeral in front of a space, and at the end.
words-numeral : (s t : String) → is_numeral s ≡ true → words (s <> " " <> t) ≡ s ∷ words t
unfolding words filter
words-numeral s t h =
    rw
      (
        pieces-digits s (" " <> t) "" (pieces t) (is_numeral-all_digits s h) (pieces-space t),
        append-nil s,
        numeral-not_empty s h,
      )
      refl

words-after :
    (k : ℕ) (s t : String) → is_numeral s ≡ true → words (s <> spaces (suc k) <> t) ≡ s ∷ words t
unfolding spaces
words-after k s t h =
    ap (λ x. words (s <> x)) (append_assoc " " (spaces k) t)
    ∙ words-numeral s (spaces k <> t) h
    ∙ ap (λ x. s ∷ x) (words-spaces k t)

words-last : (s : String) → is_numeral s ≡ true → words s ≡ s ∷ []
unfolding words filter pieces
words-last s h =
    ap words (sym (append-nil s))
    ∙ rw
        (
          pieces-digits s "" "" [] (is_numeral-all_digits s h) refl,
          append-nil s,
          numeral-not_empty s h,
        )
        refl

-- The numbers of a line.
words-id_map_line :
    (a b c : ℕ) (m : IdMapping)
    → words (id_map_line a b c m) ≡ show_ℕ m.current ∷ show_ℕ m.parent ∷ show_ℕ m.range ∷ []
unfolding id_map_line spaces
words-id_map_line a b c m =
    let last = words-last (show_ℕ m.range) (is_numeral-show m.range) in
    let second = words-after c (show_ℕ m.parent) (show_ℕ m.range) (is_numeral-show m.parent) in
    let rest = show_ℕ m.parent <> spaces (suc c) <> show_ℕ m.range in
    let first = words-after b (show_ℕ m.current) rest (is_numeral-show m.current) in
    words-spaces a (show_ℕ m.current <> spaces (suc b) <> rest)
    ∙ first
    ∙ ap (λ x. show_ℕ m.current ∷ x) (second ∙ ap (λ x. show_ℕ m.parent ∷ x) last)

-- A text without tabs is left as it is.
tabs-digits : (s t : String) → all_digits s ≡ true → tabs_to_spaces (s <> t) ≡ s <> tabs_to_spaces t
unfolding tabs_to_spaces all_digits is_digit
tabs-digits String.[] t h = ap tabs_to_spaces (nil-append t) ∙ sym (nil-append (tabs_to_spaces t))
tabs-digits (String.◌∷◌ c s) t h =
    ap tabs_to_spaces (cons-append c s t)
    ∙ rw (tabs-digits s t (ground (arith, h)), digit-no_tab (code c) (ground (arith, h)))
        (sym (cons-append c s (tabs_to_spaces t)))

abbrev space : Char
space = char 32 tt

tabs-space : (t : String) → tabs_to_spaces (" " <> t) ≡ " " <> tabs_to_spaces t
unfolding tabs_to_spaces
tabs-space t =
    ap tabs_to_spaces (cons-append space "" t)
    ∙ ap (λ x. String.◌∷◌ space (tabs_to_spaces x)) (nil-append t)
    ∙ ap (String.◌∷◌ space) (sym (nil-append (tabs_to_spaces t)))
    ∙ sym (cons-append space "" (tabs_to_spaces t))

tabs-spaces : (n : ℕ) (t : String) → tabs_to_spaces (spaces n <> t) ≡ spaces n <> tabs_to_spaces t
unfolding spaces
tabs-spaces zero t = ap tabs_to_spaces (nil-append t) ∙ sym (nil-append (tabs_to_spaces t))
tabs-spaces (suc n) t =
    ap tabs_to_spaces (append_assoc " " (spaces n) t)
    ∙ tabs-space (spaces n <> t)
    ∙ ap (λ x. " " <> x) (tabs-spaces n t)
    ∙ sym (append_assoc " " (spaces n) (tabs_to_spaces t))

tabs-number : (n : ℕ) (t : String) → tabs_to_spaces (show_ℕ n <> t) ≡ show_ℕ n <> tabs_to_spaces t
tabs-number n t = tabs-digits (show_ℕ n) t (is_numeral-all_digits (show_ℕ n) (is_numeral-show n))

tabs-last : (n : ℕ) → tabs_to_spaces (show_ℕ n) ≡ show_ℕ n
unfolding tabs_to_spaces
tabs-last n =
    ap tabs_to_spaces (sym (append-nil (show_ℕ n))) ∙ tabs-number n "" ∙ append-nil (show_ℕ n)

tabs-id_map_line :
    (a b c : ℕ) (m : IdMapping) → tabs_to_spaces (id_map_line a b c m) ≡ id_map_line a b c m
unfolding id_map_line
tabs-id_map_line a b c m =
    let third =
      tabs-spaces (suc c) (show_ℕ m.range) ∙ ap (λ x. spaces (suc c) <> x) (tabs-last m.range) in
    let fourth = spaces (suc c) <> show_ℕ m.range in
    let second = tabs-number m.parent fourth ∙ ap (λ x. show_ℕ m.parent <> x) third in
    let rest = show_ℕ m.parent <> fourth in
    let gap = tabs-spaces (suc b) rest ∙ ap (λ x. spaces (suc b) <> x) second in
    tabs-spaces a (show_ℕ m.current <> spaces (suc b) <> rest)
    ∙ ap (λ x. spaces a <> x)
        (tabs-number m.current (spaces (suc b) <> rest) ∙ ap (λ x. show_ℕ m.current <> x) gap)

-- Each of the three numbers fits a `u32`.
abbrev pub Fits : IdMapping → Type 0
Fits m = (m.current < 2 ^ 32) × (m.parent < 2 ^ 32) × (m.range < 2 ^ 32)

mapping_of_words-show :
    (m : IdMapping)
    → Fits m
    → mapping_of_words (show_ℕ m.current ∷ show_ℕ m.parent ∷ show_ℕ m.range ∷ []) ≡ ok m
unfolding mapping_of_words
mapping_of_words-show m (h, k, l) =
    rw (parse_u32-show m.current h, parse_u32-show m.parent k, parse_u32-show m.range l) refl

mapping_of_words-Fits :
    (m n : IdMapping)
    → mapping_of_words (show_ℕ n.current ∷ show_ℕ n.parent ∷ show_ℕ n.range ∷ []) ≡ ok m
    → Fits m
unfolding mapping_of_words
mapping_of_words-Fits m n h =
    let (a, p, h1) = >>=-eq-ok (parse_u32 (show_ℕ n.current)) _ h in
    let (b, q, h2) = >>=-eq-ok (parse_u32 (show_ℕ n.parent)) _ h1 in
    let (c, r, h3) = >>=-eq-ok (parse_u32 (show_ℕ n.range)) _ h2 in
    subst Fits (cc h3) (
      parse_u32-lt (show_ℕ n.current) (is_numeral-show n.current) p,
      parse_u32-lt (show_ℕ n.parent) (is_numeral-show n.parent) q,
      parse_u32-lt (show_ℕ n.range) (is_numeral-show n.range) r,
    )

-- A mapping that is printed as a line, its three numbers padded with any number of spaces, is what
-- the line is parsed to exactly when each of the numbers fits a `u32`.
pub mapping_try_from-line :
    (a b c : ℕ) (m : IdMapping) → (mapping_try_from (id_map_line a b c m) ≡ ok m) ↔ Fits m
unfolding mapping_try_from
mapping_try_from-line a b c m =
    let read = ap words (tabs-id_map_line a b c m) ∙ words-id_map_line a b c m in
    (
      λ h. mapping_of_words-Fits m m (sym (ap mapping_of_words read) ∙ h),
      λ fits. ap mapping_of_words read ∙ mapping_of_words-show m fits,
    )
