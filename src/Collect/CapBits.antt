-- ===== src/Collect/CapBits.antt =====
-- Which capabilities `parse_proc_status` (src/c_config/caps.rs) reads from a mask.
use checkc.Base.{
  ℕ, zero, suc, ◌+◌, ◌-◌, ◌≤◌, ◌<◌, ◌≡◌, refl, ap, Bool, true, false, ◌&&◌, ◌||◌, Option, none,
  some, List, arith, ok, leb, ltb, ◌==◌, nat_eq, Bool-cases, inl, inr,
}
use checkc.Base.Int.{pos}
use checkc.Base.Sets.{contains, insert, any, all, contains-insert}
use checkc.Proto.Caps.{
  Capability, capability_eq, capability_beq, capability_from_i32, capability_number,
}
use checkc.Config.{range_from}
use checkc.Collect.Caps.{is_set, decode}

all-range_from :
    (p : ℕ → Bool) (n s i : ℕ) → all p (range_from n s) ≡ true → s ≤ i → i < s + n → p i ≡ true
unfolding all range_from
all-range_from p zero s i h low high = absurd (omega arith)
all-range_from p (suc n) s i h low high = elim (Bool-cases (i == s)) [
  | inl e ↦ let same : p i ≡ p s = ap p (ground arith) in ground (arith, same)
  | inr e ↦ all-range_from p n (s + 1) i (ground arith) (ground arith) (ground arith)
]

-- An option that holds a capability of this number.
abbrev has_number : ℕ → Option Capability → Bool
has_number k none = false
has_number k (some c) = capability_number c == k

has_number-some :
    (k : ℕ) (o : Option Capability)
    → has_number k o ≡ true
    → (c : Capability) × (o ≡ some c) × (capability_number c ≡ k)
has_number-some k none h = absurd (cc h)
has_number-some k (some c) h = (c, refl, ground arith)

read_all :
    all (λ i. has_number (i + 1) (capability_from_i32 (pos (i + 1)))) (range_from 41 0) ≡ true
unfolding all range_from capability_from_i32 capability_number
read_all = refl

-- The index of a bit reads as the capability with the next number.
read_number :
    (i : ℕ)
    → i ≤ 40
    → (c : Capability) × (capability_from_i32 (pos (i + 1)) ≡ some c)
      × (capability_number c ≡ i + 1)
read_number i h = has_number-some (i + 1) (capability_from_i32 (pos (i + 1))) (
    all-range_from (λ i. has_number (i + 1) (capability_from_i32 (pos (i + 1)))) 41 0 i read_all
      (omega arith) (omega arith))

-- A bit of the list that is set is the capability's.
unfoldable pub any_bit : ℕ → Capability → List ℕ → Bool
any_bit mask c is = any (λ i. capability_number c == i + 1 && is_set mask i) is

pub any_bit-range :
    (mask : ℕ) (c : Capability) (n s : ℕ)
    → any_bit mask c (range_from n s) ≡ (
        ltb s (capability_number c)
        && leb (capability_number c) (s + n)
        && is_set mask (capability_number c - 1))
unfolding any_bit any range_from
any_bit-range mask c zero s = ground arith
any_bit-range mask c (suc n) s = elim (Bool-cases (capability_number c == s + 1)) [
  | inl e ↦
      let same : is_set mask s ≡ is_set mask (capability_number c - 1) =
        ap (is_set mask) (ground arith) in
      ground (arith, same, any_bit-range mask c n (s + 1))
  | inr e ↦ ground (arith, any_bit-range mask c n (s + 1))
]

same_number : (a b : Capability) → (a == b) ≡ (capability_number a == capability_number b)
unfolding capability_beq
same_number a b = refl

-- Decoding a range of bits returns, and adds the capabilities whose bits are set.
pub decode-range :
    (mask n s : ℕ) (caps : List Capability)
    → s + n ≤ 41
    → (found : List Capability) × (decode mask (range_from n s) caps ≡ ok found)
      × ((c : Capability) → contains found c ≡ (contains caps c || any_bit mask c (range_from n s)))
unfolding decode range_from any_bit any
decode-range mask zero s caps h = (caps, refl, λ c. ground arith)
decode-range mask (suc n) s caps h = elim (Bool-cases (is_set mask s)) [
  | inr e ↦
      let (found, r, m) = decode-range mask n (s + 1) caps (omega arith) in
      (found, rw e r, λ c. ground (arith, m c))
  | inl e ↦
      let (cap, reads, number) = read_number s (omega arith) in
      let (found, r, m) = decode-range mask n (s + 1) (insert cap caps) (omega arith) in
      (
        found,
        rw (e, reads) r,
        λ c. ground (arith, m c, contains-insert cap caps c, same_number c cap),
      )
]
