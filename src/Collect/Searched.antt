-- ===== src/Collect/Searched.antt =====
-- The loops of src/c_config/device.rs over ranges of numbers: what is found for each number.

use checkc.Base.{
  or_intro, or_elim, ℕ, zero, suc, ◌+◌, ◌≤◌, ◌<◌, ◌≡◌, refl, ◌∙◌, sym, ap, true, List, [], ◌∷◌,
  ◌++◌, arith, inl, inr, ◌==◌, nat_eq, nat_beq_iff, Bool-cases,
}
use checkc.Base.Sets.{contains, contains-append}
use checkc.Config.{range_from}
use checkc.Proto.Device.{Device}
use checkc.Collect.Devices.{device_eq}
use checkc.Collect.Mknod.{}

-- The numbers of a range.
pub range_from-contains : (n a k : ℕ) → contains (range_from n a) k ≡ true → (a ≤ k) × (k < a + n)
unfolding range_from contains
range_from-contains zero a k h = absurd (cc h)
range_from-contains (suc n) a k h = elim (or_elim (k == a) (contains (range_from n (a + 1)) k) h) [
  | inl y ↦ let e = (nat_beq_iff k a).0 y in (omega arith, omega arith)
  | inr m ↦ let (l, u) = range_from-contains n (a + 1) k m in (omega arith, omega arith)
]

pub contains-range_from : (n a k : ℕ) → a ≤ k → k < a + n → contains (range_from n a) k ≡ true
unfolding range_from contains
contains-range_from zero a k l u = absurd (omega arith)
contains-range_from (suc n) a k l u = elim (Bool-cases (k == a)) [
  | inl y ↦ or_intro (k == a) (contains (range_from n (a + 1)) k) (inl y)
  | inr m ↦
      or_intro (k == a) (contains (range_from n (a + 1)) k)
        (inr (contains-range_from n (a + 1) k (ground (arith, m, l)) (omega (arith, u))))
]

-- What is found for each number of a list.
unfoldable pub flat_map : (ℕ → List Device) → List ℕ → List Device
flat_map f [] = []
flat_map f (n ∷ ns) = f n ++ flat_map f ns

pub flat_map-contains :
    (f : ℕ → List Device) (ns : List ℕ) (d : Device)
    → contains (flat_map f ns) d ≡ true
    → (n : ℕ) × (contains ns n ≡ true) × (contains (f n) d ≡ true)
unfolding flat_map contains
flat_map-contains f [] d h = absurd (cc h)
flat_map-contains f (n ∷ ns) d h =
    elim (or_elim (contains (f n) d) (contains (flat_map f ns) d)
      (sym (contains-append (f n) (flat_map f ns) d) ∙ h)) [
        | inl y ↦ (n, or_intro (n == n) (contains ns n) (inl ((nat_beq_iff n n).1 refl)), y)
        | inr m ↦
            let (k, l, u) = flat_map-contains f ns d m in
            (k, or_intro (k == n) (contains ns k) (inr l), u)
      ]

pub contains-flat_map :
    (f : ℕ → List Device) (ns : List ℕ) (d : Device) (n : ℕ)
    → contains ns n ≡ true
    → contains (f n) d ≡ true
    → contains (flat_map f ns) d ≡ true
unfolding flat_map contains
contains-flat_map f [] d n h m = absurd (cc h)
contains-flat_map f (k ∷ ns) d n h m =
    contains-append (f k) (flat_map f ns) d
    ∙ or_intro (contains (f k) d) (contains (flat_map f ns) d)
        (elim (or_elim (n == k) (contains ns n) h) [
          | inl y ↦ inl (ap (λ x. contains (f x) d) (sym ((nat_beq_iff n k).0 y)) ∙ m)
          | inr l ↦ inr (contains-flat_map f ns d n l m)
        ])
