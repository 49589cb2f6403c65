-- ===== src/Pipeline/Reported.antt =====
-- The capabilities that the categories of `EvalResult::from_config` (src/evaluation/mod.rs) report.
use mathlib.Core.Option.{some-injective}
use checkc.Base.{
  Eq, ◌≡◌, refl, ◌∙◌, sym, ap, ◌+◌, ℕ, String, Bool, true, false, not, ◌&&◌, Option, some, List, [],
  ◌∷◌, ◌++◌, map, arith, ok, ◌==◌, if◌then◌else◌, same_truth, Bool-cases, inl, inr,
}
use checkc.Base.Int.{ℤ, int_eq, int_beq_iff}
use checkc.Base.Sets.{contains, extend, filter, intersection, contains-extend}
use checkc.Proto.Ns.{NsType}
use checkc.Proto.Caps.{
  Capability, CapsConfig, capability_eq, capability_to_i32, capability_from_i32,
  capability_from_i32-to_i32, capability_beq_iff, cap_prm_values,
}
use checkc.Proto.Host.{Config}
use checkc.Proto.Evaluation.{Category, EvalResult}
use checkc.Evaluation.{from_config}
use checkc.Evaluation.Categories.{category_capabilities}
use checkc.Pipeline.Collected.{Wants, Report, wanted_capabilities}
use checkc.Base.Reordered.{Reordered, same, skip, swap, both}
use checkc.Pipeline.Shuffled.{Report-Reordered}
use checkc.Pipeline.Evaluated.{Rearranged, in_order, from_config-Rearranged}
use checkc.Pipeline.Plan.{plan, count, wanted_capabilities-count, Categories-Report}

-- All that the categories report, as the numbers that are sent.
unfoldable pub reported : List (String × Category) → List ℤ
reported [] = []
reported ((_, c) ∷ categories) = c.capabilities ++ reported categories

count-append :
    {A : Type 0} ⦃e : Eq A⦄ (c : A) (xs ys : List A) → count c (xs ++ ys) ≡ count c xs + count c ys
count-append c [] ys = omega arith
count-append c (x ∷ xs) ys = ground (arith, count-append c xs ys)

to_i32-injective : (c d : Capability) → capability_to_i32 c ≡ capability_to_i32 d → c ≡ d
to_i32-injective c d h =
    some-injective c d
      (sym (capability_from_i32-to_i32 c) ∙ ap capability_from_i32 h ∙ capability_from_i32-to_i32 d)

to_i32-beq : (c d : Capability) → (capability_to_i32 c == capability_to_i32 d) ≡ (c == d)
to_i32-beq c d =
    same_truth (capability_to_i32 c == capability_to_i32 d) (c == d)
      (λ h.
        (capability_beq_iff c d).1
          (to_i32-injective c d ((int_beq_iff (capability_to_i32 c) (capability_to_i32 d)).0 h)))
      (λ h.
        (int_beq_iff (capability_to_i32 c) (capability_to_i32 d)).1
          (ap capability_to_i32 ((capability_beq_iff c d).0 h)))

count-map :
    (c : Capability) (xs : List Capability)
    → count (capability_to_i32 c) (map capability_to_i32 xs) ≡ count c xs
count-map c [] = refl
count-map c (x ∷ xs) = rw (to_i32-beq c x, count-map c xs) refl

count-if :
    (c w : Capability) (b : Bool) (xs : List Capability)
    → count c (if b then w ∷ xs else xs) ≡ (if b && c == w then count c xs + 1 else count c xs)
count-if c w true xs = refl
count-if c w false xs = refl

-- Of those that a category wants, the given ones are left.
count-intersection :
    (c : Capability) (ws capabilities : List Capability)
    → count c (intersection ws capabilities) ≡ (if contains capabilities c then count c ws else 0)
unfolding intersection filter
count-intersection c [] capabilities = ground arith
count-intersection c (w ∷ ws) capabilities =
    count-if c w (contains capabilities w) (intersection ws capabilities)
    ∙ (elim (Bool-cases (c == w)) [
      | inl y ↦
          let same_member : contains capabilities w ≡ contains capabilities c =
            ap (contains capabilities) (sym ((capability_beq_iff c w).0 y)) in
          ground (arith, y, same_member, count-intersection c ws capabilities)
      | inr n ↦ ground (arith, n, count-intersection c ws capabilities)
    ])

module _ (ns_set : List NsType) (capabilities : List Capability) where
  Report-count :
      (categories : List (String × Category)) (wants : List Wants) (c : Capability)
      → Report ns_set capabilities categories wants
      → count (capability_to_i32 c) (reported categories)
        ≡ (if contains capabilities c then count c (wanted_capabilities wants) else 0)
  unfolding reported category_capabilities
  Report-count [] [] c h = ground arith
  Report-count [] (_ ∷ _) c h = absurd h
  Report-count (_ ∷ _) [] c h = absurd h
  Report-count ((_, k) ∷ categories) (w ∷ wants) c (r, h) =
      let number = capability_to_i32 c in
      let first : count number k.capabilities
          ≡ (if contains capabilities c then count c w.1 else 0) =
        ap (count number) r.reported
        ∙ count-map c (intersection w.1 capabilities)
        ∙ count-intersection c w.1 capabilities in
      ground (
        arith,
        first,
        Report-count categories wants c h,
        count-append number k.capabilities (reported categories),
        count-append c w.1 (wanted_capabilities wants),
      )

one_or_none :
    (a b p : Bool) {n m : ℕ}
    → a ≡ b
    → n ≡ (if a then m else 0)
    → m ≡ (if p then 0 else 1)
    → n ≡ (if b && not p then 1 else 0)
one_or_none a b p h k l = ground (arith, h, k, l)

wanted_capabilities-count-Reordered :
    (c : Capability) (xs ys : List Wants)
    → Reordered xs ys
    → count c (wanted_capabilities xs) ≡ count c (wanted_capabilities ys)
wanted_capabilities-count-Reordered c xs ys (same _) = refl
wanted_capabilities-count-Reordered c xs ys (skip x us vs r) = ground (
  arith,
  count-append c x.1 (wanted_capabilities us),
  count-append c x.1 (wanted_capabilities vs),
  wanted_capabilities-count-Reordered c us vs r,
)
wanted_capabilities-count-Reordered c xs ys (swap x y us) = ground (
  arith,
  count-append c x.1 (y.1 ++ wanted_capabilities us),
  count-append c y.1 (wanted_capabilities us),
  count-append c y.1 (x.1 ++ wanted_capabilities us),
  count-append c x.1 (wanted_capabilities us),
)
wanted_capabilities-count-Reordered c xs ys (both _ zs _ r s) =
    wanted_capabilities-count-Reordered c xs zs r ∙ wanted_capabilities-count-Reordered c zs ys s

-- Where the evaluation of a configuration returned, the eight categories together, in any order,
-- report each capability that the container is permitted, the placeholder excepted, exactly once, and
-- no other.
pub from_config-reported :
    (find_uuid : String → Option String) (config : Config) (root : String) {e : EvalResult}
    (moved : EvalResult) {caps_config : CapsConfig}
    → from_config find_uuid config root ≡ ok e
    → Rearranged e moved
    → config.caps_config ≡ some caps_config
    → (c : Capability)
    → count (capability_to_i32 c) (reported moved.categories) ≡ (
        if contains (cap_prm_values caps_config.cap_prm) c && not (c == Capability.unspecified)
        then 1
        else 0)
unfolding contains
from_config-reported find_uuid config root {e} moved {caps_config} h m has c =
    let v = from_config-Rearranged find_uuid config root moved h m in
    let k = v.categories in
    let values = cap_prm_values caps_config.cap_prm in
    let same_config : v.caps_config ≡ caps_config = cc (v.has_caps_config, has) in
    let capabilities = extend [] (cap_prm_values v.caps_config.cap_prm) in
    let members : contains capabilities c ≡ contains values c =
      contains-extend [] (cap_prm_values v.caps_config.cap_prm) c
      ∙ ap (λ (k : CapsConfig). contains (cap_prm_values k.cap_prm) c) same_config in
    let entered =
      in_order v.ns_set capabilities k.network k.filesystem k.devices k.resource_control
        k.access_control in
    let (other, turned, reports) =
      Report-Reordered v.ns_set capabilities entered moved.categories plan k.listed
        (Categories-Report v.ns_set capabilities find_uuid config root k) in
    let once =
      sym (wanted_capabilities-count-Reordered c plan other turned) ∙ wanted_capabilities-count c in
    let counted = Report-count v.ns_set capabilities moved.categories other c reports in
    one_or_none (contains capabilities c) (contains values c) (c == Capability.unspecified) members
      counted once
