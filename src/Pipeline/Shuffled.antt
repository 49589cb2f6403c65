-- ===== src/Pipeline/Shuffled.antt =====
-- The categories of an evaluation in any order (src/evaluation/mod.rs, src/assessment/mod.rs): what the
-- assessment collects from them has the same members.
use checkc.Base.{◌≡◌, refl, ◌∙◌, sym, ap, String, ◌&&◌, List, [], ◌∷◌, ◌++◌, arith, ok}
use checkc.Base.Reordered.{Reordered, same, skip, swap, both}
use checkc.Base.Sets.{contains, contains-append}
use checkc.Proto.Ns.{NsType, ns_type_eq}
use checkc.Proto.Caps.{Capability, capability_eq}
use checkc.Proto.Evaluation.{Category}
use checkc.Assessment.{NamespaceSets, collect_namespaces, collect_capabilities}
use checkc.Pipeline.Collected.{
  Wants, Report, wanted_namespaces, wanted_capabilities, collect_namespaces-Report,
  collect_capabilities-Report,
}

wanted_namespaces-Reordered :
    (xs ys : List Wants)
    → Reordered xs ys
    → (t : NsType) → contains (wanted_namespaces xs) t ≡ contains (wanted_namespaces ys) t
wanted_namespaces-Reordered xs ys (same _) t = refl
wanted_namespaces-Reordered xs ys (skip x us vs r) t = ground (
  arith,
  contains-append x.0 (wanted_namespaces us) t,
  contains-append x.0 (wanted_namespaces vs) t,
  wanted_namespaces-Reordered us vs r t,
)
wanted_namespaces-Reordered xs ys (swap x y us) t = ground (
  arith,
  contains-append x.0 (y.0 ++ wanted_namespaces us) t,
  contains-append y.0 (wanted_namespaces us) t,
  contains-append y.0 (x.0 ++ wanted_namespaces us) t,
  contains-append x.0 (wanted_namespaces us) t,
)
wanted_namespaces-Reordered xs ys (both _ zs _ r s) t =
    wanted_namespaces-Reordered xs zs r t ∙ wanted_namespaces-Reordered zs ys s t

wanted_capabilities-Reordered :
    (xs ys : List Wants)
    → Reordered xs ys
    → (c : Capability) → contains (wanted_capabilities xs) c ≡ contains (wanted_capabilities ys) c
wanted_capabilities-Reordered xs ys (same _) t = refl
wanted_capabilities-Reordered xs ys (skip x us vs r) t = ground (
  arith,
  contains-append x.1 (wanted_capabilities us) t,
  contains-append x.1 (wanted_capabilities vs) t,
  wanted_capabilities-Reordered us vs r t,
)
wanted_capabilities-Reordered xs ys (swap x y us) t = ground (
  arith,
  contains-append x.1 (y.1 ++ wanted_capabilities us) t,
  contains-append y.1 (wanted_capabilities us) t,
  contains-append y.1 (x.1 ++ wanted_capabilities us) t,
  contains-append x.1 (wanted_capabilities us) t,
)
wanted_capabilities-Reordered xs ys (both _ zs _ r s) t =
    wanted_capabilities-Reordered xs zs r t ∙ wanted_capabilities-Reordered zs ys s t

module _ (ns_set : List NsType) (capabilities : List Capability) where
  -- The report of a plan, for the same plan in another order.
  pub Report-Reordered :
      (xs ys : List (String × Category)) (plan : List Wants)
      → Reordered xs ys
      → Report ns_set capabilities xs plan
      → (other : List Wants) × Reordered plan other × Report ns_set capabilities ys other
  Report-Reordered xs ys plan (same _) h = (plan, same plan, h)
  Report-Reordered xs ys [] (skip x us vs r) h = absurd h
  Report-Reordered xs ys (w ∷ plan) (skip x us vs r) (k, h) =
      let (other, moved, reports) = Report-Reordered us vs plan r h in
      (w ∷ other, skip w plan other moved, (k, reports))
  Report-Reordered xs ys [] (swap x y us) h = absurd h
  Report-Reordered xs ys (w ∷ []) (swap x y us) h = absurd h.1
  Report-Reordered xs ys (w ∷ u ∷ plan) (swap x y us) h =
      (u ∷ w ∷ plan, swap w u plan, (h.1.0, (h.0, h.1.1)))
  Report-Reordered xs ys plan (both _ zs _ r s) h =
      let (other, moved, reports) = Report-Reordered xs zs plan r h in
      let (last, moved', reports') = Report-Reordered zs ys other s reports in
      (last, both plan other last moved moved', reports')

  -- What is collected from the categories in any order, in terms of the plan.
  pub collect_namespaces-Reordered :
      (xs ys : List (String × Category)) (plan : List Wants)
      → Reordered xs ys
      → Report ns_set capabilities xs plan
      → (sets : NamespaceSets) × (collect_namespaces ys ([], []) ≡ ok sets)
        × ((t : NsType)
            → contains sets.0 t ≡ (contains ns_set t && contains (wanted_namespaces plan) t))
        × ((t : NsType) → contains sets.1 t ≡ contains (wanted_namespaces plan) t)
  unfolding contains
  collect_namespaces-Reordered xs ys plan r h =
      let (other, moved, reports) = Report-Reordered xs ys plan r h in
      let (sets, spaces, active, desired) =
        collect_namespaces-Report ns_set capabilities ys other [] [] reports in
      (
        sets,
        spaces,
        λ t.
            active t
            ∙ ap (λ b. contains ns_set t && b)
                (sym (wanted_namespaces-Reordered plan other moved t)),
        λ t. desired t ∙ sym (wanted_namespaces-Reordered plan other moved t),
      )

  pub collect_capabilities-Reordered :
      (xs ys : List (String × Category)) (plan : List Wants)
      → Reordered xs ys
      → Report ns_set capabilities xs plan
      → (caps : List Capability) × (collect_capabilities ys ≡ ok caps)
        × ((c : Capability)
            → contains caps c ≡ (contains capabilities c && contains (wanted_capabilities plan) c))
  collect_capabilities-Reordered xs ys plan r h =
      let (other, moved, reports) = Report-Reordered xs ys plan r h in
      let (caps, collected, members) =
        collect_capabilities-Report ns_set capabilities ys other reports in
      (
        caps,
        collected,
        λ c.
            members c
            ∙ ap (λ b. contains capabilities c && b)
                (sym (wanted_capabilities-Reordered plan other moved c)),
      )
