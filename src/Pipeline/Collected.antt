-- ===== src/Pipeline/Collected.antt =====
-- What the assessment collects from categories that each name some namespaces and capabilities.
use mathlib.Core.List.{◌++◌}
use checkc.Base.{
  ◌≡◌, refl, ◌∙◌, ap, ◌&&◌, ◌||◌, some, List, [], ◌∷◌, map, arith, String, ok, traverse,
  traverse-map, unwrap,
}
use checkc.Base.Sets.{
  contains, extend, intersection, contains-append, contains-extend, contains-intersection,
}
use checkc.Proto.Ns.{NsType, ns_type_eq, ns_type_to_i32, ns_type_from_i32, ns_type_from_i32-to_i32}
use checkc.Proto.Caps.{
  Capability, capability_eq, capability_to_i32, capability_from_i32, capability_from_i32-to_i32,
}
use checkc.Proto.Evaluation.{Category, IsolationMechanisms}
use checkc.Evaluation.Categories.{category_namespaces, category_capabilities}
use checkc.Assessment.{
  NamespaceSets, types_of, add_namespaces, collect_namespaces, collect_capabilities,
}

-- What a category wants: some namespaces, and some capabilities that it reports.
abbrev pub Wants : Type 0
Wants = List NsType × List Capability

abbrev pub wanted_namespaces : List Wants → List NsType
wanted_namespaces [] = []
wanted_namespaces (wants ∷ plan) = wants.0 ++ wanted_namespaces plan

abbrev pub wanted_capabilities : List Wants → List Capability
wanted_capabilities [] = []
wanted_capabilities (wants ∷ plan) = wants.1 ++ wanted_capabilities plan

pub types_of-to_i32 : (types : List NsType) → types_of (map ns_type_to_i32 types) ≡ ok types
unfolding types_of
types_of-to_i32 types =
    traverse-map (λ n. unwrap (ns_type_from_i32 n)) ns_type_to_i32 (λ t. t)
      (λ t. rw (ns_type_from_i32-to_i32 t)) types
    ∙ ap ok (map-self types)
  where
    map-self : (xs : List NsType) → map (λ t. t) xs ≡ xs
    map-self [] = refl
    map-self (x ∷ xs) = ap (λ ys. x ∷ ys) (map-self xs)

capabilities_of-to_i32 :
    (caps : List Capability)
    → traverse (λ n. unwrap (capability_from_i32 n)) (map capability_to_i32 caps) ≡ ok caps
capabilities_of-to_i32 [] = refl
capabilities_of-to_i32 (c ∷ caps) = rw (capability_from_i32-to_i32 c, capabilities_of-to_i32 caps)

module _ (ns_set : List NsType) (capabilities : List Capability) where
  -- A category that wants these, evaluated for the active namespaces and the capabilities.
  pub record Reports (c : Category) (wants : Wants) : Type 0 where
    pub added :
        (sets : NamespaceSets)
        → add_namespaces c.isolation sets
          ≡ ok (extend sets.0 (intersection wants.0 ns_set), extend sets.1 wants.0)
    pub reported : c.capabilities ≡ category_capabilities wants.1 capabilities

  abbrev pub Report : List (String × Category) → List Wants → Type 0
  Report [] [] = Unit
  Report ((_, c) ∷ categories) (wants ∷ plan) = Reports c wants × Report categories plan
  Report [] (_ ∷ _) = ⊥
  Report (_ ∷ _) [] = ⊥

  -- A category whose isolation holds the namespaces that it wants.
  pub added-namespaces :
      (i : IsolationMechanisms) (wanted : List NsType)
      → i.namespaces ≡ some (category_namespaces wanted ns_set)
      → (sets : NamespaceSets)
      → add_namespaces (some i) sets
        ≡ ok (extend sets.0 (intersection wanted ns_set), extend sets.1 wanted)
  unfolding add_namespaces category_namespaces
  added-namespaces i wanted e (active, desired) =
      rw (e, types_of-to_i32 (intersection wanted ns_set), types_of-to_i32 wanted)

  -- The namespaces are collected without a panic: the wanted ones, and those of them that are active.
  pub collect_namespaces-Report :
      (categories : List (String × Category)) (plan : List Wants) (active desired : List NsType)
      → Report categories plan
      → (sets : NamespaceSets) × (collect_namespaces categories (active, desired) ≡ ok sets)
        × ((t : NsType)
            → contains sets.0 t
              ≡ (contains active t || (contains ns_set t && contains (wanted_namespaces plan) t)))
        × ((t : NsType)
            → contains sets.1 t ≡ (contains desired t || contains (wanted_namespaces plan) t))
  unfolding collect_namespaces contains
  collect_namespaces-Report [] [] active desired h =
      ((active, desired), refl, λ t. ground arith, λ t. ground arith)
  collect_namespaces-Report [] (_ ∷ _) active desired h = absurd h
  collect_namespaces-Report (_ ∷ _) [] active desired h = absurd h
  collect_namespaces-Report ((_, c) ∷ categories) (wants ∷ plan) active desired (r, h) =
      let (sets, returns, a, d) =
        collect_namespaces-Report categories plan (extend active (intersection wants.0 ns_set))
          (extend desired wants.0) h in
      (
        sets,
        rw (r.added (active, desired)) returns,
        λ t. ground (
          arith,
          a t,
          contains-extend active (intersection wants.0 ns_set) t,
          contains-intersection wants.0 ns_set t,
          contains-append wants.0 (wanted_namespaces plan) t,
        ),
        λ t. ground (
          arith,
          d t,
          contains-extend desired wants.0 t,
          contains-append wants.0 (wanted_namespaces plan) t,
        ),
      )

  -- The capabilities are collected without a panic: those that a category wants.
  pub collect_capabilities-Report :
      (categories : List (String × Category)) (plan : List Wants)
      → Report categories plan
      → (caps : List Capability) × (collect_capabilities categories ≡ ok caps)
        × ((c : Capability)
            → contains caps c ≡ (contains capabilities c && contains (wanted_capabilities plan) c))
  unfolding collect_capabilities contains category_capabilities
  collect_capabilities-Report [] [] h = ([], refl, λ c. ground arith)
  collect_capabilities-Report [] (_ ∷ _) h = absurd h
  collect_capabilities-Report (_ ∷ _) [] h = absurd h
  collect_capabilities-Report ((_, c) ∷ categories) (wants ∷ plan) (r, h) =
      let (caps, returns, m) = collect_capabilities-Report categories plan h in
      (
        intersection wants.1 capabilities ++ caps,
        rw (r.reported, capabilities_of-to_i32 (intersection wants.1 capabilities), returns),
        λ x. ground (
          arith,
          m x,
          contains-append (intersection wants.1 capabilities) caps x,
          contains-intersection wants.1 capabilities x,
          contains-append wants.1 (wanted_capabilities plan) x,
        ),
      )
