-- ===== src/Collect/Join.antt =====
-- `join_ns_by_path` of src/lib.rs, with the descriptors that are open and the mount namespace.
use checkc.Base.{
  ℕ, ◌≡◌, refl, String, Bool, [], false, not, Option, none, some, List, ◌∷◌, Outcome, ok, err, ◌⊎◌,
  inl, inr, ◌==◌, nat_eq, syscall_error, arith, ap, sym, ◌∙◌, ◌&&◌,
}
use checkc.Base.Effects.{Effect, fail}
use checkc.Base.Maps
use checkc.Base.Sets.{filter, contains}
use checkc.Proto.Ns.{NsId}
use checkc.Collect.Context.{
  Context, ContextCalls, clone_newns, entered, closed, with_descriptor, HasDescriptor,
  entered-descriptors, closed-HasDescriptor, fresh-ne, with_descriptor-HasDescriptor,
  with_descriptor-HasDescriptor_self, closed-mount_ns, entered-mount_ns,
}

-- The end of the function. A failed close is reported under the name `open`.
unfoldable pub close_result : Option ℕ → Outcome (Unit {0})
close_result none = ok tt
close_result (some errno) = err (syscall_error "open" errno)

-- The descriptor is closed on both ways, with a result for each.
abbrev pub leave : ContextCalls → ℕ → (Option ℕ → Outcome (Unit {0})) → Effect Context (Unit {0})
leave calls fd result context =
    (result (calls.close fd context), closed (calls.close fd context) fd context)

-- What follows the call of `setns`, whether it failed.
unfoldable pub joined : ContextCalls → ℕ → ℕ → Option ℕ → Effect Context (Unit {0})
joined calls fd ns_type (some errno) = leave calls fd (λ _. err (syscall_error "setns" errno))
joined calls fd ns_type none = λ context. leave calls fd close_result (entered fd ns_type context)

unfoldable pub opened : ContextCalls → ℕ → ℕ ⊎ (ℕ × NsId) → Effect Context (Unit {0})
unfolding joined
opened calls ns_type (inl errno) = fail (syscall_error "open" errno)
opened calls ns_type (inr (fd, id)) = λ context.
    let held = with_descriptor fd id context in
    joined calls fd ns_type (calls.setns fd ns_type held) held

unfoldable pub join_ns_by_path : ContextCalls → String → ℕ → Effect Context (Unit {0})
unfolding opened
join_ns_by_path calls path ns_type context =
    opened calls ns_type (calls.open_ns path context) context

-- The descriptors that are open.
abbrev pub has_open : Context → ℕ → Bool
has_open context fd = contains (Maps.keys context.descriptors) fd

-- A file of a namespace gets a descriptor that is not open.
abbrev pub OpensFresh : ContextCalls → Type 0
OpensFresh calls =
    (path : String) (context : Context) (fd : ℕ) (id : NsId)
    → calls.open_ns path context ≡ inr (fd, id)
    → has_open context fd ≡ false

keys-filter :
    (fd x : ℕ) (descriptors : List (ℕ × NsId))
    → contains (Maps.keys (filter (λ (entry : ℕ × NsId). not (entry.0 == fd)) descriptors)) x
      ≡ (not (x == fd) && contains (Maps.keys descriptors) x)
unfolding contains filter
keys-filter fd x [] = ground arith
keys-filter fd x ((k, id) ∷ descriptors) = ground (arith, keys-filter fd x descriptors)

module _ (calls : ContextCalls) where
  -- The descriptor of the join is closed again, so what is open is what was.
  leave-has_open :
      (fd : ℕ) (id : NsId) (result : Option ℕ → Outcome (Unit {0})) (before held : Context)
      → held.descriptors ≡ (fd, id) ∷ before.descriptors
      → has_open before fd ≡ false
      → calls.close fd held ≡ none
      → (x : ℕ) → has_open (leave calls fd result held).1 x ≡ has_open before x
  unfolding closed contains
  leave-has_open fd id result before held e fresh closes x = ground (
    arith,
    keys-filter fd x held.descriptors,
    ap (λ (d : List (ℕ × NsId)). contains (Maps.keys d) x) e,
  )

  opened-has_open :
      (ns_type : ℕ) (o : ℕ ⊎ (ℕ × NsId)) (context : Context)
      → ((fd : ℕ) (id : NsId) → o ≡ inr (fd, id) → has_open context fd ≡ false)
      → ((fd : ℕ) (c : Context) → calls.close fd c ≡ none)
      → (x : ℕ) → has_open (opened calls ns_type o context).1 x ≡ has_open context x
  unfolding opened joined
  opened-has_open ns_type (inl errno) context fresh closes x = refl
  opened-has_open ns_type (inr (fd, id)) context fresh closes x =
      by_setns (calls.setns fd ns_type (with_descriptor fd id context))
    where
      by_setns :
          (o : Option ℕ)
          → has_open (joined calls fd ns_type o (with_descriptor fd id context)).1 x
            ≡ has_open context x
      by_setns none =
          leave-has_open fd id close_result context _
            (entered-descriptors fd ns_type (with_descriptor fd id context)) (fresh fd id refl)
            (closes fd _) x
      by_setns (some errno) =
          leave-has_open fd id (λ _. err (syscall_error "setns" errno)) context _ refl
            (fresh fd id refl) (closes fd _) x

  -- Whatever happens, another descriptor keeps its namespace.
  opened-HasDescriptor :
      (ns_type : ℕ) (o : ℕ ⊎ (ℕ × NsId)) (own : ℕ) (target : NsId) (context : Context)
      → ((fd : ℕ) (id : NsId) → o ≡ inr (fd, id) → has_open context fd ≡ false)
      → HasDescriptor own target context
      → HasDescriptor own target (opened calls ns_type o context).1
  unfolding opened joined
  opened-HasDescriptor ns_type (inl errno) own target context fresh kept = kept
  opened-HasDescriptor ns_type (inr (fd, id)) own target context fresh kept =
      by_setns (calls.setns fd ns_type (with_descriptor fd id context))
    where
      apart : (own == fd) ≡ false
      apart = fresh-ne own fd target context.descriptors (fresh fd id refl) kept

      still : HasDescriptor own target (with_descriptor fd id context)
      still = with_descriptor-HasDescriptor own fd target id context apart kept

      by_setns :
          (o : Option ℕ)
          → HasDescriptor own target (joined calls fd ns_type o (with_descriptor fd id context)).1
      by_setns none = closed-HasDescriptor _ own fd target _ apart (
          ap (Maps.lookup own) (entered-descriptors fd ns_type (with_descriptor fd id context))
          ∙ still)
      by_setns (some errno) = closed-HasDescriptor _ own fd target _ apart still

  -- Where the join of a mount namespace returned, its file was opened, and the process is in it.
  opened-mount_ns :
      (o : ℕ ⊎ (ℕ × NsId)) (context after : Context)
      → opened calls clone_newns o context ≡ (ok tt, after)
      → (fd : ℕ) × (id : NsId) × (o ≡ inr (fd, id)) × (after.mount_ns ≡ id)
  unfolding opened joined
  opened-mount_ns (inl errno) context after h = cc h
  opened-mount_ns (inr (fd, id)) context after h =
      by_setns (calls.setns fd clone_newns (with_descriptor fd id context)) h
    where
      by_setns :
          (o : Option ℕ)
          → joined calls fd clone_newns o (with_descriptor fd id context) ≡ (ok tt, after)
          → (other : ℕ) × (own : NsId) × (◌≡◌ {A = ℕ ⊎ (ℕ × NsId)}
              (inr (fd, id))
              (inr (other, own)))
            × (after.mount_ns ≡ own)
      by_setns none k = (
        fd,
        id,
        refl,
        ap (λ (r : Outcome (Unit {0}) × Context). r.1.mount_ns) (sym k)
            ∙ closed-mount_ns _ fd _
            ∙ ap (λ (c : Context). c.mount_ns)
                (entered-mount_ns fd id _ (with_descriptor-HasDescriptor_self fd id context)),
      )
      by_setns (some errno) k = cc k

  pub join_ns_by_path-HasDescriptor :
      (path : String) (ns_type own : ℕ) (target : NsId) (context : Context)
      → OpensFresh calls
      → HasDescriptor own target context
      → HasDescriptor own target (join_ns_by_path calls path ns_type context).1
  unfolding join_ns_by_path
  join_ns_by_path-HasDescriptor path ns_type own target context fresh kept =
      opened-HasDescriptor ns_type (calls.open_ns path context) own target context
        (fresh path context) kept

  -- Where the system does not fail to close and gives a descriptor that was not open, the descriptors
  -- that are open after the join are those that were open before it, whether it failed or not.
  pub join_ns_by_path-has_open :
      (path : String) (ns_type : ℕ) (context : Context)
      → OpensFresh calls
      → ((fd : ℕ) (c : Context) → calls.close fd c ≡ none)
      → (fd : ℕ) → has_open (join_ns_by_path calls path ns_type context).1 fd ≡ has_open context fd
  unfolding join_ns_by_path
  join_ns_by_path-has_open path ns_type context fresh closes =
      opened-has_open ns_type (calls.open_ns path context) context (fresh path context) closes

  -- Where the join of a mount namespace returned, the process is in the namespace behind the path.
  pub join_ns_by_path-mount_ns :
      (path : String) (context after : Context)
      → join_ns_by_path calls path clone_newns context ≡ (ok tt, after)
      → (fd : ℕ) × (id : NsId) × (calls.open_ns path context ≡ inr (fd, id)) × (after.mount_ns ≡ id)
  unfolding join_ns_by_path
  join_ns_by_path-mount_ns path context after =
      opened-mount_ns (calls.open_ns path context) context after
