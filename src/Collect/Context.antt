-- ===== src/Collect/Context.antt =====
-- What the process has of the system while src/lib.rs and src/c_config/fs.rs join mount namespaces: a
-- parameter of the model stands for the calls, and this is the state that they see and change.
use checkc.Base.{
  ℕ, ◌≡◌, refl, String, false, not, Option, none, some, List, [], ◌∷◌, ◌⊎◌, ◌==◌, nat_eq,
  if◌then◌else◌, arith,
}
use checkc.Base.Maps
use checkc.Base.Sets.{filter, contains}
use checkc.Proto.Ns.{NsId}

-- A descriptor of a namespace file stands for the namespace. The files created are those of this run.
pub record Context : Type 0 where
  pub mount_ns : NsId
  pub directory : String
  pub descriptors : List (ℕ × NsId)
  pub created : List String

-- The system calls: an error number, or a value.
pub record ContextCalls : Type 0 where
  pub current_dir : Context → ℕ ⊎ String
  -- `open` of the file of a namespace.
  pub open_ns : String → Context → ℕ ⊎ (ℕ × NsId)
  pub setns : ℕ → ℕ → Context → Option ℕ
  pub close : ℕ → Context → Option ℕ
  pub set_current_dir : String → Context → Option ℕ

-- `CLONE_NEWNS`.
abbrev pub clone_newns : ℕ
clone_newns = 0x20000

-- After `setns` with a mount namespace the process is in the one behind the descriptor, and its
-- directory is the root of that; other kinds are not followed.
unfoldable pub entered : ℕ → ℕ → Context → Context
entered fd ns_type context =
    elim (if ns_type == clone_newns then Maps.lookup fd context.descriptors else none) [
      | none ↦ context
      | some id ↦ record context { mount_ns = id; directory = "/" }
    ]

-- The context after a close: a failed one changes nothing.
unfoldable pub closed : Option ℕ → ℕ → Context → Context
closed (some errno) fd context = context
closed none fd context = record context {
  descriptors = filter (λ entry. not (entry.0 == fd)) context.descriptors;
}

abbrev pub with_descriptor : ℕ → NsId → Context → Context
with_descriptor fd id context = record context { descriptors = (fd, id) ∷ context.descriptors }

-- A descriptor that stands for a namespace.
abbrev pub HasDescriptor : ℕ → NsId → Context → Type 0
HasDescriptor fd id context = Maps.lookup fd context.descriptors ≡ some id

pub entered-descriptors :
    (fd ns_type : ℕ) (context : Context)
    → (entered fd ns_type context).descriptors ≡ context.descriptors
unfolding entered
entered-descriptors fd ns_type context =
    by_id (if ns_type == clone_newns then Maps.lookup fd context.descriptors else none)
  where
    by_id :
        (o : Option NsId)
        → (elim o as (λ _. Context) [
          | none ↦ context
          | some id ↦ record context { mount_ns = id; directory = "/" }
        ]).descriptors
          ≡ context.descriptors
    by_id none = refl
    by_id (some id) = refl

pub entered-mount_ns :
    (fd : ℕ) (id : NsId) (context : Context)
    → HasDescriptor fd id context
    → entered fd clone_newns context ≡ record context { mount_ns = id; directory = "/" }
unfolding entered
entered-mount_ns fd id context kept = rw (kept, entered) refl

pub closed-mount_ns :
    (o : Option ℕ) (fd : ℕ) (context : Context) → (closed o fd context).mount_ns ≡ context.mount_ns
unfolding closed
closed-mount_ns none fd context = refl
closed-mount_ns (some errno) fd context = refl

lookup-filter_other :
    (fd other : ℕ) (descriptors : List (ℕ × NsId))
    → (fd == other) ≡ false
    → Maps.lookup fd (filter (λ (entry : ℕ × NsId). not (entry.0 == other)) descriptors)
      ≡ Maps.lookup fd descriptors
unfolding Maps.lookup filter
lookup-filter_other fd other [] h = refl
lookup-filter_other fd other ((k, id) ∷ descriptors) h =
    ground (arith, lookup-filter_other fd other descriptors)

-- Another descriptor is closed.
pub closed-HasDescriptor :
    (o : Option ℕ) (fd other : ℕ) (id : NsId) (context : Context)
    → (fd == other) ≡ false
    → HasDescriptor fd id context
    → HasDescriptor fd id (closed o other context)
unfolding closed
closed-HasDescriptor none fd other id context h k =
    rw (lookup-filter_other fd other context.descriptors h) k
closed-HasDescriptor (some errno) fd other id context h k = k

-- A descriptor that is not open is another one than each that is.
pub fresh-ne :
    (fd other : ℕ) (id : NsId) (descriptors : List (ℕ × NsId))
    → contains (Maps.keys descriptors) other ≡ false
    → Maps.lookup fd descriptors ≡ some id
    → (fd == other) ≡ false
unfolding contains Maps.lookup
fresh-ne fd other id [] h k = cc k
fresh-ne fd other id ((j, own) ∷ descriptors) h k = ground (arith, fresh-ne fd other id descriptors)

pub with_descriptor-HasDescriptor :
    (fd other : ℕ) (id own : NsId) (context : Context)
    → (fd == other) ≡ false
    → HasDescriptor fd id context
    → HasDescriptor fd id (with_descriptor other own context)
unfolding Maps.lookup
with_descriptor-HasDescriptor fd other id own context h k = ground (arith, h, k)

pub with_descriptor-HasDescriptor_self :
    (fd : ℕ) (id : NsId) (context : Context) → HasDescriptor fd id (with_descriptor fd id context)
unfolding Maps.lookup
with_descriptor-HasDescriptor_self fd id context = ground arith
