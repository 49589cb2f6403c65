-- ===== src/Collect/MadeDevices.antt =====
-- The devices that `mknod_brute_force` of src/c_config/device.rs finds.
use mathlib.Core.Path.{subst}
use checkc.Base.{
  or_intro, or_elim, ℕ, ◌≤◌, ◌≡◌, refl, ◌∙◌, sym, ap, String, Bool, true, false, ◌||◌, ◌↔◌, Option,
  none, some, List, [], ◌∷◌, ◌++◌, ok, arith, ◌⊎◌, inl, inr, nat_eq, if◌then◌else◌,
}
use checkc.Base.Sets.{contains, contains-append}
use checkc.Base.Text.{◌<>◌, show_ℕ}
use checkc.Config.{range_from}
use checkc.Proto.Device.{DeviceType, char, block, socket, fifo, Device}
use checkc.Collect.Devices.{Files, opens, device_eq, device_beq, device_beq_iff}
use checkc.Collect.Mknod.{
  made_device, made, try_mknod, try_numbers, try_minors, try_majors, mknod_brute_force,
}
use checkc.Collect.KnownDevices.{in_temp_dir-ok}
use checkc.Collect.Searched.{
  range_from-contains, contains-range_from, flat_map, flat_map-contains, contains-flat_map,
}

or_false : (b : Bool) → (b || false) ≡ true → b ≡ true
or_false true h = refl
or_false false h = h

only_if :
    (b : Bool) (x d : Device)
    → (contains (if b then x ∷ [] else []) d ≡ true) ↔ ((b ≡ true) × (d ≡ x))
unfolding contains
only_if true x d = (
  λ h. (refl, (device_beq_iff d x).0 (or_false (device_beq d x) h)),
  λ (_, e). or_intro (device_beq d x) false (inl ((device_beq_iff d x).1 e)),
)
only_if false x d = (λ h. absurd (cc h), λ (b, _). absurd (cc b))

-- The beginning of the names of the files, by the kind of the device.
unfoldable pub prefix : DeviceType → String
prefix char = "/char_"
prefix block = "/block_"
prefix socket = ""
prefix fifo = ""

module _ {S : Type 0} (files : Files S) (dir : String) where
  -- A device that mknod makes, with numbers in the range of the search, and that can be opened.
  pub IsMade : Device → Type 0
  IsMade d =
      (t : DeviceType) × (i : ℕ) × (j : ℕ) × (read : Option ℕ) × (write : Option ℕ) × ((t ≡ char)
        ⊎ (t ≡ block))
      × (i ≤ 4096)
      × (j ≤ 256)
      × (files.mknod t i j ≡ some (read, write))
      × ((opens read || opens write) ≡ true)
      × (d
          ≡ made_device files (dir <> prefix t <> show_ℕ i <> "_" <> show_ℕ j) t i j
              (opens read, opens write))

  -- The device that a call of mknod makes.
  Makes : String → DeviceType → ℕ → ℕ → Device → Option (Option ℕ × Option ℕ) → Type 0
  Makes path t i j d o =
      (read : Option ℕ) × (write : Option ℕ) × (o ≡ some (read, write))
      × ((opens read || opens write) ≡ true)
      × (d ≡ made_device files path t i j (opens read, opens write))

  made-Makes :
      (path : String) (t : DeviceType) (i j : ℕ) (d : Device) (o : Option (Option ℕ × Option ℕ))
      → (contains (made files path t i j o) d ≡ true) ↔ Makes path t i j d o
  unfolding made contains Makes
  made-Makes path t i j d none = (λ h. absurd (cc h), λ (read, write, e, k, l). absurd (cc e))
  made-Makes path t i j d (some (read, write)) =
      let rights : Bool × Bool = (opens read, opens write) in
      let (to, from) =
        only_if (opens read || opens write) (made_device files path t i j rights) d in
      (
        λ h. (read, write, refl, (to h).0, (to h).1),
        λ (read', write', e, k, l). from (cc (e, k), cc (e, l)),
      )

  -- For a device and its numbers.
  numbers-IsMade :
      (i j : ℕ) (d : Device)
      → i ≤ 4096
      → j ≤ 256
      → contains (try_numbers files dir i j) d ≡ true
      → IsMade d
  unfolding try_numbers try_mknod prefix IsMade Makes
  numbers-IsMade i j d l u h =
      let name = λ (p : String). dir <> p <> show_ℕ i <> "_" <> show_ℕ j in
      elim (or_elim (contains (made files (name "/char_") char i j (files.mknod char i j)) d)
        (contains (made files (name "/block_") block i j (files.mknod block i j)) d)
        (sym (
            contains-append (made files (name "/char_") char i j (files.mknod char i j))
              (made files (name "/block_") block i j (files.mknod block i j)) d)
          ∙ h)) [
            | inl y ↦
                let (read, write, e, k, m) =
                  (made-Makes (name "/char_") char i j d (files.mknod char i j)).0 y in
                (char, i, j, read, write, inl refl, l, u, e, k, m)
            | inr y ↦
                let (read, write, e, k, m) =
                  (made-Makes (name "/block_") block i j d (files.mknod block i j)).0 y in
                (block, i, j, read, write, inr refl, l, u, e, k, m)
          ]

  IsMade-numbers :
      (t : DeviceType) (i j : ℕ) (d : Device)
      → (t ≡ char) ⊎ (t ≡ block)
      → Makes (dir <> prefix t <> show_ℕ i <> "_" <> show_ℕ j) t i j d (files.mknod t i j)
      → contains (try_numbers files dir i j) d ≡ true
  unfolding try_numbers try_mknod prefix
  IsMade-numbers t i j d kind h =
      let name = λ (p : String). dir <> p <> show_ℕ i <> "_" <> show_ℕ j in
      let chars = made files (name "/char_") char i j (files.mknod char i j) in
      let blocks = made files (name "/block_") block i j (files.mknod block i j) in
      contains-append chars blocks d
      ∙ or_intro (contains chars d) (contains blocks d) (elim kind [
        | inl e ↦ inl (
            (made-Makes (name "/char_") char i j d (files.mknod char i j)).1
              (subst (λ k. Makes (name (prefix k)) k i j d (files.mknod k i j)) e h))
        | inr e ↦ inr (
            (made-Makes (name "/block_") block i j d (files.mknod block i j)).1
              (subst (λ k. Makes (name (prefix k)) k i j d (files.mknod k i j)) e h))
      ])

  try_minors-flat_map :
      (i : ℕ) (minors : List ℕ)
      → try_minors files dir i minors ≡ flat_map (try_numbers files dir i) minors
  unfolding try_minors flat_map
  try_minors-flat_map i [] = refl
  try_minors-flat_map i (j ∷ minors) =
      ap (λ ds. try_numbers files dir i j ++ ds) (try_minors-flat_map i minors)

  try_majors-flat_map :
      (majors : List ℕ)
      → try_majors files dir majors
        ≡ flat_map (λ i. flat_map (try_numbers files dir i) (range_from 257 0)) majors
  unfolding try_majors flat_map
  try_majors-flat_map [] = refl
  try_majors-flat_map (i ∷ majors) =
      rw (try_minors-flat_map i (range_from 257 0), try_majors-flat_map majors) refl

  -- Where the search for the devices that mknod can make returned, it found exactly those that mknod
  -- makes, of either kind and with a major number up to 4096 and a minor one up to 256, and that can then
  -- be opened for reading or for writing.
  pub mknod_brute_force-IsMade :
      {devices : List Device}
      → mknod_brute_force files ≡ ok devices
      → files.temp_dir ≡ inr dir
      → (d : Device) → (contains devices d ≡ true) ↔ IsMade d
  unfolding mknod_brute_force IsMade Makes
  mknod_brute_force-IsMade {devices} h named d =
      let (dir', named', same) =
        in_temp_dir-ok files (λ x. try_majors files x (range_from 4097 0)) h in
      let here : dir' ≡ dir = cc (named, named') in
      let minors = λ (i : ℕ). flat_map (try_numbers files dir i) (range_from 257 0) in
      let all : devices ≡ flat_map minors (range_from 4097 0) =
        sym same
        ∙ ap (λ x. try_majors files x (range_from 4097 0)) here
        ∙ try_majors-flat_map (range_from 4097 0) in
      (
        λ m.
            let (i, k, l) =
              flat_map-contains minors (range_from 4097 0) d
                (ap (λ ds. contains ds d) (sym all) ∙ m) in
            let (j, n, o) = flat_map-contains (try_numbers files dir i) (range_from 257 0) d l in
            let (_, u) = range_from-contains 4097 0 i k in
            let (_, v) = range_from-contains 257 0 j n in
            numbers-IsMade i j d (omega (arith, u)) (omega (arith, v)) o,
        λ (t, i, j, read, write, kind, u, v, e, k, m).
            ap (λ ds. contains ds d) all
            ∙ contains-flat_map minors (range_from 4097 0) d i
                (contains-range_from 4097 0 i (omega arith) (omega (arith, u)))
                (contains-flat_map (try_numbers files dir i) (range_from 257 0) d j
                  (contains-range_from 257 0 j (omega arith) (omega (arith, v)))
                  (IsMade-numbers t i j d kind (read, write, e, k, m))),
      )
