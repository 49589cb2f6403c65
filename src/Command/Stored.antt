-- ===== src/Command/Stored.antt =====
-- What `store_report` of src/main.rs leaves on the disk.
use checkc.Base.{
  ℕ, ◌≡◌, refl, sym, ap, String, false, Option, none, some, Outcome, ok, inl, inr, ◌==◌, nat_eq,
  string_eq, if◌then◌else◌, arith, Bool-cases,
}
use checkc.Base.Maps
use checkc.Command.Store.{
  Disk, FileCalls, file, is_file, report_path, store_report, created, written, read_file, opened,
  text_of,
}

module _ (calls : FileCalls) where
  written-lookup :
      (p text : String) (o : Option (ℕ × String)) (disk after : Disk)
      → written calls p text o disk ≡ (ok tt, after)
      → after ≡ Maps.insert p (file text) disk
  unfolding written
  written-lookup p text none disk after h = ap (λ (r : Outcome (Unit {0}) × Disk). r.1) (sym h)
  written-lookup p text (some (errno, part)) disk after h = cc h

  created-lookup :
      (p text : String) (o : Option ℕ) (disk after : Disk)
      → created calls p text o disk ≡ (ok tt, after)
      → (q : String)
      → Maps.lookup q after ≡ (if p == q then some (file text) else Maps.lookup q disk)
  unfolding created
  created-lookup p text (some errno) disk after h q = cc h
  created-lookup p text none disk after h q =
      let empty = Maps.insert p (file "") disk in
      rw (written-lookup p text (calls.write_all p text empty) empty after h) (
        ground
          (arith, Maps.lookup-insert p q (file text) empty, Maps.lookup-insert p q (file "") disk))

  -- Where a report was stored, there was no file at the path of the output; the file of the report has its text,
  -- in a folder under the default name; and every other path has what it had.
  pub store_report-lookup :
      (out text default_file : String) (disk after : Disk)
      → store_report calls out text default_file disk ≡ (ok tt, after)
      → (is_file out disk ≡ false)
        × ((q : String)
            → Maps.lookup q after ≡ (
                if report_path out default_file disk == q
                then some (file text)
                else Maps.lookup q disk))
  unfolding store_report
  store_report-lookup out text default_file disk after h = elim (Bool-cases (is_file out disk)) [
    | inl e ↦ absurd (cc (rw e at h))
    | inr e ↦ (
      e,
      created-lookup (report_path out default_file disk) text
          (calls.create (report_path out default_file disk) disk) disk after (rw e at h),
    )
  ]

  pub read_file-stored :
      (path text : String) (disk : Disk)
      → calls.open_file path disk ≡ none
      → Maps.lookup path disk ≡ some (file text)
      → read_file calls path disk ≡ inr (some text)
  unfolding read_file opened text_of
  read_file-stored path text disk h k = rw (h, opened, k) refl
