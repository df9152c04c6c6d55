-- ===== src/SkillZip/Archive.antt =====
-- skill-zip.ts, `readSkillZip`: the loop over the entries and what the archive's reader returns.
use Prim.Native.Nat.{bit_and}
use cf_open_agents_api.Prelude.{
  ℕ, zero, suc, ◌+◌, Bool, true, false, not, ◌&&◌, ◌||◌, List, [], ◌∷◌, ◌++◌, length, ok, err,
  guard, ◌>>=◌, ◌>>◌, ltb, ◌==◌, nat_eq, insert,
}
use cf_open_agents_api.SkillZip.Bytes.{
  skill_too_large, Checked, reject_if, subarray, units_eq, Trailer, end_of_central_directory,
}
use cf_open_agents_api.SkillZip.Central.{
  Platform, CentralEntry, central_entry, assert_kind, local_range, entry_bytes, assert_disjoint,
  assert_no_file_directories,
}

-- `SkillZipEntry`
pub record SkillZipEntry : Type 0 where
  pub bytes : List ℕ
  pub executable : Bool

-- The variables of the loop.
pub record Reading : Type 0 where
  pub entries : List (List ℕ × SkillZipEntry)
  pub names : List (List ℕ)
  pub ranges : List (ℕ × ℕ)
  pub at : ℕ
  pub size : ℕ

abbrev pub fresh : ℕ → Reading
fresh central = record { entries = []; names = []; ranges = []; at = central; size = 0 }

abbrev pub kept :
    CentralEntry → List ℕ → Bool → List (List ℕ × SkillZipEntry) → List (List ℕ × SkillZipEntry)
kept entry bytes true entries = entries
kept entry bytes false entries =
    insert entry.name (record { bytes = bytes; executable = not (bit_and entry.mode 0x49 == 0) })
      entries

abbrev pub file_names : List (List ℕ × SkillZipEntry) → List (List ℕ)
file_names [] = []
file_names ((name, e) ∷ entries) = name ∷ file_names entries

module _ (platform : Platform) (bytes : List ℕ) (limit : ℕ) where
  -- What the loop's body does with an entry that it has read, and the data of the entry.
  unfoldable pub read_data : Trailer → CentralEntry → Reading → Checked Reading
  read_data trailer entry r = do
    range ← local_range platform bytes entry trailer.central
    expanded ← entry_bytes platform bytes (subarray bytes range.0 range.1) entry
    reject_if (
        not (length expanded == entry.expanded)
        || not (platform.crc32 expanded == entry.crc)
        || entry.directory && not (entry.expanded == 0))
    ok (record {
      entries = kept entry expanded entry.directory r.entries;
      names = r.names ++ entry.path ∷ [];
      ranges = r.ranges ++ (entry.local, range.1) ∷ [];
      at = entry.next;
      size = r.size + entry.expanded;
    })

  -- The loop's body.
  unfoldable pub read_entry : Trailer → Reading → Checked Reading
  read_entry trailer r = do
    entry ← central_entry platform bytes r.at trailer.finish
    assert_kind entry r.names
    guard (not (ltb limit (r.size + entry.expanded))) skill_too_large
    read_data trailer entry r

  -- The loop.
  unfoldable pub read_entries : Trailer → ℕ → Reading → Checked Reading
  read_entries trailer zero r = ok r
  read_entries trailer (suc n) r = read_entry trailer r >>= read_entries trailer n

  -- All of `readSkillZip`, with the variables that it has at the end.
  unfoldable pub read_archive : Checked Reading
  read_archive = do
    trailer ← end_of_central_directory bytes
    r ← read_entries trailer trailer.count (fresh trailer.central)
    reject_if (not (r.at == trailer.finish))
    assert_disjoint r.ranges
    assert_no_file_directories r.names (file_names r.entries)
    ok r

  abbrev pub entries_of : Checked Reading → Checked (List (List ℕ × SkillZipEntry))
  entries_of (ok r) = ok r.entries
  entries_of (err e) = err e

  -- `readSkillZip(data, limit)`
  unfoldable pub read_skill_zip : Checked (List (List ℕ × SkillZipEntry))
  read_skill_zip = entries_of read_archive
