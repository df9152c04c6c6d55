-- ===== src/SkillZip/Sound.antt =====
-- skill-zip.ts: what is true of the variables of `readSkillZip` after every entry.
use cf_open_agents_api.Prelude.{
  ℕ, ◌+◌, ◌≤◌, ◌≡◌, Bool, false, not, ◌&&◌, ◌||◌, List, [], ◌∷◌, ◌++◌, length, ok, guard, ltb, ◌==◌,
  nat_eq, contains, nat_beq_iff, arith, >>=-eq-ok, >>-eq-ok,
}
use cf_open_agents_api.SkillZip.Bytes.{
  skill_too_large, Checked, reject_if, subarray, units_eq, Trailer, entry_path,
}
use cf_open_agents_api.SkillZip.Central.{
  Platform, CentralEntry, central_entry, assert_kind, local_range, entry_bytes,
}
use cf_open_agents_api.SkillZip.Archive.{Reading, kept, read_data, read_entry}

assert_kind_lem :
    (entry : CentralEntry) (names : List (List ℕ))
    → assert_kind entry names ≡ ok tt
    → contains names entry.path ≡ false
unfolding assert_kind
assert_kind_lem entry names h = ground arith

small_lem : (limit size : ℕ) → guard (not (ltb limit size)) skill_too_large ≡ ok tt → size ≤ limit
small_lem limit size h = ground arith

same_length_lem : (n m : ℕ) (b c : Bool) → reject_if (not (n == m) || b || c) ≡ ok tt → n ≡ m
same_length_lem n m b c h = ground (arith, nat_beq_iff n m)

pub ok_eq : {A : Type 0} {a b : A} → ◌≡◌ {A = Checked A} (ok a) (ok b) → b ≡ a
ok_eq h = cc

module _ (platform : Platform) (bytes : List ℕ) where
  pub central_entry_lem :
      (at finish : ℕ) (entry : CentralEntry)
      → central_entry platform bytes at finish ≡ ok entry
      → entry_path entry.name ≡ ok (entry.path, entry.directory)
  unfolding central_entry
  central_entry_lem at finish entry h = ground arith

  pub local_range_lem :
      (entry : CentralEntry) (central : ℕ) (range : ℕ × ℕ)
      → local_range platform bytes entry central ≡ ok range
      → (entry.local + 30 ≤ range.1) × (range.1 ≤ central)
  unfolding local_range
  local_range_lem entry central range h = ground arith

  -- The data ends as many bytes after it starts as the directory says, past the local header.
  pub local_range_extent :
      (entry : CentralEntry) (central : ℕ) (range : ℕ × ℕ)
      → local_range platform bytes entry central ≡ ok range
      → (range.1 ≡ range.0 + entry.compressed)
        × (entry.local + 30 + length entry.filename ≤ range.0)
  unfolding local_range
  local_range_extent entry central range h = ground arith

  pub read_entry_lem :
      (limit : ℕ) (trailer : Trailer) (r r' : Reading)
      → read_entry platform bytes limit trailer r ≡ ok r'
      → (entry : CentralEntry) × (expanded : List ℕ) × (range : ℕ × ℕ) × (central_entry platform
            bytes r.at trailer.finish
          ≡ ok entry)
        × (local_range platform bytes entry trailer.central ≡ ok range)
        × (contains r.names entry.path ≡ false)
        × (r.size + entry.expanded ≤ limit)
        × (length expanded ≡ entry.expanded)
        × (r' ≡ record {
          entries = kept entry expanded entry.directory r.entries;
          names = r.names ++ entry.path ∷ [];
          ranges = r.ranges ++ (entry.local, range.1) ∷ [];
          at = entry.next;
          size = r.size + entry.expanded;
        })
  unfolding read_entry read_data
  read_entry_lem limit trailer r r' h =
      let (entry, found, h1) = >>=-eq-ok (central_entry platform bytes r.at trailer.finish) _ h in
      let (kind, h2) = >>-eq-ok (assert_kind entry r.names) _ h1 in
      let (small, h3) =
        >>-eq-ok (guard (not (ltb limit (r.size + entry.expanded))) skill_too_large) _ h2 in
      let (range, located, h4) =
        >>=-eq-ok (local_range platform bytes entry trailer.central) _ h3 in
      let (expanded, read, h5) =
        >>=-eq-ok (entry_bytes platform bytes (subarray bytes range.0 range.1) entry) _ h4 in
      let (checked, h6) =
        >>-eq-ok
          (reject_if (
            not (length expanded == entry.expanded)
            || not (platform.crc32 expanded == entry.crc)
            || entry.directory && not (entry.expanded == 0)))
          _ h5 in
      (
        entry,
        expanded,
        range,
        found,
        located,
        assert_kind_lem entry r.names kind,
        small_lem limit _ small,
        same_length_lem (length expanded) entry.expanded _ _ checked,
        ok_eq h6,
      )
