-- ===== src/SkillZip/Accepted.antt =====
-- skill-zip.ts, `readSkillZip`: what an archive that is accepted contains.
use cf_open_agents_api.Prelude.{
  ℕ, ◌-◌, ◌≤◌, ◌≡◌, refl, sym, subst, Bool, true, false, not, inl, inr, Option, List, [], ◌∷◌,
  length, ok, err, guard, or_throw, ◌>>=◌, ltb, ◌==◌, nat_eq, All, any, arith, >>=-eq-ok, >>-eq-ok,
  nat_beq_iff, string_eq, Bool-cases,
}
use cf_open_agents_api.SkillZip.Bytes.{
  skill_invalid, Checked, reject_if, units_eq, Trailer, end_of_central_directory, trailer_from,
  scan,
}
use cf_open_agents_api.SkillZip.Central.{
  Platform, assert_disjoint, assert_no_file_directories, follows_on, sort_ranges, below_file,
}
use cf_open_agents_api.SkillZip.Archive.{
  SkillZipEntry, Reading, fresh, file_names, read_entries, read_archive, entries_of, read_skill_zip,
}
use cf_open_agents_api.SkillZip.Sound.{ok_eq}
use cf_open_agents_api.SkillZip.Kept.{total, Sound, read_entries-Sound}

trailer_from_lem :
    (bytes : List ℕ) (at : ℕ) (trailer : Trailer)
    → trailer_from bytes at ≡ ok trailer
    → trailer.count ≤ 1000
unfolding trailer_from
trailer_from_lem bytes at trailer h = ground arith

count_bounded :
    (bytes : List ℕ) (trailer : Trailer)
    → end_of_central_directory bytes ≡ ok trailer
    → trailer.count ≤ 1000
unfolding end_of_central_directory
count_bounded bytes trailer h = elim (Bool-cases (ltb (length bytes) 22)) [
  | inl short ↦ absurd (ground arith)
  | inr long ↦
      let h1 : (scan bytes (length bytes - 65557) (length bytes - 22) >>= λ (found : Option ℕ).
      (or_throw found skill_invalid >>= trailer_from bytes))
          ≡ ok trailer =
        rw long at h in
      let (found, scanned, h2) =
        >>=-eq-ok (scan bytes (length bytes - 65557) (length bytes - 22)) _ h1 in
      let (at, there, h3) = >>=-eq-ok (or_throw found skill_invalid) _ h2 in
      trailer_from_lem bytes at trailer h3
]

reject_if_lem : (b : Bool) → reject_if b ≡ ok tt → b ≡ false
reject_if_lem true h = cc
reject_if_lem false h = refl

guard_lem : (b : Bool) → guard b skill_invalid ≡ ok tt → b ≡ true
guard_lem true h = refl
guard_lem false h = cc

same_lem : (a b : ℕ) → reject_if (not (a == b)) ≡ ok tt → a ≡ b
same_lem a b h = ground (arith, nat_beq_iff a b)

pub any-false :
    {A : Type 0} (p : A → Bool) (xs : List A) → any p xs ≡ false → All (λ x. p x ≡ false) xs
any-false p [] h = tt
any-false p (x ∷ xs) h = (ground arith, any-false p xs (ground arith))

pub fresh-Sound : (central limit : ℕ) → Sound central limit (fresh central)
fresh-Sound central limit = record {
  sizes = omega arith;
  limited = omega arith;
  counted = omega arith;
  paths = tt;
  files = tt;
  unique = refl;
  ranges = tt;
}

module _ (platform : Platform) (bytes : List ℕ) (limit : ℕ) where
  pub read_archive_lem :
      (r : Reading)
      → read_archive platform bytes limit ≡ ok r
      → (trailer : Trailer) × (end_of_central_directory bytes ≡ ok trailer)
        × (read_entries platform bytes limit trailer trailer.count (fresh trailer.central) ≡ ok r)
        × (r.at ≡ trailer.finish)
        × (follows_on (sort_ranges r.ranges) ≡ true)
        × (any (below_file (file_names r.entries)) r.names ≡ false)
  unfolding read_archive assert_disjoint assert_no_file_directories
  read_archive_lem r h =
      let (trailer, found, h1) = >>=-eq-ok (end_of_central_directory bytes) _ h in
      let (s, read, h2) =
        >>=-eq-ok (read_entries platform bytes limit trailer trailer.count (fresh trailer.central))
          _ h1 in
      let (at_end, h3) = >>-eq-ok (reject_if (not (s.at == trailer.finish))) _ h2 in
      let (apart, h4) = >>-eq-ok (guard (follows_on (sort_ranges s.ranges)) skill_invalid) _ h3 in
      let (clear, h5) =
        >>-eq-ok (reject_if (any (below_file (file_names s.entries)) s.names)) _ h4 in
      subst
        (λ (z : Reading).
          (trailer : Trailer) × (end_of_central_directory bytes ≡ ok trailer)
          × (read_entries platform bytes limit trailer trailer.count (fresh trailer.central) ≡ ok z)
          × (z.at ≡ trailer.finish)
          × (follows_on (sort_ranges z.ranges) ≡ true)
          × (any (below_file (file_names z.entries)) z.names ≡ false))
        (sym (ok_eq h5))
        (
          trailer,
          found,
          read,
          same_lem s.at trailer.finish at_end,
          guard_lem _ apart,
          reject_if_lem _ clear,
        )

  pub entries_of_lem :
      (a : Checked Reading) (entries : List (List ℕ × SkillZipEntry))
      → entries_of platform bytes limit a ≡ ok entries
      → (r : Reading) × (a ≡ ok r) × (r.entries ≡ entries)
  entries_of_lem (ok r) entries h = (r, refl, sym (ok_eq h))
  entries_of_lem (err e) entries h = cc

  pub archive-Sound :
      (r : Reading)
      → read_archive platform bytes limit ≡ ok r
      → (trailer : Trailer) × (end_of_central_directory bytes ≡ ok trailer)
        × Sound trailer.central limit r
        × (length r.names ≤ 1000)
  archive-Sound r h =
      let (trailer, found, read, at_end, apart, clear) = read_archive_lem r h in
      let (sound, counted) =
        read_entries-Sound platform bytes limit trailer trailer.count (fresh trailer.central) r read
          (fresh-Sound trailer.central limit) in
      (trailer, found, sound, omega (arith, counted, count_bounded bytes trailer found))

  -- What an accepted archive expands to is within the limit, in bytes over all its files, and it has at
  -- most 1,000 files, whatever the platform makes of deflated bytes.
  pub skill_zip_bounded :
      (entries : List (List ℕ × SkillZipEntry))
      → read_skill_zip platform bytes limit ≡ ok entries
      → (total entries ≤ limit) × (length entries ≤ 1000)
  unfolding read_skill_zip
  skill_zip_bounded entries h =
      let (r, read, e) = entries_of_lem (read_archive platform bytes limit) entries h in
      let (trailer, found, sound, counted) = archive-Sound r read in
      subst (λ (z : List (List ℕ × SkillZipEntry)). (total z ≤ limit) × (length z ≤ 1000)) e
        (omega (arith, sound.sizes, sound.limited), omega (arith, sound.counted, counted))
