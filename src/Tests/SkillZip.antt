-- ===== src/Tests/SkillZip.antt =====
-- The reader of a skill's archive at a small archive: one stored file `a` that holds `hi`.
use cf_open_agents_api.Prelude.{
  ℕ, ◌+◌, ◌-◌, ◌≤◌, ◌≡◌, refl, true, false, none, some, List, [], ◌∷◌, ◌++◌, ◌⊎◌, inl, length, All,
  contains, distinct, ok, err, map,
}
use cf_open_agents_api.SkillZip.Bytes.{
  skill_too_large, units_eq, Trailer, parts_of, end_of_central_directory, entry_path, scan,
  trailer_at, u32, u16, trailer_from,
}
use cf_open_agents_api.SkillZip.Central.{
  Platform, central_entry, assert_kind, local_range, check_sizes, entry_bytes, assert_disjoint,
  assert_no_file_directories,
}
use cf_open_agents_api.SkillZip.Archive.{
  SkillZipEntry, read_entries, read_entry, read_data, file_names, read_archive, read_skill_zip,
}
use cf_open_agents_api.SkillZip.Kept.{total, Within}
use cf_open_agents_api.SkillZip.Walk.{Located, extent, listed_path, Walk}
use cf_open_agents_api.SkillZip.Accepted.{skill_zip_bounded}
use cf_open_agents_api.SkillZip.Paths.{SafePath, paths_above, skill_zip_paths}
use cf_open_agents_api.SkillZip.Apart.{AllApart, skill_zip_apart}
use cf_open_agents_api.SkillZip.Found.{EndsArchive, trailer_found}

abbrev header : List ℕ
header =
    80 ∷ 75 ∷ 3 ∷ 4 ∷ 20 ∷ 0 ∷ 0 ∷ 0 ∷ 0 ∷ 0 ∷ 0 ∷ 0 ∷ 0 ∷ 0 ∷ 7 ∷ 0 ∷ 0 ∷ 0 ∷ 2 ∷ 0 ∷ 0 ∷ 0 ∷ 2 ∷ 0
    ∷ 0 ∷ 0 ∷ 1 ∷ 0 ∷ 0 ∷ 0 ∷ 97 ∷ 104 ∷ 105 ∷ []

abbrev central : List ℕ
central =
    80 ∷ 75 ∷ 1 ∷ 2 ∷ 30 ∷ 3 ∷ 20 ∷ 0 ∷ 0 ∷ 0 ∷ 0 ∷ 0 ∷ 0 ∷ 0 ∷ 0 ∷ 0 ∷ 7 ∷ 0 ∷ 0 ∷ 0 ∷ 2 ∷ 0 ∷ 0
    ∷ 0 ∷ 2 ∷ 0 ∷ 0 ∷ 0 ∷ 1 ∷ 0 ∷ 0 ∷ 0 ∷ 0 ∷ 0 ∷ 0 ∷ 0 ∷ 0 ∷ 0 ∷ 0 ∷ 0 ∷ 237 ∷ 129 ∷ 0 ∷ 0 ∷ 0 ∷ 0
    ∷ 97 ∷ []

abbrev ending : List ℕ
ending =
    80 ∷ 75 ∷ 5 ∷ 6 ∷ 0 ∷ 0 ∷ 0 ∷ 0 ∷ 1 ∷ 0 ∷ 1 ∷ 0 ∷ 47 ∷ 0 ∷ 0 ∷ 0 ∷ 33 ∷ 0 ∷ 0 ∷ 0 ∷ 0 ∷ 0 ∷ []

abbrev archive : List ℕ
archive = header ++ (central ++ ending)

abbrev platform : Platform
platform = record { decode = λ bytes. some bytes; inflate = λ bytes most. none; crc32 = λ bytes. 7 }

abbrev files : List (List ℕ × SkillZipEntry)
files = ((97 ∷ []), record { bytes = 104 ∷ 105 ∷ []; executable = true }) ∷ []

abbrev trailer : Trailer
trailer = record { finish = 80; count = 1; central = 33 }

trailer_read : end_of_central_directory archive ≡ ok trailer
unfolding end_of_central_directory scan trailer_at u32 u16 trailer_from
trailer_read = refl

files_read : read_skill_zip platform archive 2 ≡ ok files
unfolding read_skill_zip read_archive end_of_central_directory scan trailer_at u32 u16 trailer_from
    read_entries read_entry central_entry entry_path assert_kind read_data local_range check_sizes
    entry_bytes assert_disjoint assert_no_file_directories
files_read = refl

-- A limit below what the file expands to.
archive_too_large : read_skill_zip platform archive 1 ≡ err skill_too_large
unfolding read_skill_zip read_archive end_of_central_directory scan trailer_at u32 u16 trailer_from
    read_entries read_entry central_entry entry_path assert_kind read_data local_range check_sizes
    entry_bytes assert_disjoint assert_no_file_directories
archive_too_large = refl

skill_zip_bounded_example : (total files ≤ 2) × (length files ≤ 1000)
skill_zip_bounded_example = skill_zip_bounded platform archive 2 files files_read

skill_zip_paths_example :
    SafePath (97 ∷ [])
    × All
        (λ p. contains (file_names files) p ≡ false)
        (paths_above (parts_of (97 ∷ [])) (length (parts_of (97 ∷ [])) - 1))
skill_zip_paths_example = skill_zip_paths platform archive 2 files (97 ∷ []) files_read (inl refl)

skill_zip_apart_example :
    (t : Trailer) × (listed : List Located) × (end_of_central_directory archive ≡ ok t)
    × Walk platform archive t t.count t.central listed
    × All (Within t.central) (map extent listed)
    × AllApart (map extent listed)
    × (distinct (map listed_path listed) ≡ true)
skill_zip_apart_example = skill_zip_apart platform archive 2 files files_read

trailer_found_example :
    EndsArchive archive trailer.finish ⊎ (trailer.finish + 65558 ≡ length archive)
trailer_found_example = trailer_found archive trailer trailer_read
