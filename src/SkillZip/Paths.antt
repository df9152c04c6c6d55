-- ===== src/SkillZip/Paths.antt =====
-- skill-zip.ts, `entryPath` and `assertNoFileDirectories`: the names of an accepted archive's files.
use cf_open_agents_api.Prelude.{
  ℕ, zero, suc, ◌-◌, ◌≤◌, ◌≡◌, ◌≢◌, subst, false, List, [], ◌∷◌, length, ok, nat_eq, All,
  All-map_of, All-Member, take, Member, take, contains, arith, nat_beq_iff, string_eq,
}
use cf_open_agents_api.SkillZip.Bytes.{
  units_eq, bad_path, bad_part, bad_unit, parts_of, same_units_iff,
}
use cf_open_agents_api.SkillZip.Central.{Platform, below_file, prefix_is_file, joined_parts}
use cf_open_agents_api.SkillZip.Archive.{
  SkillZipEntry, Reading, file_names, read_archive, read_skill_zip,
}
use cf_open_agents_api.SkillZip.Accepted.{
  any-false, read_archive_lem, entries_of_lem, archive-Sound,
}

-- A relative path: not empty, with no backslash, colon or control unit, and with no part between
-- slashes that is empty, `.` or `..`.
abbrev pub SafeUnit : ℕ → Type 0
SafeUnit c = (c ≢ 92) × (c ≢ 58) × (32 ≤ c)

abbrev pub SafePart : List ℕ → Type 0
SafePart part = (part ≢ []) × (part ≢ 46 ∷ []) × (part ≢ 46 ∷ 46 ∷ [])

abbrev pub SafePath : List ℕ → Type 0
SafePath path = (path ≢ []) × All SafeUnit path × All SafePart (parts_of path)

safe_unit_lem : (c : ℕ) → bad_unit c ≡ false → SafeUnit c
safe_unit_lem c h = (
  λ e. absurd (ground (arith, nat_beq_iff c 92)),
  λ e. absurd (ground (arith, nat_beq_iff c 58)),
  ground arith,
)

safe_part_lem : (part : List ℕ) → bad_part part ≡ false → SafePart part
safe_part_lem [] h = cc
safe_part_lem (c ∷ cs) h = (
  λ e. cc,
  λ e. absurd (ground (arith, same_units_iff (c ∷ cs) (46 ∷ []))),
  λ e. absurd (ground (arith, same_units_iff (c ∷ cs) (46 ∷ 46 ∷ []))),
)

bad_path-SafePath : (path : List ℕ) → bad_path path ≡ false → SafePath path
bad_path-SafePath [] h = cc
bad_path-SafePath (c ∷ cs) h = (
  λ e. cc,
  All-map_of safe_unit_lem (c ∷ cs) (any-false bad_unit (c ∷ cs) (ground arith)),
  All-map_of safe_part_lem (parts_of (c ∷ cs))
      (any-false bad_part (parts_of (c ∷ cs)) (ground arith)),
)

-- The paths above a path, cut before one of its slashes.
abbrev pub paths_above : List (List ℕ) → ℕ → List (List ℕ)
paths_above parts zero = []
paths_above parts (suc n) = joined_parts (take (suc n) parts) ∷ paths_above parts n

paths_above_lem :
    (files parts : List (List ℕ)) (n : ℕ)
    → prefix_is_file files parts n ≡ false
    → All (λ p. contains files p ≡ false) (paths_above parts n)
paths_above_lem files parts zero h = tt
paths_above_lem files parts (suc n) h = (ground arith, paths_above_lem files parts n (ground arith))

module _ (platform : Platform) (bytes : List ℕ) (limit : ℕ) where
  named_safely :
      (r : Reading) (name : List ℕ)
      → read_archive platform bytes limit ≡ ok r
      → Member name (file_names r.entries)
      → SafePath name
        × All
            (λ p. contains (file_names r.entries) p ≡ false)
            (paths_above (parts_of name) (length (parts_of name) - 1))
  named_safely r name h m =
      let (trailer, found, read, at_end, apart, clear) =
        read_archive_lem platform bytes limit r h in
      let (trailer', found', sound, counted) = archive-Sound platform bytes limit r h in
      let listed = All-Member (λ n. Member n r.names) name (file_names r.entries) sound.files m in
      let files = file_names r.entries in
      (
        bad_path-SafePath name
            (All-Member (λ path. bad_path path ≡ false) name r.names sound.paths listed),
        paths_above_lem files (parts_of name) (length (parts_of name) - 1) (
            All-Member (λ n. below_file files n ≡ false) name r.names
              (any-false (below_file files) r.names clear) listed),
      )

  -- Every file of an accepted archive has a safe path: it is not empty, has no backslash, colon or
  -- control unit, and none of the parts between its slashes is empty, `.` or `..`; and no path above it
  -- is a file of the archive.
  pub skill_zip_paths :
      (entries : List (List ℕ × SkillZipEntry)) (name : List ℕ)
      → read_skill_zip platform bytes limit ≡ ok entries
      → Member name (file_names entries)
      → SafePath name
        × All
            (λ p. contains (file_names entries) p ≡ false)
            (paths_above (parts_of name) (length (parts_of name) - 1))
  unfolding read_skill_zip
  skill_zip_paths entries name h m =
      let (r, read, e) =
        entries_of_lem platform bytes limit (read_archive platform bytes limit) entries h in
      subst
        (λ (z : List (List ℕ × SkillZipEntry)).
          Member name (file_names z)
          → SafePath name
            × All (λ p. contains (file_names z) p ≡ false)
                (paths_above (parts_of name) (length (parts_of name) - 1)))
        e (named_safely r name read) m
