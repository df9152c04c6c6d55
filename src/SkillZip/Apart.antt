-- ===== src/SkillZip/Apart.antt =====
-- skill-zip.ts, `assertDisjoint`: the data of two entries of an accepted archive does not overlap.
use cf_open_agents_api.Prelude.{
  ℕ, ◌≤◌, ◌≡◌, true, ◌⊎◌, inl, inr, List, [], ◌∷◌, ok, leb, All, arith, Bool-cases, All-map_of,
  distinct, map, subst, sym, ap, ◌∙◌,
}
use cf_open_agents_api.SkillZip.Bytes.{units_eq, Trailer, end_of_central_directory}
use cf_open_agents_api.SkillZip.Central.{Platform, follows_on, sort_ranges, insert_range}
use cf_open_agents_api.SkillZip.Archive.{SkillZipEntry, fresh, read_archive, read_skill_zip}
use cf_open_agents_api.SkillZip.Walk.{Located, extent, listed_path, Walk, read_entries-Walk}
use cf_open_agents_api.SkillZip.Accepted.{read_archive_lem, entries_of_lem, fresh-Sound}
use cf_open_agents_api.SkillZip.Kept.{Within, read_entries-Sound}

-- One of two ranges has finished where the other starts.
abbrev pub Apart : ℕ × ℕ → ℕ × ℕ → Type 0
Apart r s = (r.1 ≤ s.0) ⊎ (s.1 ≤ r.0)

abbrev pub AllApart : List (ℕ × ℕ) → Type 0
AllApart [] = Unit
AllApart (r ∷ rs) = All (Apart r) rs × AllApart rs

Apart-sym : (r s : ℕ × ℕ) → Apart r s → Apart s r
Apart-sym r s (inl h) = inr h
Apart-sym r s (inr h) = inl h

abbrev Ordered : ℕ × ℕ → Type 0
Ordered r = r.0 ≤ r.1

-- What a range that has finished is followed by.
follows_all :
    (r : ℕ × ℕ) (rs : List (ℕ × ℕ))
    → All Ordered rs
    → follows_on (r ∷ rs) ≡ true
    → All (λ s. r.1 ≤ s.0) rs
follows_all r [] o h = tt
follows_all r (s ∷ ss) o h =
    let first : r.1 ≤ s.0 = ground arith in
    let later = follows_all s ss o.1 (ground arith) in
    (first, All-map_of (λ t le. omega (arith, first, o.0, le)) ss later)

follows_apart : (rs : List (ℕ × ℕ)) → All Ordered rs → follows_on rs ≡ true → AllApart rs
follows_apart [] o h = tt
follows_apart (r ∷ []) o h = (tt, tt)
follows_apart (r ∷ s ∷ ss) o h = (
  All-map_of (λ t le. inl le) (s ∷ ss) (follows_all r (s ∷ ss) o.1 h),
  follows_apart (s ∷ ss) o.1 (ground arith),
)

module _ (P : ℕ × ℕ → Type 0) (r : ℕ × ℕ) where
  All-insert_range : (rs : List (ℕ × ℕ)) → P r → All P rs → All P (insert_range r rs)
  All-insert_range [] p h = (p, tt)
  All-insert_range (s ∷ ss) p h = elim (Bool-cases (leb r.0 s.0)) [
    | inl e ↦ rw e (p, h)
    | inr e ↦ rw e (h.0, All-insert_range ss p h.1)
  ]

  All-of_insert : (rs : List (ℕ × ℕ)) → All P (insert_range r rs) → P r × All P rs
  All-of_insert [] h = h
  All-of_insert (s ∷ ss) h = elim (Bool-cases (leb r.0 s.0)) [
    | inl e ↦ ground arith
    | inr e ↦
        let g : All P (s ∷ insert_range r ss) = rw e at h in
        let (p, q) = All-of_insert ss g.1 in (p, (g.0, q))
  ]

AllApart-of_insert :
    (r : ℕ × ℕ) (rs : List (ℕ × ℕ)) → AllApart (insert_range r rs) → All (Apart r) rs × AllApart rs
AllApart-of_insert r [] h = (tt, tt)
AllApart-of_insert r (s ∷ ss) h = elim (Bool-cases (leb r.0 s.0)) [
  | inl e ↦ let g : AllApart (r ∷ s ∷ ss) = rw e at h in g
  | inr e ↦
      let g : AllApart (s ∷ insert_range r ss) = rw e at h in
      let (p, q) = All-of_insert (Apart s) r ss g.0 in
      let (p', q') = AllApart-of_insert r ss g.1 in ((Apart-sym s r p, p'), (q, q'))
]

All-sort : (P : ℕ × ℕ → Type 0) (rs : List (ℕ × ℕ)) → All P rs → All P (sort_ranges rs)
All-sort P [] h = tt
All-sort P (r ∷ rs) h = All-insert_range P r (sort_ranges rs) h.0 (All-sort P rs h.1)

All-of_sort : (P : ℕ × ℕ → Type 0) (rs : List (ℕ × ℕ)) → All P (sort_ranges rs) → All P rs
All-of_sort P [] h = tt
All-of_sort P (r ∷ rs) h =
    let (p, q) = All-of_insert P r (sort_ranges rs) h in (p, All-of_sort P rs q)

AllApart-of_sort : (rs : List (ℕ × ℕ)) → AllApart (sort_ranges rs) → AllApart rs
AllApart-of_sort [] h = tt
AllApart-of_sort (r ∷ rs) h =
    let (p, q) = AllApart-of_insert r (sort_ranges rs) h in
    (All-of_sort (Apart r) rs p, AllApart-of_sort rs q)

-- The directory of an accepted archive lists as many records as its trailer counts, one after another
-- up to the trailer, and the entries lie in the archive one beside the other: each has its local
-- header and name before its data, reaches from the header to the end of its compressed data, which
-- is not beyond the start of the central directory, and no two of them overlap, in whatever order the
-- directory lists them. No path is listed twice.
pub skill_zip_apart :
    (platform : Platform) (bytes : List ℕ) (limit : ℕ) (entries : List (List ℕ × SkillZipEntry))
    → read_skill_zip platform bytes limit ≡ ok entries
    → (trailer : Trailer) × (listed : List Located) × (end_of_central_directory bytes ≡ ok trailer)
      × Walk platform bytes trailer trailer.count trailer.central listed
      × All (Within trailer.central) (map extent listed)
      × AllApart (map extent listed)
      × (distinct (map listed_path listed) ≡ true)
unfolding read_skill_zip
skill_zip_apart platform bytes limit entries h =
    let (r, accepted, e) =
      entries_of_lem platform bytes limit (read_archive platform bytes limit) entries h in
    let (trailer, found, read, at_end, follows, clear) =
      read_archive_lem platform bytes limit r accepted in
    let (sound, counted) =
      read_entries-Sound platform bytes limit trailer trailer.count (fresh trailer.central) r read
        (fresh-Sound trailer.central limit) in
    let (listed, walk, ranges, names) =
      read_entries-Walk platform bytes trailer limit trailer.count (fresh trailer.central) r read
        at_end in
    let ordered : All Ordered r.ranges =
      All-map_of (λ s w. omega (arith, w.0)) r.ranges sound.ranges in
    (
      trailer,
      listed,
      found,
      walk,
      subst (All (Within trailer.central)) ranges sound.ranges,
      subst AllApart ranges (
          AllApart-of_sort r.ranges
            (follows_apart (sort_ranges r.ranges) (All-sort Ordered r.ranges ordered) follows)),
      sym (ap distinct names) ∙ sound.unique,
    )
