-- ===== src/SkillZip/Kept.antt =====
-- skill-zip.ts, `readSkillZip`: the invariant of its loop.
use cf_open_agents_api.Prelude.{
  ℕ, zero, suc, ◌+◌, ◌≤◌, ◌≡◌, refl, sym, subst, Bool, true, false, ◌||◌, Option, none, some, List,
  [], ◌∷◌, ◌++◌, length, length-append, ok, insert, ◌==◌, nat_eq, All, All-append, All-map_of,
  contains, distinct, arith, >>=-eq-ok, Bool-cases, string_eq, Equality, inl, inr, Member,
  Member-append_left, Member-append_right,
}
use cf_open_agents_api.SkillZip.Bytes.{
  units_eq, Trailer, bad_path, path_and_kind, without_slash, entry_path,
}
use cf_open_agents_api.SkillZip.Central.{Platform, CentralEntry}
use cf_open_agents_api.SkillZip.Archive.{
  SkillZipEntry, Reading, kept, file_names, read_entry, read_entries,
}
use cf_open_agents_api.SkillZip.Sound.{ok_eq, central_entry_lem, local_range_lem, read_entry_lem}

entry_path_named :
    (name path : List ℕ) (directory : Bool) (o : Option (List ℕ))
    → path_and_kind name o ≡ (path, directory)
    → directory ≡ false
    → path ≡ name
entry_path_named name path directory none e h = ground arith
entry_path_named name path directory (some p) e h = absurd (ground arith)

entry_path_lem :
    (name path : List ℕ) (directory : Bool)
    → entry_path name ≡ ok (path, directory)
    → (bad_path path ≡ false) × (directory ≡ false → path ≡ name)
unfolding entry_path
entry_path_lem name path directory h =
    let e : path_and_kind name (without_slash name) ≡ (path, directory) = ground arith in
    let good : bad_path (path_and_kind name (without_slash name)).0 ≡ false = ground arith in
    (
      subst (λ (z : List ℕ × Bool). bad_path z.0 ≡ false) e good,
      entry_path_named name path directory (without_slash name) e,
    )

-- The bytes of all the files.
abbrev pub total : List (List ℕ × SkillZipEntry) → ℕ
total [] = 0
total ((name, e) ∷ entries) = length e.bytes + total entries

total-insert :
    (k : List ℕ) (v : SkillZipEntry) (m : List (List ℕ × SkillZipEntry))
    → total (insert k v m) ≤ total m + length v.bytes
total-insert k v [] = omega arith
total-insert k v ((j, w) ∷ m) = ground (arith, total-insert k v m)

length-insert :
    (k : List ℕ) (v : SkillZipEntry) (m : List (List ℕ × SkillZipEntry))
    → length (insert k v m) ≤ length m + 1
length-insert k v [] = omega arith
length-insert k v ((j, w) ∷ m) = ground (arith, length-insert k v m)

All-insert :
    (P : List ℕ → Type 0) (k : List ℕ) (v : SkillZipEntry) (m : List (List ℕ × SkillZipEntry))
    → P k
    → All P (file_names m)
    → All P (file_names (insert k v m))
All-insert P k v [] p h = (p, tt)
All-insert P k v ((j, w) ∷ m) p h = elim (Bool-cases (j == k)) [
  | inl e ↦ rw e h
  | inr e ↦ rw e (h.0, All-insert P k v m p h.1)
]

-- The data of an entry lies in the archive, before its central directory.
abbrev pub Within : ℕ → ℕ × ℕ → Type 0
Within central range = (range.0 + 30 ≤ range.1) × (range.1 ≤ central)

-- What is true of the variables before and after every entry.
pub record Sound (central limit : ℕ) (r : Reading) : Type 0 where
  pub sizes : total r.entries ≤ r.size
  pub limited : r.size ≤ limit
  pub counted : length r.entries ≤ length r.names
  pub paths : All (λ path. bad_path path ≡ false) r.names
  pub files : All (λ name. Member name r.names) (file_names r.entries)
  pub unique : distinct r.names ≡ true
  pub ranges : All (Within central) r.ranges

module _ {A : Type 0} ⦃e : Equality A⦄ where
  contains-append :
      (xs ys : List A) (a : A) → contains (xs ++ ys) a ≡ (contains xs a || contains ys a)
  contains-append [] ys a = refl
  contains-append (x ∷ xs) ys a = ground (arith, contains-append xs ys a)

  distinct-append :
      (xs : List A) (a : A)
      → distinct xs ≡ true
      → contains xs a ≡ false
      → distinct (xs ++ a ∷ []) ≡ true
  distinct-append [] a d h = refl
  distinct-append (x ∷ xs) a d h =
      ground (
        arith,
        contains-append xs (a ∷ []) x,
        distinct-append xs a,
        e.equal_iff x a,
        e.equal_iff a x,
      )

module _ (entry : CentralEntry) (expanded : List ℕ) (entries : List (List ℕ × SkillZipEntry)) where
  kept_total :
      (directory : Bool)
      → total (kept entry expanded directory entries) ≤ total entries + length expanded
  kept_total true = omega arith
  kept_total false = total-insert entry.name _ entries

  kept_length :
      (directory : Bool) → length (kept entry expanded directory entries) ≤ length entries + 1
  kept_length true = omega arith
  kept_length false = length-insert entry.name _ entries

  kept_All :
      (P : List ℕ → Type 0) (directory : Bool)
      → (directory ≡ false → P entry.name)
      → All P (file_names entries)
      → All P (file_names (kept entry expanded directory entries))
  kept_All P true p h = h
  kept_All P false p h = All-insert P entry.name _ entries (p refl) h

last_Member : (a : List ℕ) (names : List (List ℕ)) → Member a (names ++ a ∷ [])
last_Member a names = Member-append_right a names (a ∷ []) (inl refl)

module _ (platform : Platform) (bytes : List ℕ) (limit : ℕ) (trailer : Trailer) where
  read_entry-Sound :
      (r r' : Reading)
      → read_entry platform bytes limit trailer r ≡ ok r'
      → Sound trailer.central limit r
      → Sound trailer.central limit r' × (length r'.names ≡ length r.names + 1)
  read_entry-Sound r r' h s =
      let (entry, expanded, range, found, located, new, small, same, e) =
        read_entry_lem platform bytes limit trailer r r' h in
      let (safe, named) =
        entry_path_lem entry.name entry.path entry.directory
          (central_entry_lem platform bytes r.at trailer.finish entry found) in
      let within = local_range_lem platform bytes entry trailer.central range located in
      let longer = length-append r.names (entry.path ∷ []) in
      subst (λ (z : Reading). Sound trailer.central limit z × (length z.names ≡ length r.names + 1))
        (sym e)
        (
          record {
            sizes =
                omega (arith, kept_total entry expanded r.entries entry.directory, s.sizes, same);
            limited = small;
            counted =
                omega
                  (arith, kept_length entry expanded r.entries entry.directory, s.counted, longer);
            paths = All-append _ r.names (entry.path ∷ []) s.paths (safe, tt);
            files =
                kept_All entry expanded r.entries (λ n. Member n (r.names ++ entry.path ∷ []))
                  entry.directory
                  (λ file.
                    subst (λ n. Member n (r.names ++ entry.path ∷ [])) (named file)
                      (last_Member entry.path r.names))
                  (All-map_of (λ n m. Member-append_left n r.names (entry.path ∷ []) m)
                    (file_names r.entries) s.files);
            unique = distinct-append r.names entry.path s.unique new;
            ranges =
                All-append (Within trailer.central) r.ranges ((entry.local, range.1) ∷ []) s.ranges
                  (within, tt);
          },
          omega (arith, longer),
        )

  pub read_entries-Sound :
      (n : ℕ) (r r' : Reading)
      → read_entries platform bytes limit trailer n r ≡ ok r'
      → Sound trailer.central limit r
      → Sound trailer.central limit r' × (length r'.names ≡ length r.names + n)
  unfolding read_entries
  read_entries-Sound zero r r' h s =
      subst (λ (z : Reading). Sound trailer.central limit z × (length z.names ≡ length r.names + 0))
        (sym (ok_eq h)) (s, omega arith)
  read_entries-Sound (suc n) r r' h s =
      let (m, first, rest) = >>=-eq-ok (read_entry platform bytes limit trailer r) _ h in
      let (sound, one) = read_entry-Sound r m first s in
      let (end, all) = read_entries-Sound n m r' rest sound in (end, omega (arith, one, all))
