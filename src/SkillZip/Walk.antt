-- ===== src/SkillZip/Walk.antt =====
-- skill-zip.ts, the central directory's records as they lie one after another in an archive, and what
-- the loop of `readSkillZip` keeps of them.
use cf_open_agents_api.Prelude.{
  ℕ, zero, suc, ◌+◌, ◌≤◌, ◌≡◌, refl, sym, ap, ◌∙◌, subst, List, [], ◌∷◌, ◌++◌, map, length, ok,
  >>=-eq-ok,
}
use cf_open_agents_api.SkillZip.Bytes.{Trailer}
use cf_open_agents_api.SkillZip.Central.{Platform, CentralEntry, central_entry, local_range}
use cf_open_agents_api.SkillZip.Archive.{Reading, read_entry, read_entries}
use cf_open_agents_api.SkillZip.Sound.{ok_eq, local_range_extent, read_entry_lem}

-- A record of the directory, and where its compressed data starts.
abbrev pub Located : Type 0
Located = CentralEntry × ℕ

-- The bytes of an entry: from its local header to the end of its compressed data.
abbrev pub extent : Located → ℕ × ℕ
extent (entry, start) = (entry.local, start + entry.compressed)

abbrev pub listed_path : Located → List ℕ
listed_path (entry, start) = entry.path

module _ (platform : Platform) (bytes : List ℕ) (trailer : Trailer) where
  -- As many records of the directory from a position, each where the one before it ends, of which the
  -- last ends where the trailer starts, and the local header of each.
  abbrev pub Walk : ℕ → ℕ → List Located → Type 0
  Walk zero at [] = at ≡ trailer.finish
  Walk zero at (x ∷ xs) = ⊥
  Walk (suc n) at [] = ⊥
  Walk (suc n) at ((entry, start) ∷ xs) =
      (central_entry platform bytes at trailer.finish ≡ ok entry)
      × (local_range platform bytes entry trailer.central ≡ ok (start, start + entry.compressed))
      × (entry.local + 30 + length entry.filename ≤ start)
      × Walk n entry.next xs

  pair_eq :
      (entry : CentralEntry) (range : ℕ × ℕ)
      → range.1 ≡ range.0 + entry.compressed
      → range ≡ (range.0, range.0 + entry.compressed)
  pair_eq entry range e = ap (λ n. (range.0, n)) e

  append_nil : {A : Type 0} (xs : List A) → xs ++ [] ≡ xs
  append_nil [] = refl
  append_nil (x ∷ xs) = ap (◌∷◌ x) (append_nil xs)

  append_one :
      {A : Type 0} (xs : List A) (y : A) (ys : List A) → (xs ++ y ∷ []) ++ ys ≡ xs ++ y ∷ ys
  append_one [] y ys = refl
  append_one (x ∷ xs) y ys = ap (◌∷◌ x) (append_one xs y ys)

  -- The loop keeps, in order, the bytes and the path of every record that it reads.
  pub read_entries-Walk :
      (limit n : ℕ) (r r' : Reading)
      → read_entries platform bytes limit trailer n r ≡ ok r'
      → r'.at ≡ trailer.finish
      → (xs : List Located) × Walk n r.at xs
        × (r'.ranges ≡ r.ranges ++ map extent xs)
        × (r'.names ≡ r.names ++ map listed_path xs)
  unfolding read_entries
  read_entries-Walk limit zero r r' h finish =
      let e = ok_eq h in
      (
        [],
        sym (ap (λ (z : Reading). z.at) e) ∙ finish,
        ap (λ (z : Reading). z.ranges) e ∙ sym (append_nil r.ranges),
        ap (λ (z : Reading). z.names) e ∙ sym (append_nil r.names),
      )
  read_entries-Walk limit (suc n) r r' h finish =
      let (m, first, rest) = >>=-eq-ok (read_entry platform bytes limit trailer r) _ h in
      let (entry, expanded, range, found, located, new, small, same, e) =
        read_entry_lem platform bytes limit trailer r m first in
      let (size, past) = local_range_extent platform bytes entry trailer.central range located in
      let (xs, walk, ranges, names) = read_entries-Walk limit n m r' rest finish in
      (
        (entry, range.0) ∷ xs,
        (
          found,
          located ∙ ap ok (pair_eq entry range size),
          past,
          subst (λ at. Walk n at xs) (ap (λ (z : Reading). z.at) e) walk,
        ),
        ranges
            ∙ ap (λ (z : Reading). z.ranges ++ map extent xs) e
            ∙ append_one r.ranges (entry.local, range.1) (map extent xs)
            ∙ ap (λ n. r.ranges ++ (entry.local, n) ∷ map extent xs) size,
        names
            ∙ ap (λ (z : Reading). z.names ++ map listed_path xs) e
            ∙ append_one r.names entry.path (map listed_path xs),
      )
