-- ===== src/SkillZip/Found.antt =====
-- skill-zip.ts, `endOfCentralDirectory`: where the record stands that it finds.
use cf_open_agents_api.Prelude.{
  ℕ, zero, suc, ◌+◌, ◌-◌, ◌≤◌, ◌≡◌, sym, ap, ◌∙◌, subst, Bool, true, ◌&&◌, ◌⊎◌, inl, inr, Option,
  none, some, List, length, ok, or_throw, ◌>>=◌, if◌then◌else◌, ltb, ◌==◌, nat_eq, nat_beq_iff,
  arith, Bool-cases, >>=-eq-ok, or_throw-eq-ok,
}
use cf_open_agents_api.SkillZip.Bytes.{
  skill_invalid, Trailer, u16, u32, trailer_at, scan, trailer_from, end_of_central_directory_mark,
  end_of_central_directory,
}

-- The record's comment ends where the archive does.
abbrev pub EndsArchive : List ℕ → ℕ → Type 0
EndsArchive bytes at =
    (comment : ℕ) × (u16 bytes (at + 20) ≡ ok comment) × (at + 22 + comment ≡ length bytes)

module _ (bytes : List ℕ) where
  commented :
      (at mark : ℕ)
      → ((if mark == end_of_central_directory_mark then u16 bytes (at + 20) else ok 0)
          >>= λ (comment : ℕ).
              ok (mark == end_of_central_directory_mark && at + 22 + comment == length bytes))
        ≡ ok true
      → EndsArchive bytes at
  commented at mark h = elim (Bool-cases (mark == end_of_central_directory_mark)) [
    | inr e ↦ absurd (ground arith)
    | inl e ↦
        let g : (u16 bytes (at + 20) >>= λ (comment : ℕ). ok (at + 22 + comment == length bytes))
            ≡ ok true =
          rw e at h in
        let (comment, read, fits) = >>=-eq-ok (u16 bytes (at + 20)) _ g in
        (comment, read, ground (arith, nat_beq_iff (at + 22 + comment) (length bytes)))
  ]

  trailer_at_lem : (at : ℕ) → trailer_at bytes at ≡ ok true → EndsArchive bytes at
  unfolding trailer_at
  trailer_at_lem at h = let (mark, read, h1) = >>=-eq-ok (u32 bytes at) _ h in commented at mark h1

  scan_lem :
      (low at e : ℕ)
      → low ≤ suc at
      → scan bytes low at ≡ ok (some e)
      → EndsArchive bytes e ⊎ (e + 1 ≡ low)
  unfolding scan
  scan_lem low zero e le h = elim (Bool-cases (ltb 0 low)) [
    | inl past ↦ inr (ground arith)
    | inr here ↦
        let g : (trailer_at bytes 0 >>= λ (there : Bool). ok (if there then some 0 else none))
            ≡ ok (some e) =
          rw here at h in
        let (there, read, h1) = >>=-eq-ok (trailer_at bytes 0) _ g in
        let found_here : there ≡ true = ground arith in
        let same : 0 ≡ e = ground arith in
        inl (subst (EndsArchive bytes) same (trailer_at_lem 0 (read ∙ ap (λ b. ok b) found_here)))
  ]
  scan_lem low (suc at) e le h = elim (Bool-cases (ltb (suc at) low)) [
    | inl past ↦ inr (ground arith)
    | inr here ↦
        let g : (trailer_at bytes (suc at) >>= λ (there : Bool).
        (if there then ok (some (suc at)) else scan bytes low at))
            ≡ ok (some e) =
          rw here at h in
        let (there, read, h1) = >>=-eq-ok (trailer_at bytes (suc at)) _ g in
        elim (Bool-cases there) [
          | inl found_here ↦
              let same : suc at ≡ e = ground arith in
              inl (
                subst (EndsArchive bytes) same
                  (trailer_at_lem (suc at) (read ∙ ap (λ b. ok b) found_here)))
          | inr not_here ↦ scan_lem low at e (ground arith) (ground arith)
        ]
  ]

  trailer_from_finish :
      (at : ℕ) (trailer : Trailer) → trailer_from bytes at ≡ ok trailer → trailer.finish ≡ at
  unfolding trailer_from
  trailer_from_finish at trailer h = ground arith

  -- The record that ends the central directory is found where its comment ends with the archive, or else
  -- 65,558 bytes before the end of the archive: one byte before the range that is searched, where the
  -- comment is not looked at.
  pub trailer_found :
      (trailer : Trailer)
      → end_of_central_directory bytes ≡ ok trailer
      → EndsArchive bytes trailer.finish ⊎ (trailer.finish + 65558 ≡ length bytes)
  unfolding end_of_central_directory
  trailer_found trailer h = elim (Bool-cases (ltb (length bytes) 22)) [
    | inl short ↦ absurd (ground arith)
    | inr long ↦
        let h1 : (scan bytes (length bytes - 65557) (length bytes - 22) >>= λ (found : Option ℕ).
        (or_throw found skill_invalid >>= trailer_from bytes))
            ≡ ok trailer =
          rw long at h in
        let (found, scanned, h2) =
          >>=-eq-ok (scan bytes (length bytes - 65557) (length bytes - 22)) _ h1 in
        let (at, there, h3) = >>=-eq-ok (or_throw found skill_invalid) _ h2 in
        let here : found ≡ some at = or_throw-eq-ok found skill_invalid there in
        let finish = trailer_from_finish at trailer h3 in
        elim (scan_lem (length bytes - 65557) (length bytes - 22) at (omega arith)
          (scanned ∙ ap (λ o. ok o) here)) [
            | inl ends ↦ inl (subst (EndsArchive bytes) (sym finish) ends)
            | inr before ↦ inr (ground arith)
          ]
  ]
