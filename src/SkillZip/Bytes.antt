-- ===== src/SkillZip/Bytes.antt =====
-- skill-zip.ts, `reader`, `endOfCentralDirectory` and `entryPath`: the bytes of an archive are a list,
-- and a read outside of them throws, which the archive's reader turns into its one rejection. A
-- decoded name is the list of its UTF-16 units.
use cf_open_agents_api.Prelude.{
  ℕ, zero, suc, ◌+◌, ◌-◌, ◌*◌, ◌≡◌, refl, ◌↔◌, Bool, true, false, not, ◌&&◌, ◌||◌, Option, none,
  some, List, [], ◌∷◌, length, drop, take, any, Result, ok, err, guard, or_throw, ◌>>=◌, ◌>>◌,
  if◌then◌else◌, ltb, Equality, ◌==◌, nat_eq, nat_beq_iff, arith, subst,
}

-- `SkillInvalid` with its one reason here, and `SkillTooLarge`.
pub data ZipError : Type 0 where
  skill_invalid : ZipError
  skill_too_large : ZipError

abbrev pub Checked : Type 0 → Type 0
Checked A = Result ZipError A

-- `if (test) throw invalid()`
abbrev pub reject_if : Bool → Checked (Unit {0})
reject_if test = guard (not test) skill_invalid

abbrev pub byte_at : List ℕ → ℕ → Option ℕ
byte_at [] at = none
byte_at (b ∷ bytes) zero = some b
byte_at (b ∷ bytes) (suc at) = byte_at bytes at

-- `archive.u16(at)`, little-endian
unfoldable pub u16 : List ℕ → ℕ → Checked ℕ
u16 bytes at = do
  low ← or_throw (byte_at bytes at) skill_invalid
  high ← or_throw (byte_at bytes (at + 1)) skill_invalid
  ok (low + 256 * high)

-- `archive.u32(at)`, little-endian
unfoldable pub u32 : List ℕ → ℕ → Checked ℕ
u32 bytes at = do low ← u16 bytes at; high ← u16 bytes (at + 2); ok (low + 65536 * high)

-- `data.subarray(start, finish)`
abbrev pub subarray : List ℕ → ℕ → ℕ → List ℕ
subarray bytes start finish = take (finish - start) (drop start bytes)

abbrev pub same_units : List ℕ → List ℕ → Bool
same_units [] [] = true
same_units [] (y ∷ ys) = false
same_units (x ∷ xs) [] = false
same_units (x ∷ xs) (y ∷ ys) = x == y && same_units xs ys

same_units_eq : (xs ys : List ℕ) → same_units xs ys ≡ true → xs ≡ ys
same_units_eq [] [] h = refl
same_units_eq [] (y ∷ ys) h = cc
same_units_eq (x ∷ xs) [] h = cc
same_units_eq (x ∷ xs) (y ∷ ys) h = ground (arith, same_units_eq xs ys, nat_beq_iff x y)

same_units_refl : (xs : List ℕ) → same_units xs xs ≡ true
same_units_refl [] = refl
same_units_refl (x ∷ xs) = ground (arith, same_units_refl xs, nat_beq_iff x x)

pub same_units_iff : (xs ys : List ℕ) → (same_units xs ys ≡ true) ↔ (xs ≡ ys)
same_units_iff xs ys =
    (same_units_eq xs ys, λ e. subst (λ zs. same_units xs zs ≡ true) e (same_units_refl xs))

instance abbrev pub units_eq : Equality (List ℕ)
units_eq = record { equal = same_units; equal_iff = same_units_iff }

-- `END_OF_CENTRAL_DIRECTORY`
abbrev pub end_of_central_directory_mark : ℕ
end_of_central_directory_mark = 0x06054b50

-- Where the archive ends by the record at an offset, once that is one: the loop's test.
unfoldable pub trailer_at : List ℕ → ℕ → Checked Bool
trailer_at bytes at = do
  mark ← u32 bytes at
  comment ← (if mark == end_of_central_directory_mark then u16 bytes (at + 20) else ok 0)
  ok (mark == end_of_central_directory_mark && at + 22 + comment == length bytes)

-- The loop `while (…) end--`: where it leaves `end`, which is none for -1.
unfoldable pub scan : List ℕ → ℕ → ℕ → Checked (Option ℕ)
scan bytes low zero =
    if ltb 0 low
    then ok (some 0)
    else trailer_at bytes 0 >>= λ (there : Bool). ok (if there then some 0 else none)
scan bytes low (suc at) =
    let rest = scan bytes low at in
    if ltb (suc at) low
    then ok (some (suc at))
    else trailer_at bytes (suc at) >>= λ (there : Bool).
        (if there then ok (some (suc at)) else rest)

pub record Trailer : Type 0 where
  pub finish : ℕ
  pub count : ℕ
  pub central : ℕ

unfoldable pub trailer_from : List ℕ → ℕ → Checked Trailer
trailer_from bytes at = do
  mark ← u32 bytes at
  reject_if (not (mark == end_of_central_directory_mark))
  disk ← u16 bytes (at + 4)
  reject_if (not (disk == 0))
  central_disk ← u16 bytes (at + 6)
  reject_if (not (central_disk == 0))
  here ← u16 bytes (at + 8)
  count ← u16 bytes (at + 10)
  reject_if (not (here == count))
  central ← u32 bytes (at + 16)
  reject_if (count == 0 || ltb 1000 count)
  size ← u32 bytes (at + 12)
  reject_if (not (central + size == at))
  ok (record { finish = at; count = count; central = central })

-- `endOfCentralDirectory(reader)`
unfoldable pub end_of_central_directory : List ℕ → Checked Trailer
end_of_central_directory bytes = if ltb (length bytes) 22 then err skill_invalid else do
  found ← scan bytes (length bytes - 65557) (length bytes - 22)
  at ← or_throw found skill_invalid
  trailer_from bytes at

-- `name.split("/")`: the first part, and the others.
abbrev pub split_slash : List ℕ → List ℕ × List (List ℕ)
split_slash [] = ([], [])
split_slash (c ∷ cs) =
    let (part, parts) = split_slash cs in
    if c == b'/' then ([], part ∷ parts) else (c ∷ part, parts)

abbrev pub parts_of : List ℕ → List (List ℕ)
parts_of path = let (part, parts) = split_slash path in part ∷ parts

-- A directory's name, less its slash.
abbrev pub without_slash : List ℕ → Option (List ℕ)
without_slash [] = none
without_slash (c ∷ []) = if c == b'/' then some [] else none
without_slash (c ∷ d ∷ cs) = elim (without_slash (d ∷ cs)) [
  | none ↦ none
  | some path ↦ some (c ∷ path)
]

abbrev pub is_empty : List ℕ → Bool
is_empty [] = true
is_empty (c ∷ cs) = false

abbrev pub bad_part : List ℕ → Bool
bad_part part = is_empty part || part == b'.' ∷ [] || part == b'.' ∷ b'.' ∷ []

abbrev pub bad_unit : ℕ → Bool
bad_unit c = c == 92 || c == b':' || ltb c 32

abbrev pub bad_path : List ℕ → Bool
bad_path path = is_empty path || any bad_unit path || any bad_part (parts_of path)

abbrev pub path_and_kind : List ℕ → Option (List ℕ) → List ℕ × Bool
path_and_kind name none = (name, false)
path_and_kind name (some path) = (path, true)

-- `entryPath(name)`: the path, and whether it is a directory.
unfoldable pub entry_path : List ℕ → Checked (List ℕ × Bool)
entry_path name =
    let named = path_and_kind name (without_slash name) in
    (reject_if (bad_path named.0) >> ok named)
