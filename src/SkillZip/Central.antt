-- ===== src/SkillZip/Central.antt =====
-- skill-zip.ts, from `centralEntry` to `assertNoFileDirectories`: one record of the central directory,
-- the range of its data, and the checks between entries. How deflated bytes expand, how UTF-8 decodes
-- and what checksum bytes have belongs to the platform.
use Prim.Native.Nat.{◌/◌, bit_and}
use cf_open_agents_api.Prelude.{
  ℕ, zero, suc, ◌+◌, ◌-◌, Bool, true, false, not, ◌&&◌, ◌||◌, Option, List, [], ◌∷◌, ◌++◌, length,
  drop, take, any, contains, max, ok, guard, or_throw, ◌>>=◌, ◌>>◌, if◌then◌else◌, ltb, leb, ◌==◌,
  nat_eq,
}
use cf_open_agents_api.SkillZip.Bytes.{
  skill_invalid, Checked, reject_if, u16, u32, subarray, units_eq, parts_of, entry_path,
}

-- What the platform gives: the text of bytes that are UTF-8, the bytes that deflated ones expand to
-- within a limit with the number of those that it read, and a checksum.
pub record Platform : Type 0 where
  pub decode : List ℕ → Option (List ℕ)
  pub inflate : List ℕ → ℕ → Option (List ℕ × ℕ)
  pub crc32 : List ℕ → ℕ

-- `CentralEntry`
pub record CentralEntry : Type 0 where
  pub flags : ℕ
  pub method : ℕ
  pub crc : ℕ
  pub compressed : ℕ
  pub expanded : ℕ
  pub filename : List ℕ
  pub name : List ℕ
  pub directory : Bool
  pub path : List ℕ
  pub mode : ℕ
  pub local : ℕ
  pub next : ℕ

-- `CENTRAL_HEADER` and `LOCAL_HEADER`
abbrev pub central_header : ℕ
central_header = 0x02014b50

abbrev pub local_header : ℕ
local_header = 0x04034b50

abbrev kind_of : Bool → ℕ
kind_of true = 0x4000
kind_of false = 0x8000

-- `assertKind(entry, names)`
unfoldable pub assert_kind : CentralEntry → List (List ℕ) → Checked (Unit {0})
assert_kind entry names =
    let kind = bit_and entry.mode 0xf000 in
    reject_if
      (contains names entry.path || not (kind == 0) && not (kind == kind_of entry.directory))

abbrev pub starts_with : List ℕ → List ℕ → Bool
starts_with [] bytes = true
starts_with (x ∷ xs) [] = false
starts_with (x ∷ xs) (y ∷ ys) = x == y && starts_with xs ys

module _ (platform : Platform) (bytes : List ℕ) where
  -- `centralEntry(reader, at, end)`. The bits that `~0x080e` leaves of a 16-bit number are 0xf7f1.
  unfoldable pub central_entry : ℕ → ℕ → Checked CentralEntry
  central_entry at finish = do
    reject_if (ltb finish (at + 46))
    mark ← u32 bytes at
    reject_if (not (mark == central_header))
    flags ← u16 bytes (at + 8)
    method ← u16 bytes (at + 10)
    crc ← u32 bytes (at + 16)
    compressed ← u32 bytes (at + 20)
    expanded ← u32 bytes (at + 24)
    name_length ← u16 bytes (at + 28)
    extra ← u16 bytes (at + 30)
    comment ← u16 bytes (at + 32)
    attributes ← u32 bytes (at + 38)
    local ← u32 bytes (at + 42)
    reject_if (not (bit_and flags 0xf7f1 == 0))
    reject_if (not (method == 0 || method == 8))
    disk ← u16 bytes (at + 34)
    reject_if (not (disk == 0))
    reject_if (ltb finish (at + 46 + name_length + extra + comment))
    reject_if (name_length == 0 || ltb 1024 name_length)
    let filename = subarray bytes (at + 46) (at + 46 + name_length)
    name ← or_throw (platform.decode filename) skill_invalid
    named ← entry_path name
    ok (record {
      flags = flags;
      method = method;
      crc = crc;
      compressed = compressed;
      expanded = expanded;
      filename = filename;
      name = name;
      directory = named.1;
      path = named.0;
      mode = attributes / 65536;
      local = local;
      next = at + 46 + name_length + extra + comment;
    })

  -- The sizes of a local header, unless they follow the data.
  unfoldable pub check_sizes : CentralEntry → Bool → Checked (Unit {0})
  check_sizes entry false = ok tt
  check_sizes entry true = do
    crc ← u32 bytes (entry.local + 14)
    reject_if (not (crc == entry.crc))
    compressed ← u32 bytes (entry.local + 18)
    reject_if (not (compressed == entry.compressed))
    expanded ← u32 bytes (entry.local + 22)
    reject_if (not (expanded == entry.expanded))

  -- `localRange(reader, entry, central)`: where the compressed bytes start and finish.
  unfoldable pub local_range : CentralEntry → ℕ → Checked (ℕ × ℕ)
  local_range entry central = do
    reject_if (ltb central (entry.local + 30))
    mark ← u32 bytes entry.local
    reject_if (not (mark == local_header))
    flags ← u16 bytes (entry.local + 6)
    reject_if (not (flags == entry.flags))
    method ← u16 bytes (entry.local + 8)
    reject_if (not (method == entry.method))
    name_length ← u16 bytes (entry.local + 26)
    reject_if (not (name_length == length entry.filename))
    reject_if (not (starts_with entry.filename (drop (entry.local + 30) bytes)))
    check_sizes entry (bit_and entry.flags 8 == 0)
    extra ← u16 bytes (entry.local + 28)
    let start = entry.local + 30 + length entry.filename + extra
    reject_if (ltb central start || ltb central (start + entry.compressed))
    ok (start, start + entry.compressed)

  unfoldable pub inflated_bytes : List ℕ → ℕ → Checked (List ℕ)
  inflated_bytes source expanded = do
    inflated ← or_throw (platform.inflate source (max 1 expanded)) skill_invalid
    reject_if (not (inflated.1 == length source))
    ok inflated.0

  -- `entryBytes(source, entry)`
  unfoldable pub entry_bytes : List ℕ → CentralEntry → Checked (List ℕ)
  entry_bytes source entry =
      if entry.method == 8 then inflated_bytes source entry.expanded else ok source

-- `ranges.sort(([a], [b]) => a - b)`, which keeps the order of equal keys.
abbrev pub insert_range : ℕ × ℕ → List (ℕ × ℕ) → List (ℕ × ℕ)
insert_range r [] = r ∷ []
insert_range r (s ∷ ss) =
    let rest = insert_range r ss in if leb r.0 s.0 then r ∷ s ∷ ss else s ∷ rest

abbrev pub sort_ranges : List (ℕ × ℕ) → List (ℕ × ℕ)
sort_ranges [] = []
sort_ranges (r ∷ rs) = insert_range r (sort_ranges rs)

-- Each range starts where the one before it has finished, or later.
abbrev pub follows_on : List (ℕ × ℕ) → Bool
follows_on [] = true
follows_on (r ∷ []) = true
follows_on (r ∷ s ∷ ss) = leb r.1 s.0 && follows_on (s ∷ ss)

-- `assertDisjoint(ranges)`
unfoldable pub assert_disjoint : List (ℕ × ℕ) → Checked (Unit {0})
assert_disjoint ranges = guard (follows_on (sort_ranges ranges)) skill_invalid

-- `parts.join("/")`
abbrev pub joined_parts : List (List ℕ) → List ℕ
joined_parts [] = []
joined_parts (p ∷ []) = p
joined_parts (p ∷ q ∷ ps) = p ++ (b'/' ∷ joined_parts (q ∷ ps))

-- Whether the first `n` parts of a path, or any fewer, are a file; the loop runs over `length`.
abbrev pub prefix_is_file : List (List ℕ) → List (List ℕ) → ℕ → Bool
prefix_is_file files parts zero = false
prefix_is_file files parts (suc n) =
    contains files (joined_parts (take (suc n) parts)) || prefix_is_file files parts n

abbrev pub below_file : List (List ℕ) → List ℕ → Bool
below_file files name = let parts = parts_of name in prefix_is_file files parts (length parts - 1)

-- `assertNoFileDirectories(names, entries)`
unfoldable pub assert_no_file_directories : List (List ℕ) → List (List ℕ) → Checked (Unit {0})
assert_no_file_directories names files = reject_if (any (below_file files) names)
