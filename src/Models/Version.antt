-- ===== src/Models/Version.antt =====
-- `Version`, `ParseVersion` and `SortVersions` of models/models.go.
pub mod Order
pub mod Parsing
pub mod Sorting
use openspmregistry.Prelude.{
  ◌≡◌, refl, Result, ok, err, ◌>>=◌, Bool, true, false, not, List, [], ◌∷◌, if◌then◌else◌,
}
use openspmregistry.Int.{ℤ, pos, negsuc, eq_int, sub_int}
use openspmregistry.Strings
use openspmregistry.Strings.{Bytes, codes, eq_bytes, is_empty, contains_byte, split}
use openspmregistry.Strings.Numbers.{atoi}
use openspmregistry.Sort.{SortFunc}

pub record Version : Type 0 where
  pub major : ℤ
  pub minor : ℤ
  pub patch : ℤ
  pub suffix : Bytes

-- the part of `Compare` behind the three numbers
unfoldable pub compare_suffix : Bytes → Bytes → ℤ
unfolding eq_bytes Strings.compare
compare_suffix s t =
    if eq_bytes s t
    then pos 0
    else if not (is_empty s)
    then (if not (is_empty t) then Strings.compare s t else negsuc 0)
    else pos 1

unfoldable pub compare : Version → Version → ℤ
unfolding compare_suffix sub_int
compare v w =
    if not (eq_int v.major w.major)
    then sub_int v.major w.major
    else if not (eq_int v.minor w.minor)
    then sub_int v.minor w.minor
    else if not (eq_int v.patch w.patch)
    then sub_int v.patch w.patch
    else compare_suffix v.suffix w.suffix

-- strconv.Atoi with its error
unfoldable pub number : Bytes → Result ℤ
unfolding atoi
number s = let (n, good) = atoi s in if good then ok n else err (codes "strconv.Atoi")

-- the two appends of a missing "0"
unfoldable pub pad : List Bytes → List Bytes
pad [] = codes "0" ∷ codes "0" ∷ []
pad (a ∷ []) = a ∷ codes "0" ∷ codes "0" ∷ []
pad (a ∷ b ∷ []) = a ∷ b ∷ codes "0" ∷ []
pad parts = parts

-- The parts behind the third are not read. Fewer than three do not come out of `pad`.
unfoldable pub numbers : List Bytes → Bytes → Result Version
unfolding number
numbers (a ∷ b ∷ c ∷ _) suffix = do
  major ← number a
  minor ← number b
  patch ← number c
  ok (record { major = major; minor = minor; patch = patch; suffix = suffix })
numbers _ suffix = err (codes "index out of range")

unfoldable pub parse_core : Bytes → Bytes → Result Version
unfolding numbers pad split
parse_core core suffix = numbers (pad (split core b'.')) suffix

-- The split of a text that holds a dash has two parts at least.
unfoldable pub parse_suffixed : List Bytes → Result Version
unfolding parse_core
parse_suffixed (core ∷ suffix ∷ []) =
    if is_empty suffix
    then err (codes "suffix cannot be empty once specified")
    else parse_core core suffix
parse_suffixed _ = err (codes "version string must have at only 1 suffix")

unfoldable pub parse_version : Bytes → Result Version
unfolding parse_suffixed contains_byte split
parse_version s = if contains_byte b'-' s then parse_suffixed (split s b'-') else parse_core s []

-- The comparison of `SortVersions`: newest first, and what does not parse behind the rest.
unfoldable pub compare_newest : Bytes → Bytes → ℤ
compare_newest a b = elim (parse_version a) [
  | err _ ↦ pos 1
  | ok v1 ↦ elim (parse_version b) [ err _ ↦ negsuc 0 | ok v2 ↦ compare v2 v1 ]
]

module _ (slices : SortFunc) where
  unfoldable pub sort_versions : List Bytes → List Bytes
  sort_versions versions = slices.sort compare_newest versions

parse_tests :
    (parse_version (codes "1.2")
      ≡ ok (record { major = pos 1; minor = pos 2; patch = pos 0; suffix = [] }))
    × (parse_version (codes "1.0.0-") ≡ err (codes "suffix cannot be empty once specified"))
    × (parse_version (codes "1.0.0+b") ≡ err (codes "strconv.Atoi"))
unfolding parse_version
parse_tests = (refl, refl, refl)
