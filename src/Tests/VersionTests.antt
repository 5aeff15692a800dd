-- ===== src/Tests/VersionTests.antt =====
-- models/models.go: the theorems at concrete inputs.
use mathlib.Core.List.{Permᴰ}
use openspmregistry.Prelude.{◌≡◌, refl, ◌↔◌, arith, true, Option, some, List, [], ◌∷◌, ok, All}
use openspmregistry.Int.{pos, lt_int}
use openspmregistry.Strings.{Bytes, codes}
use openspmregistry.Sort.{Ranked}
use openspmregistry.Sort.Insertion.{by_insertion}
use openspmregistry.Models.Version.{Version, compare, parse_version, sort_versions}
use openspmregistry.Models.Version.Order.{IsNatural, Precedes, compare-lt_iff}
use openspmregistry.Models.Version.Sorting.{Parses, NotOlder, sort_versions-Ranked}
use openspmregistry.Models.Release.{Release}
use openspmregistry.Models.Element.{UploadElement, metadata_signature, new_upload_element}

abbrev v1_2_3 : Version
v1_2_3 = record { major = pos 1; minor = pos 2; patch = pos 3; suffix = [] }

abbrev v1_2_3_rc : Version
v1_2_3_rc = record { major = pos 1; minor = pos 2; patch = pos 3; suffix = codes "rc.1" }

parse_v1_2_3 : parse_version (codes "1.2.3") ≡ ok v1_2_3
unfolding parse_version
parse_v1_2_3 = refl

parse_v1_2_3_rc : parse_version (codes "1.2.3-rc.1") ≡ ok v1_2_3_rc
unfolding parse_version
parse_v1_2_3_rc = refl

v1_2_3-IsNatural : IsNatural v1_2_3
v1_2_3-IsNatural = record { major = omega arith; minor = omega arith; patch = omega arith }

v1_2_3_rc-IsNatural : IsNatural v1_2_3_rc
v1_2_3_rc-IsNatural = record { major = omega arith; minor = omega arith; patch = omega arith }

compare-lt_iff_example :
    (lt_int (compare v1_2_3_rc v1_2_3) (pos 0) ≡ true) ↔ Precedes v1_2_3_rc v1_2_3
compare-lt_iff_example = compare-lt_iff v1_2_3_rc v1_2_3 v1_2_3_rc-IsNatural v1_2_3-IsNatural

compare_itself : compare v1_2_3_rc v1_2_3_rc ≡ pos 0
unfolding compare
compare_itself = refl

abbrev two_versions : List Bytes
two_versions = codes "1.2.3-rc.1" ∷ codes "1.2.3" ∷ []

two_versions-Parses : All Parses two_versions
two_versions-Parses = ((v1_2_3_rc, parse_v1_2_3_rc), ((v1_2_3, parse_v1_2_3), tt))

sort_versions-Ranked_example :
    Permᴰ (sort_versions by_insertion two_versions) two_versions
    × Ranked NotOlder (sort_versions by_insertion two_versions)
sort_versions-Ranked_example = sort_versions-Ranked by_insertion two_versions two_versions-Parses

abbrev two_releases : List (Bytes × Release)
two_releases =
    (codes "1.2.3-rc.1", record { url = codes "a" })
    ∷ (codes "1.2.3", record { url = codes "b" })
    ∷ []

abbrev marshal_url : Release → Option Bytes
marshal_url r = some r.url

abbrev signature : UploadElement
signature =
    new_upload_element (codes "s") (codes "n") (codes "1.0.0") (codes "application/zip")
      metadata_signature
