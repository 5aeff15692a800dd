-- ===== src/Models/Version/Sorting.antt =====
-- `SortVersions` puts the newest version first.
use mathlib.Core.List.{Permᴰ}
use openspmregistry.Prelude.{ok, ◌≡◌, List, arith, All, false}
use openspmregistry.Strings.{Bytes}
use openspmregistry.Sort.{SortFunc, IsStrictWeak, Ranked, Ranked-map, less}
use openspmregistry.Models.Version.{Version, compare, parse_version, compare_newest, sort_versions}
use openspmregistry.Models.Version.Order.{Precedes, compare-lt_iff, compare-IsStrictWeak}
use openspmregistry.Models.Version.Parsing.{parse_version-IsNatural}

abbrev pub Parses : Bytes → Type 0
Parses s = (v : Version) × (parse_version s ≡ ok v)

-- The second text is no version that the first precedes.
abbrev pub NotOlder : Bytes → Bytes → Type 0
NotOlder a b = (v w : Version) → parse_version a ≡ ok v → parse_version b ≡ ok w → ¬ Precedes v w

compare_newest_lem :
    (a b : Bytes) (v w : Version)
    → parse_version a ≡ ok v
    → parse_version b ≡ ok w
    → compare_newest a b ≡ compare w v
unfolding compare_newest
compare_newest_lem a b v w ha hb = ground arith

pub compare_newest-IsStrictWeak : IsStrictWeak Parses compare_newest
compare_newest-IsStrictWeak = record {
  asymmetric = λ a b (v, pa) (w, pb) h. rw (compare_newest_lem b a w v pb pa) (
      compare-IsStrictWeak.asymmetric v w (parse_version-IsNatural a v pa)
        (parse_version-IsNatural b w pb) (rw (compare_newest_lem a b v w pa pb) at h));
  unranked = λ a b c (u, pa) (v, pb) (w, pc) h k. rw (compare_newest_lem a c u w pa pc) (
      compare-IsStrictWeak.unranked u v w (parse_version-IsNatural a u pa)
        (parse_version-IsNatural b v pb) (parse_version-IsNatural c w pc)
        (rw (compare_newest_lem a b u v pa pb) at h) (rw (compare_newest_lem b c v w pb pc) at k));
}

pub NotOlder-of_less : (a b : Bytes) → less compare_newest b a ≡ false → NotOlder a b
NotOlder-of_less a b h v w pa pb p =
    let natural_v = parse_version-IsNatural a v pa in
    let natural_w = parse_version-IsNatural b w pb in
    let before = (compare-lt_iff v w natural_v natural_w).1 p in
    cc (rw (compare_newest_lem b a w v pb pa) at h, before)

-- If every version parses, `SortVersions` returns the same versions in an order in which none
-- precedes, as a version, one that stands behind it.
pub sort_versions-Ranked :
    (slices : SortFunc) (versions : List Bytes)
    → All Parses versions
    → Permᴰ (sort_versions slices versions) versions
      × Ranked NotOlder (sort_versions slices versions)
unfolding sort_versions
sort_versions-Ranked slices versions h = (
  slices.permuted compare_newest versions,
  Ranked-map _ NotOlder-of_less
      (slices.sorted Parses compare_newest versions compare_newest-IsStrictWeak h),
)
