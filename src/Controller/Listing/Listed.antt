-- ===== src/Controller/Listing/Listed.antt =====
-- The order of the listed elements and the releases that are rendered for them.
use mathlib.Core.List.Permᴰ
use mathlib.Core.List.{Permᴰ}
use openspmregistry.Prelude.{
  ◌≡◌, refl, false, Option, List, [], ◌∷◌, ok, map, arith, All, if◌then◌else◌,
}
use openspmregistry.Strings.{Bytes, eq_bytes, contains}
use openspmregistry.Strings.Equality.{eq_bytes_iff}
use openspmregistry.Config.{ServerConfig}
use openspmregistry.Http.{ResponseWriter}
use openspmregistry.Sort.{SortFunc, IsStrictWeak, Ranked, less}
use openspmregistry.Sort.Insertion.{All-perm}
use openspmregistry.Models.Version.{compare_newest}
use openspmregistry.Models.Version.Sorting.{
  Parses, NotOlder, NotOlder-of_less, compare_newest-IsStrictWeak,
}
use openspmregistry.Models.Element.{Platform, ListElement}
use openspmregistry.Models.Release.{Release, at}
use openspmregistry.Repo.{Repo}
use openspmregistry.Controller.Request.{Request, request_context}
use openspmregistry.Controller.Links.{location_of_element}
use openspmregistry.Controller.Listing.{
  listed, compare_elements, list_elements, put_release, release_list,
}

abbrev pub VersionParses : ListElement → Type 0
VersionParses e = Parses e.version

abbrev pub NotOlderElement : ListElement → ListElement → Type 0
NotOlderElement a b = NotOlder a.version b.version

same_comparison :
    (a b : ListElement)
    → VersionParses a
    → VersionParses b
    → compare_elements a b ≡ compare_newest a.version b.version
unfolding compare_elements compare_newest
same_comparison a b (v, pa) (w, pb) = ground arith

compare_elements-IsStrictWeak : IsStrictWeak VersionParses compare_elements
compare_elements-IsStrictWeak = record {
  asymmetric = λ a b pa pb h. rw (same_comparison b a pb pa) (
      compare_newest-IsStrictWeak.asymmetric a.version b.version pa pb
        (rw (same_comparison a b pa pb) at h));
  unranked = λ a b c pa pb pc h k. rw (same_comparison a c pa pc) (
      compare_newest-IsStrictWeak.unranked a.version b.version c.version pa pb pc
        (rw (same_comparison a b pa pb) at h) (rw (same_comparison b c pb pc) at k));
}

not_older :
    (a b : ListElement)
    → VersionParses a
    → VersionParses b
    → less compare_elements b a ≡ false
    → NotOlderElement a b
not_older a b pa pb h = NotOlder-of_less a.version b.version (rw (same_comparison b a pb pa) at h)

Ranked-both :
    (es : List ListElement)
    → All VersionParses es
    → Ranked (λ x y. less compare_elements y x ≡ false) es
    → Ranked NotOlderElement es
Ranked-both [] ps h = tt
Ranked-both (e ∷ es) (p, ps) (first, h) = (All-both e es p ps first, Ranked-both es ps h)
  where
    All-both :
        (a : ListElement) (bs : List ListElement)
        → VersionParses a
        → All VersionParses bs
        → All (λ b. less compare_elements b a ≡ false) bs
        → All (NotOlderElement a) bs
    All-both a [] pa pbs k = tt
    All-both a (b ∷ bs) pa (pb, pbs) (k, ks) = (not_older a b pa pb k, All-both a bs pa pbs ks)

-- If the storage lists a package and every version parses, `listElements` returns the same elements
-- in an order in which none precedes one behind it, whatever the sorting algorithm does with equal
-- versions.
pub list_elements-Ranked :
    {S W : Type 0} (repo : Repo S W) (p : Platform) (c : ServerConfig) (slices : SortFunc)
    (marshal : Release → Option Bytes) (r : Request) (scope package_name : Bytes)
    (w : ResponseWriter) (s : S) (e : ListElement) (es : List ListElement)
    → repo.list (request_context r) scope package_name s ≡ ok (e ∷ es)
    → All VersionParses (e ∷ es)
    → (sorted : List ListElement) × (list_elements repo p c slices marshal r scope package_name w s
        ≡ listed sorted)
      × Permᴰ sorted (e ∷ es)
      × Ranked NotOlderElement sorted
unfolding list_elements
list_elements-Ranked repo p c slices marshal r scope package_name w s e es found parse =
    let sorted = slices.sort compare_elements (e ∷ es) in
    let perm = slices.permuted compare_elements (e ∷ es) in
    (
      sorted,
      rw found refl,
      perm,
      Ranked-both sorted (All-perm VersionParses (Permᴰ.symm perm) parse) (
          slices.sorted VersionParses compare_elements (e ∷ es) compare_elements-IsStrictWeak
            parse),
    )

abbrev empty_release : Release
empty_release = record { url = [] }

at-put_release :
    (key k : Bytes) (r : Release) (entries : List (Bytes × Release))
    → at k (put_release key r entries) ≡ (if eq_bytes key k then r else at k entries)
unfolding at put_release
at-put_release key k r [] = refl
at-put_release key k r ((j, q) ∷ entries) = ground (
  arith,
  at-put_release key k r entries,
  eq_bytes_iff j key,
  eq_bytes_iff j k,
  eq_bytes_iff key k,
)

-- an element of the package
abbrev pub element_of : Bytes → Bytes → Bytes → ListElement
element_of scope package_name version = record {
  scope = scope;
  package_name = package_name;
  version = version;
}

module _ {S W : Type 0} (repo : Repo S W) (p : Platform) (c : ServerConfig) (slices : SortFunc)
    (marshal : Release → Option Bytes) (scope package_name : Bytes) where
  abbrev pub release_of : Bytes → Release
  release_of version = record {
    url = location_of_element p c (element_of scope package_name version);
  }

  release_list-from :
      (versions : List Bytes) (entries : List (Bytes × Release)) (v : Bytes)
      → at v (
          release_list repo p c slices marshal
            (map (element_of scope package_name) versions)
            entries)
        ≡ (if contains versions v then release_of v else at v entries)
  unfolding release_list contains
  release_list-from [] entries v = refl
  release_list-from (u ∷ versions) entries v = ground (
    arith,
    release_list-from versions (put_release u (release_of u) entries) v,
    at-put_release u v (release_of u) entries,
    eq_bytes_iff u v,
    eq_bytes_iff v u,
  )

  -- The rendered map has, for exactly the versions of the rendered elements, the location of the
  -- version, also when a version is listed twice.
  pub release_list-at :
      (versions : List Bytes) (v : Bytes)
      → at v
          (release_list repo p c slices marshal (map (element_of scope package_name) versions) [])
        ≡ (if contains versions v then release_of v else record { url = [] })
  unfolding at
  release_list-at versions v = release_list-from versions [] v
