-- ===== src/Models/Release.antt =====
-- `ListRelease` of models/models.go and its `MarshalJSON`. A Go map is a list of its entries, in
-- the order in which the loop over it happens to meet them.
pub mod Json
use openspmregistry.Prelude.{
  ◌-◌, Bool, Option, none, some, List, [], ◌∷◌, ◌++◌, map, if◌then◌else◌, length, take,
}
use openspmregistry.Strings.{Bytes, codes, eq_bytes}
use openspmregistry.Sort.{SortFunc}
use openspmregistry.Models.Version.{sort_versions}

pub record Release : Type 0 where
  pub url : Bytes

-- `none` is a nil map.
pub record ListRelease : Type 0 where
  pub releases : Option (List (Bytes × Release))

abbrev empty_release : Release
empty_release = record { url = [] }

-- l.Releases[key]: the zero value for a key that is not there
unfoldable pub at : Bytes → List (Bytes × Release) → Release
at key [] = empty_release
at key ((k, r) ∷ entries) = if eq_bytes k key then r else at key entries

abbrev keys_of : List (Bytes × Release) → List Bytes
keys_of = map (λ e. e.0)

unfoldable pub sort_releases : SortFunc → List (Bytes × Release) → List Bytes × List Release
sort_releases slices entries =
    let keys = sort_versions slices (keys_of entries) in (keys, map (λ k. at k entries) keys)

abbrev or_null : Option Bytes → Bytes
or_null none = codes "null"
or_null (some text) = text

-- b.Truncate(b.Len() - 1) when a key was written
unfoldable pub truncate : List Bytes → Bytes → Bytes
truncate [] b = b
truncate (_ ∷ _) b = take (length b - 1) b

-- `marshal` is json.Marshal on a release; `none` is an error.
module _ (marshal : Release → Option Bytes) where
  -- the loop over the sorted keys; the key is written as it is
  unfoldable pub write_releases : List Bytes → List Release → Bytes → Bytes
  write_releases (key ∷ keys) (r ∷ rs) b =
      write_releases keys rs
        (b ++ (codes "\"" ++ (key ++ (codes "\":" ++ (or_null (marshal r) ++ codes ",")))))
  write_releases keys rs b = b

module _ (slices : SortFunc) (marshal : Release → Option Bytes) where
  unfoldable pub marshal_entries : Option (List (Bytes × Release)) → Bytes → Bytes
  unfolding write_releases truncate
  marshal_entries none b = b ++ codes "null"
  marshal_entries (some entries) b =
      let (keys, sorted) = sort_releases slices entries in
      truncate keys (write_releases marshal keys sorted (b ++ codes "{")) ++ codes "}"

  -- `none` is a nil receiver.
  unfoldable pub marshal_json : Option ListRelease → Bytes
  unfolding marshal_entries
  marshal_json none = codes "null"
  marshal_json (some l) = marshal_entries l.releases (codes "{\"releases\":") ++ codes "}"
