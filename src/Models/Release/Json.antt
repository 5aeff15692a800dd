-- ===== src/Models/Release/Json.antt =====
-- The JSON text of a list of releases.
use openspmregistry.Strings.Equality.{take-append}
use openspmregistry.Prelude.{
  ℕ, sym, ◌∙◌, ◌-◌, ◌≡◌, refl, Option, some, List, [], ◌∷◌, ◌++◌, map, append_assoc, append-nil,
  arith, length, take, length-append, ap,
}
use openspmregistry.Strings.{Bytes, codes, join}
use openspmregistry.Sort.{SortFunc}
use openspmregistry.Models.Version.{sort_versions}
use openspmregistry.Models.Release.{
  Release, at, keys_of, or_null, sort_releases, write_releases, truncate, marshal_json,
}

last_length : (s : Bytes) (c : ℕ) → length (s ++ (c ∷ [])) - 1 ≡ length s
last_length s c = omega (arith, length-append {0} s (c ∷ []))

drop_last : (s : Bytes) (c : ℕ) → take (length (s ++ (c ∷ [])) - 1) (s ++ (c ∷ [])) ≡ s
drop_last s c = rw (last_length s c) (take-append s (c ∷ []))

module _ (marshal : Release → Option Bytes) (value : Bytes → Release) where
  -- one member of the object
  abbrev pub entry : Bytes → Bytes
  entry key = codes "\"" ++ (key ++ (codes "\":" ++ or_null (marshal (value key))))

  -- the members, each with the comma behind it
  with_commas : List Bytes → Bytes
  with_commas [] = []
  with_commas (key ∷ keys) = entry key ++ (codes "," ++ with_commas keys)

  write_releases-map :
      (keys : List Bytes) (b : Bytes)
      → write_releases marshal keys (map value keys) b ≡ b ++ with_commas keys
  unfolding write_releases with_commas
  write_releases-map [] b = sym (append-nil b)
  write_releases-map (key ∷ keys) b = write_releases-map keys _ ∙ simp (append_assoc)

  with_commas-join :
      (key : Bytes) (keys : List Bytes)
      → with_commas (key ∷ keys) ≡ join (map entry (key ∷ keys)) (codes ",") ++ codes ","
  unfolding with_commas join
  with_commas-join key [] = refl
  with_commas-join key (k ∷ keys) =
      ap (λ t. entry key ++ (codes "," ++ t)) (with_commas-join k keys)
      ∙ sym (append_assoc (entry key) _ _)

  truncate-write_releases :
      (keys : List Bytes) (b : Bytes)
      → truncate keys (write_releases marshal keys (map value keys) b)
        ≡ b ++ join (map entry keys) (codes ",")
  unfolding truncate
  truncate-write_releases [] b = unfold write_releases join in sym (append-nil b)
  truncate-write_releases (key ∷ keys) b =
      rw (write_releases-map (key ∷ keys) b, with_commas-join key keys, ← append_assoc b)
        (drop_last (b ++ join (map entry (key ∷ keys)) (codes ",")) b',')

-- The JSON text of a map of releases is an object with the one member "releases": an object with a
-- member for each key, in the order of `SortVersions`, with commas between the members and none
-- behind the last, whatever the number of keys.
pub marshal_json-join :
    (slices : SortFunc) (marshal : Release → Option Bytes) (entries : List (Bytes × Release))
    → marshal_json slices marshal (some (record { releases = some entries }))
      ≡ codes "{\"releases\":{"
        ++ (join
              (map (entry marshal (λ k. at k entries)) (sort_versions slices (keys_of entries)))
              (codes ",")
            ++ codes "}}")
unfolding marshal_json sort_releases
marshal_json-join slices marshal entries =
    rw
      (truncate-write_releases marshal (λ k. at k entries) (sort_versions slices (keys_of entries))
        (codes "{\"releases\":{"))
      (simp (append_assoc))
