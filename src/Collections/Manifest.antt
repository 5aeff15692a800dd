-- ===== src/Collections/Manifest.antt =====
-- `convertPackageJsonToManifest`, `extractAuthor` and `stripPatchVersion` of repo/collections.go.
use openspmregistry.Prelude.{
  ◌≡◌, refl, Bool, Option, none, some, List, [], ◌∷◌, ◌++◌, if◌then◌else◌,
}
use openspmregistry.Strings.{Bytes, codes, eq_bytes, split, trim_space}
use openspmregistry.Json.{
  Json, Items, Fields, null, array, string, object, nil, cons, end, field, at, as_string, as_array,
  as_object,
}
use openspmregistry.Collections.Data.{
  Author, Target, Product, MinimumPlatformVersion, PackageManifest,
}

-- a nil slice to which the values were appended
abbrev pub appended {ℓ} : {A : Type ℓ} → List A → Option (List A)
appended [] = none
appended (x ∷ xs) = some (x ∷ xs)

-- the value of a string, "" without one
abbrev pub string_or_empty : Option Json → Bytes
string_or_empty v = elim (as_string v) [ none ↦ [] | some s ↦ s ]

-- targetMap["type"] is "test"
abbrev is_test : Fields → Bool
is_test target = eq_bytes (string_or_empty (at (codes "type") target)) (codes "test")

unfoldable pub module_name_of : Bytes → Option Bytes → Bytes
module_name_of name none = []
module_name_of name (some module_name) = if eq_bytes module_name name then [] else module_name

-- one turn of the loop over the targets
unfoldable pub target_of : Json → List Target
unfolding module_name_of at eq_bytes
target_of (object target) =
    if is_test target then [] else elim (as_string (at (codes "name") target)) [
      | none ↦ []
      | some name ↦
          record {
            name = name;
            module_name = module_name_of name (as_string (at (codes "moduleName") target));
          }
          ∷ []
    ]
target_of _ = []

unfoldable pub targets_of : Items → List Target
unfolding target_of
targets_of nil = []
targets_of (cons t targets) = target_of t ++ targets_of targets

-- the strings of an array
unfoldable pub strings_of : Items → List Bytes
strings_of nil = []
strings_of (cons (string s) items) = s ∷ strings_of items
strings_of (cons _ items) = strings_of items

-- the loop over productType
unfoldable pub product_type : Fields → List (Bytes × Option (List Bytes))
unfolding strings_of
product_type end = []
product_type (field key null fields) = (key, some []) ∷ product_type fields
product_type (field key (array values) fields) =
    (key, appended (strings_of values)) ∷ product_type fields
product_type (field key _ fields) = product_type fields

abbrev strings_at : Option Items → Option (List Bytes)
strings_at none = none
strings_at (some items) = appended (strings_of items)

abbrev types_at : Option Fields → List (Bytes × Option (List Bytes))
types_at none = []
types_at (some fields) = product_type fields

unfoldable pub products_of : Items → List Product
unfolding strings_of product_type at
products_of nil = []
products_of (cons (object product) products) =
    record {
      name = string_or_empty (at (codes "name") product);
      kind = types_at (as_object (at (codes "type") product));
      targets = strings_at (as_array (at (codes "targets") product));
    }
    ∷ products_of products
products_of (cons _ products) = products_of products

abbrev platform_of : Option Bytes → Option Bytes → List MinimumPlatformVersion
platform_of (some name) (some version) = record { name = name; version = version } ∷ []
platform_of _ _ = []

unfoldable pub platforms_of : Items → List MinimumPlatformVersion
unfolding at
platforms_of nil = []
platforms_of (cons (object platform) platforms) =
    platform_of (as_string (at (codes "platformName") platform))
      (as_string (at (codes "version") platform))
    ++ platforms_of platforms
platforms_of (cons _ platforms) = platforms_of platforms

-- the array at a key, without items if there is none
abbrev items_at : Bytes → Fields → Items
items_at key fields = elim (as_array (at key fields)) [ none ↦ nil | some items ↦ items ]

unfoldable pub convert_package_json_to_manifest : Fields → Bytes → PackageManifest
unfolding targets_of products_of platforms_of at
convert_package_json_to_manifest package_json tools_version = record {
  tools_version = tools_version;
  package_name = string_or_empty (at (codes "name") package_json);
  targets = targets_of (items_at (codes "targets") package_json);
  products = products_of (items_at (codes "products") package_json);
  minimum_platform_versions = platforms_of (items_at (codes "platforms") package_json);
}

abbrev author_of : Option Fields → Option Author
author_of none = none
author_of (some author_data) = elim (as_string (at (codes "name") author_data)) [
  | none ↦ none
  | some name ↦ some (record { name = name })
]

unfoldable pub extract_author : Fields → Option Author
unfolding at
extract_author metadata = author_of (as_object (at (codes "author") metadata))

abbrev first_two : Bytes → List Bytes → Bytes
first_two version (major ∷ minor ∷ _) = major ++ (codes "." ++ minor)
first_two version _ = version

unfoldable pub strip_patch_version : Bytes → Bytes
unfolding trim_space split
strip_patch_version s = let version = trim_space s in first_two version (split version b'.')

strip_tests :
    (strip_patch_version (codes "5.10.0") ≡ codes "5.10")
    × (strip_patch_version (codes " 6 ") ≡ codes "6")
unfolding strip_patch_version
strip_tests = (refl, refl)
