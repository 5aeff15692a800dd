-- ===== src/Collections/Versions.antt =====
-- `buildCollectionPackage`, `buildPackageVersion` and `sortVersionsDesc` of repo/collections.go.
use openspmregistry.Prelude.{
  ℕ, Option, none, some, List, [], ◌∷◌, ◌++◌, Result, ok, err, ◌>>=◌, if◌then◌else◌,
}
use openspmregistry.Int.{ℤ, pos}
use openspmregistry.Strings.{Bytes, codes, is_empty, trim_space}
use openspmregistry.Json.{Fields, end, at, as_string}
use openspmregistry.Sort.{SortFunc}
use openspmregistry.Models.Version.{compare, parse_version}
use openspmregistry.Models.Element.{
  ListElement, new_upload_element, manifest, source_archive, text_x_swift, application_zip,
}
use openspmregistry.Repo.{Repo, Context}
use openspmregistry.Collections.Data.{License, PackageVersion, CollectionPackage}
use openspmregistry.Collections.Manifest.{
  string_or_empty, convert_package_json_to_manifest, extract_author, strip_patch_version,
}

-- The comparison of `sortVersionsDesc`: 0 when a version does not parse.
unfoldable pub compare_desc : ListElement → ListElement → ℤ
compare_desc a b = elim (parse_version (trim_space a.version)) [
  | err _ ↦ pos 0
  | ok v1 ↦ elim (parse_version (trim_space b.version)) [ err _ ↦ pos 0 | ok v2 ↦ compare v2 v1 ]
]

unfoldable pub sort_versions_desc : SortFunc → List ListElement → List ListElement
sort_versions_desc slices elements = slices.sort compare_desc elements

-- the fields of metadata that could not be loaded: a nil map
abbrev fields_of : Result Fields → Fields
fields_of (err _) = end
fields_of (ok metadata) = metadata

abbrev or_default : Result Bytes → Bytes
or_default (err _) = codes "5.0"
or_default (ok tools_version) = tools_version

abbrev name_or_license : Option Bytes → Bytes
name_or_license none = codes "License"
name_or_license (some name) = name

-- the license of a version
unfoldable pub version_license : Fields → Option License
unfolding at
version_license metadata = elim (as_string (at (codes "licenseURL") metadata)) [
  | none ↦ none
  | some url ↦
      some (record {
        name = name_or_license (as_string (at (codes "licenseName") metadata));
        url = url;
      })
]

-- the license of a package
unfoldable pub package_license : Fields → Option License
unfolding at
package_license metadata = elim (as_string (at (codes "licenseURL") metadata)) [
  | none ↦ none
  | some url ↦ some (record { name = []; url = url })
]

-- `now` is time.Now, `format_time` Time.UTC and Time.Format with the layout of RFC 3339.
module _ {S W : Type 0} (repo : Repo S W) (slices : SortFunc) (now : ℕ)
    (format_time : ℕ → Bytes) where
  abbrev date_or_now : Result ℕ → ℕ
  date_or_now (err _) = now
  date_or_now (ok date) = date

  -- behind LoadPackageJson
  unfoldable pub package_version : Context → Bytes → Bytes → Bytes → Fields → S → PackageVersion
  unfolding version_license convert_package_json_to_manifest extract_author strip_patch_version
  package_version ctx scope name version package_json s =
      let tools_version = strip_patch_version (
        trim_space (
          or_default (
            repo.get_swift_tool_version ctx
              (new_upload_element scope name version text_x_swift manifest) s))) in
      let metadata = fields_of (repo.load_metadata ctx scope name version s) in
      let archive = new_upload_element scope name version application_zip source_archive in
      record {
        version = version;
        summary = [];
        manifests =
            (tools_version, convert_package_json_to_manifest package_json tools_version) ∷ [];
        default_tools_version = tools_version;
        verified_compatibility = [];
        license = version_license metadata;
        author = extract_author metadata;
        signer = none;
        created_at = format_time (date_or_now (repo.publish_date ctx archive s));
      }

  unfoldable pub build_package_version : Context → Bytes → Bytes → Bytes → S → Result PackageVersion
  unfolding package_version
  build_package_version ctx scope name version s = do
    package_json ← repo.load_package_json ctx scope name version s
    ok (package_version ctx scope name version package_json s)

  -- The loop over versionElements: the versions that are built, and the first of them that is not
  -- empty, which is metadataVersion.
  unfoldable pub build_versions :
      Context → Bytes → Bytes → List ListElement → S → List PackageVersion × Bytes
  unfolding build_package_version
  build_versions ctx scope name [] s = ([], [])
  build_versions ctx scope name (e ∷ elements) s =
      let rest = build_versions ctx scope name elements s in
      elim (build_package_version ctx scope name e.version s) [
        | err _ ↦ rest
        | ok v ↦ (v ∷ rest.0, if is_empty e.version then rest.1 else e.version)
      ]

  -- the metadata from which the package is described
  unfoldable pub metadata_of : Context → Bytes → Bytes → Bytes → S → Fields
  metadata_of ctx scope name metadata_version s =
      if is_empty metadata_version
      then end
      else fields_of (repo.load_metadata ctx scope name metadata_version s)

  unfoldable pub build_collection_package :
      Context → Bytes → Bytes → List ListElement → S → CollectionPackage
  unfolding build_versions metadata_of package_license sort_versions_desc at
  build_collection_package ctx scope name elements s =
      let built = build_versions ctx scope name (sort_versions_desc slices elements) s in
      let metadata = metadata_of ctx scope name built.1 s in
      record {
        url = scope ++ (codes "." ++ name);
        summary = string_or_empty (at (codes "description") metadata);
        keywords = [];
        versions = built.0;
        readme_url = string_or_empty (at (codes "readmeURL") metadata);
        license = package_license metadata;
      }
