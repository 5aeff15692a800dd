-- ===== src/Collections/Generate.antt =====
-- `GenerateCollection` of repo/collections.go.
pub mod Complete
pub mod Order
pub mod Sound
use openspmregistry.Prelude.{ℕ, Bool, true, false, List, [], ◌∷◌, ◌++◌, if◌then◌else◌}
use openspmregistry.Int.{ℤ, pos}
use openspmregistry.Strings
use openspmregistry.Strings.{Bytes, codes, is_empty, to_lower, trim_space}
use openspmregistry.Sort.{SortFunc}
use openspmregistry.Models.Element.{ListElement}
use openspmregistry.Repo.{Repo, Context}
use openspmregistry.Collections.Data.{PackageVersion, CollectionPackage, PackageCollection}
use openspmregistry.Collections.Grouping.{Iteration, Map, Names, group}
use openspmregistry.Collections.Versions.{build_collection_package}

-- the comparison of the packages
unfoldable pub compare_urls : CollectionPackage → CollectionPackage → ℤ
unfolding to_lower Strings.compare
compare_urls a b = Strings.compare (to_lower a.url) (to_lower b.url)

-- A package without versions is skipped.
abbrev pub with_versions : List PackageVersion → CollectionPackage → List CollectionPackage
with_versions [] p = []
with_versions (_ ∷ _) p = p ∷ []

unfoldable pub collection_name : Bytes → Bytes → Bytes
unfolding trim_space
collection_name scope hostname =
    let name = if is_empty scope then codes "All Packages" else scope ++ codes " Packages" in
    let trimmed_hostname = trim_space hostname in
    if is_empty trimmed_hostname then name else trimmed_hostname ++ (codes ": " ++ name)

unfoldable pub collection_overview : Bytes → Bytes
collection_overview scope =
    if is_empty scope
    then codes "All packages in registry"
    else codes "Package collection for " ++ (scope ++ codes " scope")

module _ {S W : Type 0} (repo : Repo S W) (slices : SortFunc) (iteration : Iteration) (now : ℕ)
    (format_time : ℕ → Bytes) where
  -- the loop over the names of a scope
  unfoldable pub packages_of_names : Context → Bytes → Names → S → List CollectionPackage
  unfolding build_collection_package
  packages_of_names ctx scope [] s = []
  packages_of_names ctx scope ((name, versions) ∷ names) s =
      let built = build_collection_package repo slices now format_time ctx scope name versions s in
      with_versions built.versions built ++ packages_of_names ctx scope names s

  -- the loop over the scopes
  unfoldable pub packages_of_scopes : Context → Map Names → S → List CollectionPackage
  unfolding packages_of_names
  packages_of_scopes ctx [] s = []
  packages_of_scopes ctx ((scope, names) ∷ scopes) s =
      packages_of_names ctx scope (iteration.order names) s ++ packages_of_scopes ctx scopes s

  unfoldable pub collection_packages : Context → List ListElement → S → List CollectionPackage
  unfolding packages_of_scopes group compare_urls
  collection_packages ctx packages s =
      slices.sort compare_urls (packages_of_scopes ctx (iteration.order (group packages [])) s)

  unfoldable pub generate_collection :
      Context → Bytes → List ListElement → Bytes → S → PackageCollection
  unfolding collection_packages collection_name collection_overview
  generate_collection ctx scope packages hostname s = record {
    name = collection_name scope hostname;
    overview = collection_overview scope;
    keywords = [];
    packages = collection_packages ctx packages s;
    format_version = codes "1.0";
    revision = pos 1;
    generated_at = format_time now;
    generated_by = record { name = codes "OpenSPMRegistry" };
  }
