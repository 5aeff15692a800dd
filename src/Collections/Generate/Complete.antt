-- ===== src/Collections/Generate/Complete.antt =====
-- A collection has every listed version that has a Package.json.
use mathlib.Core.List.{Memᴰ}
use mathlib.Core.List.Permᴰ
use mathlib.Core.List.Memᴰ
use openspmregistry.Prelude.{ℕ, ◌≡◌, refl, ap, List, [], ◌∷◌, ◌++◌, ok, inl, inr, Result-cases}
use openspmregistry.Strings.{Bytes, codes}
use openspmregistry.Json.{Fields}
use openspmregistry.Sort.{SortFunc}
use openspmregistry.Sort.Insertion.{Memᴰ-perm}
use openspmregistry.Models.Element.{ListElement}
use openspmregistry.Repo.{Repo, Context}
use openspmregistry.Collections.Data.{PackageVersion, CollectionPackage}
use openspmregistry.Collections.Grouping.{Iteration, Map, Names, group}
use openspmregistry.Collections.Grouping.Membership.{Holds, Held, group-Held}
use openspmregistry.Collections.Versions.{
  compare_desc, build_versions, build_package_version, build_collection_package, package_version,
  sort_versions_desc,
}
use openspmregistry.Collections.Generate.{
  with_versions, compare_urls, packages_of_names, packages_of_scopes, collection_packages,
  generate_collection,
}

-- The URL of the package of an element.
abbrev pub url_of : ListElement → Bytes
url_of e = e.scope ++ (codes "." ++ e.package_name)

-- A package with this URL and this version is in the collection.
abbrev pub Shown : Bytes → PackageVersion → List CollectionPackage → Type 0
Shown url v packages = (p : CollectionPackage) × Memᴰ p packages × (p.url ≡ url) × Memᴰ v p.versions

Shown-left :
    {url : Bytes} {v : PackageVersion} {ps : List CollectionPackage} (qs : List CollectionPackage)
    → Shown url v ps
    → Shown url v (ps ++ qs)
Shown-left qs (p, there, same, has) = (p, Memᴰ.append_left qs there, same, has)

Shown-right :
    {url : Bytes} {v : PackageVersion} (ps : List CollectionPackage) {qs : List CollectionPackage}
    → Shown url v qs
    → Shown url v (ps ++ qs)
Shown-right ps (p, there, same, has) = (p, Memᴰ.append_right ps there, same, has)

with_versions-Memᴰ :
    {v : PackageVersion} (vs : List PackageVersion) (p : CollectionPackage)
    → Memᴰ v vs
    → Memᴰ p (with_versions vs p)
with_versions-Memᴰ [] p has = elim has [ ]
with_versions-Memᴰ (u ∷ vs) p has = Memᴰ.head refl

module _ {S W : Type 0} (repo : Repo S W) (slices : SortFunc) (iteration : Iteration) (now : ℕ)
    (format_time : ℕ → Bytes) (ctx : Context) (s : S) (e : ListElement) (json : Fields)
    (loaded : repo.load_package_json ctx e.scope e.package_name e.version s ≡ ok json) where
  -- the version as the collection describes it
  abbrev pub described : PackageVersion
  described =
      package_version repo slices now format_time ctx e.scope e.package_name e.version json s

  build_versions-Memᴰ :
      (elements : List ListElement)
      → Memᴰ e elements
      → Memᴰ described
          (build_versions repo slices now format_time ctx e.scope e.package_name elements s).0
  unfolding build_versions build_package_version
  build_versions-Memᴰ [] there = elim there [ ]
  build_versions-Memᴰ (f ∷ elements) (Memᴰ.head same) =
      rw (← same, build_versions, build_package_version, loaded) (Memᴰ.head refl)
  build_versions-Memᴰ (f ∷ elements) (Memᴰ.tail there) =
      let h = build_versions-Memᴰ elements there in
      let found =
        build_package_version repo slices now format_time ctx e.scope e.package_name f.version s in
      elim (Result-cases found) [
        | inl (message, failed) ↦ rw (build_versions, failed) h
        | inr (value, success) ↦ rw (build_versions, success) (Memᴰ.tail h)
      ]

  -- the package that is built for the name of the element
  named :
      (us : List ListElement)
      → Memᴰ e us
      → let p =
          build_collection_package repo slices now format_time ctx e.scope e.package_name us s in
        Shown (url_of e) described (with_versions p.versions p)
  unfolding build_collection_package sort_versions_desc
  named us held =
      let p =
        build_collection_package repo slices now format_time ctx e.scope e.package_name us s in
      let sorted = Memᴰ-perm (Permᴰ.symm (slices.permuted compare_desc us)) held in
      let has = build_versions-Memᴰ (sort_versions_desc slices us) sorted in
      (p, with_versions-Memᴰ p.versions p has, refl, has)

  packages_of_names-Shown :
      (names : Names)
      → Holds (Memᴰ e) e.package_name names
      → Shown
          (url_of e)
          described
          (packages_of_names repo slices iteration now format_time ctx e.scope names s)
  unfolding packages_of_names build_collection_package sort_versions_desc
  packages_of_names-Shown [] (versions, there, held) = elim there [ ]
  packages_of_names-Shown ((name, versions) ∷ names) (us, Memᴰ.tail there, held) =
      Shown-right _ (packages_of_names-Shown names (us, there, held))
  packages_of_names-Shown ((name, versions) ∷ names) (us, Memᴰ.head same, held) =
      rw (← ap (λ t. t.0) same, ← ap (λ t. t.1) same) (Shown-left _ (named us held))

  packages_of_scopes-Shown :
      (scopes : Map Names)
      → Held e scopes
      → Shown
          (url_of e)
          described
          (packages_of_scopes repo slices iteration now format_time ctx scopes s)
  unfolding packages_of_scopes
  packages_of_scopes-Shown [] (names, there, held) = elim there [ ]
  packages_of_scopes-Shown ((scope, names) ∷ scopes) (ns, Memᴰ.tail there, held) =
      Shown-right _ (packages_of_scopes-Shown scopes (ns, there, held))
  packages_of_scopes-Shown ((scope, names) ∷ scopes) (ns, Memᴰ.head same, (versions, there, held)) =
      let ordered = Memᴰ-perm (Permᴰ.symm (iteration.permuted ns)) there in
      rw (← ap (λ t. t.0) same, ← ap (λ t. t.1) same)
        (Shown-left _ (packages_of_names-Shown (iteration.order ns) (versions, ordered, held)))

  collection_packages-Shown :
      (packages : List ListElement)
      → Memᴰ e packages
      → Shown
          (url_of e)
          described
          (collection_packages repo slices iteration now format_time ctx packages s)
  unfolding collection_packages
  collection_packages-Shown packages listed =
      let scopes = group packages [] in
      let (names, there, held) = group-Held e packages [] listed in
      let ordered = Memᴰ-perm (Permᴰ.symm (iteration.permuted scopes)) there in
      let (p, built, same, has) =
        packages_of_scopes-Shown (iteration.order scopes) (names, ordered, held) in
      (p, Memᴰ-perm (Permᴰ.symm (slices.permuted compare_urls _)) built, same, has)

  -- If a listed element has a Package.json, then the collection has a package with the element's URL
  -- and in it the version, described by that file, by its metadata, its manifest and its date.
  -- The order in which the maps are visited and the sorting algorithms do not matter.
  pub generate_collection-Shown :
      (scope hostname : Bytes) (packages : List ListElement)
      → Memᴰ e packages
      → Shown (url_of e) described (
          (generate_collection repo slices iteration now format_time ctx scope packages hostname
            s).packages)
  unfolding generate_collection
  generate_collection-Shown scope hostname packages listed =
      collection_packages-Shown packages listed
