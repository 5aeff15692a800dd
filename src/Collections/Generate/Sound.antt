-- ===== src/Collections/Generate/Sound.antt =====
-- A collection has nothing but listed versions that have a Package.json.
use mathlib.Core.List.{Memᴰ}
use mathlib.Core.List.Permᴰ
use openspmregistry.Prelude.{
  ℕ, ◌≡◌, ◌≢◌, refl, sym, ap, true, List, [], ◌∷◌, ◌++◌, ok, inl, inr, Result-cases, All,
  All-append, is_ok, Bool-cases,
}
use openspmregistry.Strings.{Bytes, codes, eq_bytes}
use openspmregistry.Strings.Equality.{eq_bytes_iff}
use openspmregistry.Sort.{SortFunc, Ranked}
use openspmregistry.Sort.Insertion.{All-perm}
use openspmregistry.Models.Element.{ListElement}
use openspmregistry.Repo.{Repo, Context}
use openspmregistry.Collections.Data.{PackageVersion, CollectionPackage}
use openspmregistry.Collections.Grouping.{Iteration, Map, Names, modify, add_package, group}
use openspmregistry.Collections.Versions.{
  compare_desc, build_versions, build_package_version, build_collection_package, package_version,
  sort_versions_desc,
}
use openspmregistry.Collections.Generate.{
  with_versions, compare_urls, packages_of_names, packages_of_scopes, collection_packages,
  generate_collection,
}
use openspmregistry.Collections.Generate.Order.{UrlBefore, collection_packages-Ranked}
use openspmregistry.Collections.Generate.Complete.{url_of}

-- R holds of each key and its value.
abbrev Entries : {V : Type 0} → (Bytes → V → Type 0) → Map V → Type 0
Entries R = All (λ entry. R (entry.0) (entry.1))

modify-Entries :
    {V : Type 0} (R : Bytes → V → Type 0) (key : Bytes) (missing : V) (change : V → V) (m : Map V)
    → R key (change missing)
    → ((v : V) → R key v → R key (change v))
    → Entries R m
    → Entries R (modify key missing change m)
unfolding modify
modify-Entries R key missing change [] fresh h tt = (fresh, tt)
modify-Entries R key missing change ((k, v) ∷ m) fresh h (r, rs) =
    elim (Bool-cases (eq_bytes k key)) [
      | inl same ↦ let e = (eq_bytes_iff k key).0 same in rw same (rw e (h v (rw e at r)), rs)
      | inr other ↦ rw other (r, modify-Entries R key missing change m fresh h rs)
    ]

-- The elements under a name of a scope have that scope and that name, and satisfy P.
abbrev Placed : (ListElement → Type 0) → Bytes → Bytes → ListElement → Type 0
Placed P scope name e = (e.scope ≡ scope) × (e.package_name ≡ name) × P e

abbrev PlacedNames : (ListElement → Type 0) → Bytes → Names → Type 0
PlacedNames P scope = Entries (λ name. All (Placed P scope name))

group-Placed :
    (P : ListElement → Type 0) (packages : List ListElement) (m : Map Names)
    → All P packages
    → Entries (PlacedNames P) m
    → Entries (PlacedNames P) (group packages m)
unfolding group add_package
group-Placed P [] m ps h = h
group-Placed P (e ∷ packages) m (p, ps) h =
    let here : Placed P e.scope e.package_name e = (refl, refl, p) in
    let inner : (names : Names)
        → PlacedNames P e.scope names
        → PlacedNames P e.scope
            (modify e.package_name [] (λ versions. versions ++ (e ∷ [])) names) =
      λ names placed.
        modify-Entries _ e.package_name [] _ names (here, tt)
          (λ versions vs. All-append _ versions (e ∷ []) vs (here, tt)) placed in
    group-Placed P packages (add_package e m) ps
      (modify-Entries _ e.scope [] _ m (inner [] tt) inner h)

All-Memᴰ : {A : Type 0} (xs : List A) → All (λ x. Memᴰ x xs) xs
All-Memᴰ {A} xs = go xs (λ x m. m)
  where
    go : (ys : List A) → ((y : A) → Memᴰ y ys → Memᴰ y xs) → All (λ y. Memᴰ y xs) ys
    go [] f = tt
    go (y ∷ ys) f = (f y (Memᴰ.head refl), go ys (λ z m. f z (Memᴰ.tail m)))

with_versions-All :
    (P : CollectionPackage → Type 0) (vs : List PackageVersion) (p : CollectionPackage)
    → (vs ≢ [] → P p)
    → All P (with_versions vs p)
with_versions-All P [] p h = tt
with_versions-All P (v ∷ vs) p h = (h (λ no_versions. cc no_versions), tt)

module _ {S W : Type 0} (repo : Repo S W) (slices : SortFunc) (iteration : Iteration) (now : ℕ)
    (format_time : ℕ → Bytes) (ctx : Context) (s : S) (packages : List ListElement) where
  -- The version is one of those listed, its package has this URL, and it has a Package.json.
  abbrev pub Listed : Bytes → PackageVersion → Type 0
  Listed url v =
      (e : ListElement) × Memᴰ e packages
      × (url ≡ url_of e)
      × (v.version ≡ e.version)
      × (is_ok (repo.load_package_json ctx e.scope e.package_name e.version s) ≡ true)

  -- The package has a version, and all its versions are listed.
  abbrev pub SoundPackage : CollectionPackage → Type 0
  SoundPackage p = (p.versions ≢ []) × All (Listed p.url) p.versions

  build_package_version-ok :
      (scope name version : Bytes) (v : PackageVersion)
      → build_package_version repo slices now format_time ctx scope name version s ≡ ok v
      → (v.version ≡ version) × (is_ok (repo.load_package_json ctx scope name version s) ≡ true)
  unfolding build_package_version package_version
  build_package_version-ok scope name version v success =
      elim (Result-cases (repo.load_package_json ctx scope name version s)) [
        | inl (message, failed) ↦ cc (rw failed at success)
        | inr (json, loaded) ↦
            let described : package_version repo slices now format_time ctx scope name version json
                  s
                ≡ v =
              cc (rw loaded at success) in
            (sym (ap (λ t. t.version) described), rw loaded refl)
      ]

  build_versions-Listed :
      (scope name : Bytes) (elements : List ListElement)
      → All (Placed (λ e. Memᴰ e packages) scope name) elements
      → All
          (Listed (scope ++ (codes "." ++ name)))
          (build_versions repo slices now format_time ctx scope name elements s).0
  unfolding build_versions
  build_versions-Listed scope name [] h = tt
  build_versions-Listed scope name (e ∷ elements) ((in_scope, named, there), placed) =
      let h = build_versions-Listed scope name elements placed in
      let found = build_package_version repo slices now format_time ctx scope name e.version s in
      elim (Result-cases found) [
        | inl (message, failed) ↦ rw (build_versions, failed) h
        | inr (v, success) ↦
            rw (build_versions, success)
              (
                (
                  e,
                  there,
                  rw (in_scope, named) refl,
                  (build_package_version-ok scope name e.version v success).0,
                  rw (in_scope, named) (build_package_version-ok scope name e.version v success).1,
                ),
                h,
              )
      ]

  packages_of_names-SoundPackage :
      (scope : Bytes) (names : Names)
      → PlacedNames (λ e. Memᴰ e packages) scope names
      → All SoundPackage (packages_of_names repo slices iteration now format_time ctx scope names s)
  unfolding packages_of_names build_collection_package sort_versions_desc
  packages_of_names-SoundPackage scope [] h = tt
  packages_of_names-SoundPackage scope ((name, versions) ∷ names) (placed, h) =
      let p = build_collection_package repo slices now format_time ctx scope name versions s in
      let sorted = All-perm _ (Permᴰ.symm (slices.permuted compare_desc versions)) placed in
      All-append _ (with_versions p.versions p) _
        (with_versions-All SoundPackage p.versions p (λ has.
          (has, build_versions-Listed scope name (sort_versions_desc slices versions) sorted)))
        (packages_of_names-SoundPackage scope names h)

  packages_of_scopes-SoundPackage :
      (scopes : Map Names)
      → Entries (PlacedNames (λ e. Memᴰ e packages)) scopes
      → All SoundPackage (packages_of_scopes repo slices iteration now format_time ctx scopes s)
  unfolding packages_of_scopes
  packages_of_scopes-SoundPackage [] h = tt
  packages_of_scopes-SoundPackage ((scope, names) ∷ scopes) (placed, h) =
      let ordered = All-perm _ (Permᴰ.symm (iteration.permuted names)) placed in
      All-append _
        (packages_of_names repo slices iteration now format_time ctx scope (iteration.order names)
          s)
        _ (packages_of_names-SoundPackage scope (iteration.order names) ordered)
        (packages_of_scopes-SoundPackage scopes h)

  collection_packages-SoundPackage :
      All SoundPackage (collection_packages repo slices iteration now format_time ctx packages s)
  unfolding collection_packages
  collection_packages-SoundPackage =
      let scopes = group packages [] in
      let placed = group-Placed (λ e. Memᴰ e packages) packages [] (All-Memᴰ packages) tt in
      let ordered = All-perm _ (Permᴰ.symm (iteration.permuted scopes)) placed in
      All-perm _ (Permᴰ.symm (slices.permuted compare_urls _))
        (packages_of_scopes-SoundPackage (iteration.order scopes) ordered)

  -- Every package of a collection has a version, and each of its versions is a listed one of the
  -- package's scope and name whose Package.json loads. No package stands before one whose URL, in
  -- lower case, is smaller.
  pub generate_collection-SoundPackage :
      (scope hostname : Bytes)
      → let collection =
          generate_collection repo slices iteration now format_time ctx scope packages hostname s in
        All SoundPackage collection.packages × Ranked (λ a b. ¬ UrlBefore b a) collection.packages
  unfolding generate_collection
  generate_collection-SoundPackage scope hostname = (
    collection_packages-SoundPackage,
    collection_packages-Ranked repo slices iteration now format_time ctx packages s,
  )
