-- ===== src/Maven/Access/Indexed.antt =====
-- What an update of the index of packages keeps.
use mathlib.Core.List.{Memᴰ}
use mathlib.Core.List.Permᴰ
use mathlib.Core.List.Memᴰ
use openspmregistry.Prelude.{
  ◌≡◌, refl, ap, ◌∙◌, ok, err, Bool-cases, inl, inr, List, [], ◌∷◌, ◌++◌, arith, if◌then◌else◌,
}
use openspmregistry.Strings
use openspmregistry.Strings.{Bytes, codes, eq_bytes, contains}
use openspmregistry.Strings.Equality.{eq_bytes_iff, eq_bytes_refl, contains_sound}
use openspmregistry.Config.{MavenConfig}
use openspmregistry.Sort.{SortFunc}
use openspmregistry.Sort.Insertion.{Memᴰ-perm}
use openspmregistry.Models.Element.{Platform}
use openspmregistry.Repo.{Context}
use openspmregistry.Collections.Grouping.{modify}
use openspmregistry.Maven.Client.{
  HttpClient, Formats, Response, Index, Fetched, fetched, sort_strings, packages_of_index,
  spm_registry_index_path, get, put, delete,
}
use openspmregistry.Maven.Access.{
  Packages, decoded_packages, packages_in, add_package, indexed_packages, replace_index,
  update_spm_registry_index,
}

packages_in-modify :
    (scope t : Bytes) (change : List Bytes → List Bytes) (packages : Packages)
    → packages_in t (modify scope [] change packages)
      ≡ (if eq_bytes scope t then change (packages_in t packages) else packages_in t packages)
unfolding packages_in modify
packages_in-modify scope t change [] = refl
packages_in-modify scope t change ((key, names) ∷ packages) = ground (
  arith,
  packages_in-modify scope t change packages,
  eq_bytes_iff key scope,
  eq_bytes_iff key t,
  eq_bytes_iff scope t,
)

-- The package is in the list of the scope.
abbrev pub Lists : Packages → Bytes → Bytes → Type 0
Lists packages scope name = Memᴰ name (packages_in scope packages)

-- All packages of the first are in the second, and so is the named one.
abbrev pub Extends : Packages → Bytes → Bytes → Packages → Type 0
Extends old scope name new =
    Lists new scope name × ((t : Bytes) (other : Bytes) → Lists old t other → Lists new t other)

add_package-Extends :
    (slices : SortFunc) (scope name : Bytes) (packages : Packages)
    → Extends packages scope name (add_package slices scope name packages)
unfolding add_package
add_package-Extends slices scope name packages =
    let names = packages_in scope packages in
    let sorted = sort_strings slices (names ++ (name ∷ [])) in
    let perm = Permᴰ.symm (slices.permuted Strings.compare (names ++ (name ∷ []))) in
    let changed : (t : Bytes)
        → packages_in t (modify scope [] (λ old. sorted) packages)
          ≡ (if eq_bytes scope t then sorted else packages_in t packages) =
      λ t. packages_in-modify scope t (λ old. sorted) packages in
    elim (Bool-cases (contains names name)) [
      | inl listed ↦ rw listed (contains_sound names name listed, λ t other there. there)
      | inr missing ↦ rw missing (
        rw (changed scope, eq_bytes_refl scope)
            (Memᴰ-perm perm (Memᴰ.append_right names (Memᴰ.head {xs = []} refl))),
        λ t other there. rw (changed t) (elim (Bool-cases (eq_bytes scope t)) [
          | inl same ↦ rw same (
              Memᴰ-perm perm
                (Memᴰ.append_left (name ∷ []) (rw (← (eq_bytes_iff scope t).0 same) at there)))
          | inr apart ↦ rw apart there
        ]),
      )
    ]

module _ {S : Type 0} (http : HttpClient S) (p : Platform) (cfg : MavenConfig) (formats : Formats)
    (slices : SortFunc) (ctx : Context) (scope name : Bytes) (s : S) where
  -- what the server answers for the index
  abbrev pub answer : Fetched
  answer = get http p cfg formats ctx spm_registry_index_path s

  -- the index is deleted, and one PUT uploads one with the packages
  abbrev pub Replaces : Packages → S → Type 0
  Replaces packages end =
      ((body : Bytes)
        → formats.marshal_packages packages ≡ ok body
        → end
          ≡ (put http p cfg formats ctx spm_registry_index_path body (codes "application/json")
              ((delete http p cfg formats ctx spm_registry_index_path s).1)).1)
      × ((e : Bytes) → formats.marshal_packages packages ≡ err e → end ≡ s)

  replace-Replaces :
      (packages : Packages)
      → Replaces packages
          (replace_index http p cfg formats ctx (formats.marshal_packages packages) s)
  unfolding replace_index
  replace-Replaces packages = (λ body e. rw e refl, λ message e. rw e refl)

  abbrev updated : S
  updated = update_spm_registry_index http p cfg formats slices ctx scope name s

  from_read :
      (read : Packages)
      → indexed_packages http p cfg formats ctx answer ≡ read
      → (new : Packages) × Extends read scope name new × Replaces new updated
  unfolding update_spm_registry_index
  from_read read e = rw e (
    add_package slices scope name read,
    add_package-Extends slices scope name read,
    replace-Replaces (add_package slices scope name read),
  )

  indexed :
      (response : Response) (text : Bytes) (index : Index)
      → response.status ≡ 200
      → response.body ≡ ok text
      → formats.decode_index text ≡ ok index
      → indexed_packages http p cfg formats ctx (fetched response) ≡ packages_of_index index
  unfolding indexed_packages
  indexed response text index good body decoded = rw (good, body, decoded_packages, decoded) refl

  -- If the server answers the request for the index with 200 and an index, the update deletes the
  -- index, and one PUT uploads an index that has the package, and every package of the one that was
  -- answered. A failed marshalling leaves the server as it is.
  pub update_spm_registry_index-Extends :
      (response : Response) (text : Bytes) (index : Index)
      → answer ≡ fetched response
      → response.status ≡ 200
      → response.body ≡ ok text
      → formats.decode_index text ≡ ok index
      → (new : Packages) × Extends (packages_of_index index) scope name new × Replaces new updated
  update_spm_registry_index-Extends response text index answered good body decoded =
      from_read (packages_of_index index) (
        ap (indexed_packages http p cfg formats ctx) answered
        ∙ indexed response text index good body decoded)
