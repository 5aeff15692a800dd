-- ===== src/Maven/Access.antt =====
-- repo/maven/access.go. The mutexes make each update one step.
pub mod Indexed
use openspmregistry.Prelude.{
  ℕ, Bool, true, false, not, Option, none, some, List, [], ◌∷◌, ◌++◌, ◌==◌, Result, ok, err, ◌>>=◌,
  if◌then◌else◌,
}
use openspmregistry.Strings.{Bytes, codes, eq_bytes, contains}
use openspmregistry.Config.{MavenConfig}
use openspmregistry.Sort.{SortFunc}
use openspmregistry.Models.Element.{Platform, UploadElement, application_zip}
use openspmregistry.Repo.{Context}
use openspmregistry.Collections.Grouping.{modify}
use openspmregistry.Maven.Coordinates.{
  build_group_id, build_artifact_id, build_version, build_maven_path_for_element,
}
use openspmregistry.Maven.Client.{
  HttpClient, Response, Fetched, fetched, status_error, request_error, Formats, sort_strings,
  packages_of_index, spm_registry_index_path, get, head, put, delete,
}
use openspmregistry.Maven.Metadata.{XmlFormat, update_metadata}

abbrev pub Packages : Type 0
Packages = List (Bytes × List Bytes)

-- packages[scope]
unfoldable pub packages_in : Bytes → Packages → List Bytes
packages_in scope [] = []
packages_in scope ((key, names) ∷ packages) =
    let rest = packages_in scope packages in if eq_bytes key scope then names else rest

-- A package that is not there is added to the list of its scope, which is sorted.
unfoldable pub add_package : SortFunc → Bytes → Bytes → Packages → Packages
unfolding packages_in contains modify
add_package slices scope name packages =
    let names = packages_in scope packages in
    if contains names name
    then packages
    else modify scope [] (λ old. sort_strings slices (names ++ (name ∷ []))) packages

module _ {S : Type 0} (http : HttpClient S) (p : Platform) (cfg : MavenConfig) (formats : Formats)
    (ctx : Context) where
  abbrev ranges_of : Result Response → Bool
  ranges_of (err _) = false
  ranges_of (ok response) = eq_bytes (response.header (codes "Accept-Ranges")) (codes "bytes")

  -- The answer and what access.supportsRanges holds behind it.
  unfoldable pub check_range_support : Option Bool → Bytes → S → Bool × Option Bool
  unfolding head
  check_range_support (some supports) path s = (supports, some supports)
  check_range_support none path s =
      let supports = ranges_of (head http p cfg formats ctx path s) in (supports, some supports)

  unfoldable pub exists : UploadElement → S → Bool
  unfolding head build_maven_path_for_element
  exists e s = elim (head http p cfg formats ctx (build_maven_path_for_element p e cfg) s) [
    | err _ ↦ false
    | ok response ↦ response.status == 200
  ]

  -- `Remove` of repo/maven/mavenrepo.go
  unfoldable pub remove : UploadElement → S → Result (Unit {0}) × S
  unfolding delete build_maven_path_for_element
  remove e s = delete http p cfg formats ctx (build_maven_path_for_element p e cfg) s

  abbrev decoded_packages : Result Bytes → Packages
  decoded_packages text = elim (text >>= formats.decode_index) [
    | err _ ↦ []
    | ok index ↦ packages_of_index index
  ]

  -- the packages of the index, none without an index
  unfoldable pub indexed_packages : Fetched → Packages
  indexed_packages (request_error e) = []
  indexed_packages (status_error status) = []
  indexed_packages (fetched response) =
      if response.status == 200 then decoded_packages response.body else []

  -- the end of the update, behind json.Marshal
  unfoldable pub replace_index : Result Bytes → S → S
  unfolding delete put
  replace_index (err _) s = s
  replace_index (ok body) s =
      (put http p cfg formats ctx spm_registry_index_path body (codes "application/json")
        (delete http p cfg formats ctx spm_registry_index_path s).1).1

module _ {S : Type 0} (http : HttpClient S) (p : Platform) (cfg : MavenConfig) (formats : Formats)
    (slices : SortFunc) (ctx : Context) where
  unfoldable pub update_spm_registry_index : Bytes → Bytes → S → S
  unfolding indexed_packages add_package replace_index get
  update_spm_registry_index scope package_name s =
      let packages =
        indexed_packages http p cfg formats ctx
          (get http p cfg formats ctx spm_registry_index_path s) in
      replace_index http p cfg formats ctx
        (formats.marshal_packages (add_package slices scope package_name packages)) s

-- `mavenWriter`
pub record MavenWriter : Type 0 where
  pub path : Bytes
  pub element : UploadElement
  pub content_type : Bytes
  pub buffer : Bytes
  pub ctx : Context

unfoldable pub get_writer : Platform → MavenConfig → Context → UploadElement → MavenWriter
get_writer p cfg ctx e = record {
  path = build_maven_path_for_element p e cfg;
  element = e;
  content_type = e.mime_type;
  buffer = [];
  ctx = ctx;
}

unfoldable pub write : MavenWriter → Bytes → MavenWriter
write w content = record w { buffer = w.buffer ++ content }

-- `digest` is the hexadecimal SHA-256 of package crypto.
module _ {S : Type 0} (http : HttpClient S) (p : Platform) (cfg : MavenConfig) (formats : Formats)
    (xml : XmlFormat) (slices : SortFunc) (timestamp : Bytes) (digest : Bytes → Bytes) where
  -- The metadata and the index after the upload of a source archive; the error of the metadata is
  -- dropped.
  unfoldable pub published : MavenWriter → S → S
  unfolding update_metadata update_spm_registry_index
  published w s =
      let e = w.element in
      let group_id = build_group_id e.scope cfg in
      let updated =
        update_metadata http p cfg formats xml slices timestamp w.ctx group_id
          (build_artifact_id e.name) (build_version e.version) s in
      update_spm_registry_index http p cfg formats slices w.ctx e.scope e.name (updated.1)

  -- behind the upload of the content
  unfoldable pub uploaded : MavenWriter → Result (Unit {0}) × S → Result (Unit {0}) × S
  unfolding published put
  uploaded w (err e, s) = (err e, s)
  uploaded w (ok _, s) =
      let with_checksum =
        (put http p cfg formats w.ctx (w.path ++ codes ".sha256") (digest w.buffer)
          (codes "text/plain") s).1 in
      (
        ok tt,
        if eq_bytes w.element.mime_type application_zip
            then published w with_checksum
            else with_checksum,
      )

  -- `mavenWriter.Close`
  unfoldable pub close : MavenWriter → S → Result (Unit {0}) × S
  unfolding uploaded
  close w s = uploaded w (put http p cfg formats w.ctx w.path w.buffer w.content_type s)
