-- ===== src/Maven/Backend.antt =====
-- repo/maven/mavenrepo.go: the operations on the index, the metadata and the headers of the server.
use openspmregistry.Prelude.{
  ℕ, not, Option, none, some, List, [], ◌∷◌, ◌++◌, ◌==◌, Result, ok, err, ◌>>=◌, if◌then◌else◌, map,
  length,
}
use openspmregistry.Strings.{Bytes, codes, eq_bytes, trim_space}
use openspmregistry.Config.{MavenConfig}
use openspmregistry.Sort.{SortFunc}
use openspmregistry.Models.Element.{
  Platform, UploadElement, ListElement, new_upload_element, set_filename_overwrite, file_name,
  manifest, text_x_swift,
}
use openspmregistry.Repo.{Context}
use openspmregistry.Maven.Coordinates.{
  build_group_id, build_artifact_id, build_maven_path_for_element,
}
use openspmregistry.Maven.Client.{
  HttpClient, Response, Fetched, fetched, status_error, request_error, Formats, packages_of_index,
  get, head, get_spm_registry_index, get_spm_registry_index_full,
}
use openspmregistry.Maven.Metadata.{
  XmlFormat, Loaded, loaded, metadata_not_found, load_failed, load_metadata,
}
use openspmregistry.Maven.Access.{packages_in, exists}

-- the versions of metadata that could be loaded
abbrev pub versions_of : Loaded → List Bytes
versions_of (load_failed e) = []
versions_of metadata_not_found = []
versions_of (loaded metadata) = metadata.versions

abbrev pub listed_versions : Bytes → Bytes → Loaded → List ListElement
listed_versions scope name load =
    map (λ version. record { scope = scope; package_name = name; version = version })
      (versions_of load)

-- `parse_date` is time.Parse with one of the three layouts of a date, in their order.
module _ {S : Type 0} (http : HttpClient S) (p : Platform) (cfg : MavenConfig) (formats : Formats)
    (xml : XmlFormat) (slices : SortFunc) (now : ℕ) (parse_date : Bytes → Bytes → Result ℕ)
    (ctx : Context) where
  -- `List`: no metadata, no versions
  unfoldable pub list : Bytes → Bytes → S → Result (List ListElement)
  unfolding load_metadata
  list scope name s = ok (
      listed_versions scope name (
        load_metadata http p cfg formats xml ctx (build_group_id scope cfg) (build_artifact_id name)
          s))

  -- the first layout that reads the text, or the error of the last
  abbrev parsed_date : Bytes → List Bytes → Result ℕ → Result ℕ
  parsed_date text [] last = last
  parsed_date text (layout ∷ layouts) last = elim (parse_date layout text) [
    | ok date ↦ ok date
    | err e ↦ parsed_date text layouts (err e)
  ]

  abbrev layouts : List Bytes
  layouts =
      codes "Mon, 02 Jan 2006 15:04:05 MST"
      ∷ codes "Mon, 02 Jan 2006 15:04:05 -0700"
      ∷ codes "Mon, 2 Jan 2006 15:04:05 MST"
      ∷ []

  abbrev date_of : Bytes → Result ℕ
  date_of [] = ok now
  date_of (c ∷ text) = parsed_date (c ∷ text) layouts (ok now)

  abbrev date_of_response : Response → Result ℕ
  date_of_response response =
      if not (response.status == 200)
      then err (codes "element not found")
      else date_of (response.header (codes "Last-Modified"))

  -- an error comes with the current time
  unfoldable pub publish_date : UploadElement → S → Result ℕ
  unfolding head
  publish_date e s = do
    response ← head http p cfg formats ctx (build_maven_path_for_element p e cfg) s
    date_of_response response

  -- the loop over the versions
  unfoldable pub manifests_of : UploadElement → List Bytes → List UploadElement
  unfolding file_name set_filename_overwrite new_upload_element eq_bytes
  manifests_of e [] = []
  manifests_of e (version ∷ versions) =
      let rest = manifests_of e versions in
      let m =
        set_filename_overwrite (codes "Package")
          (new_upload_element e.scope e.name version text_x_swift manifest) in
      if eq_bytes version e.version
      then rest
      else if not (eq_bytes (file_name p m) (codes "Package.swift"))
      then m ∷ rest
      else rest

  unfoldable pub get_alternative_manifests : UploadElement → S → Result (List UploadElement)
  unfolding manifests_of load_metadata
  get_alternative_manifests e s = ok (
      manifests_of e (
        versions_of (
          load_metadata http p cfg formats xml ctx (build_group_id e.scope cfg)
            (build_artifact_id e.name) s)))

  unfoldable pub lookup : Bytes → List Bytes
  lookup url = []

  -- the checksum of the .sha256 file, if it can be one
  abbrev stored_checksum : Fetched → Option Bytes
  stored_checksum (request_error e) = none
  stored_checksum (status_error status) = none
  stored_checksum (fetched response) =
      if not (response.status == 200) then none else elim response.body [
        | err _ ↦ none
        | ok text ↦
            let checksum = trim_space text in if length checksum == 64 then some checksum else none
      ]

  -- `computed` is the digest of what the element's reader yields, or the error of reading it.
  unfoldable pub checksum : UploadElement → Result Bytes → S → Result Bytes
  unfolding get exists trim_space
  checksum e computed s =
      let path = build_maven_path_for_element p e cfg ++ codes ".sha256" in
      if not (exists http p cfg formats ctx e s)
      then err (codes "file does not exist")
      else elim (stored_checksum (get http p cfg formats ctx path s)) [
        | some stored ↦ ok stored
        | none ↦ computed
      ]

  unfoldable pub list_scopes : S → Result (List Bytes)
  unfolding get_spm_registry_index
  list_scopes s = elim (get_spm_registry_index http p cfg formats ctx slices s) [
    | err _ ↦ ok []
    | ok scopes ↦ ok scopes
  ]

  -- the loop over the packages of a scope
  unfoldable pub versions_in : Bytes → List Bytes → S → List ListElement
  unfolding load_metadata
  versions_in scope [] s = []
  versions_in scope (name ∷ names) s =
      listed_versions scope name
        (load_metadata http p cfg formats xml ctx (build_group_id scope cfg) name s)
      ++ versions_in scope names s

  unfoldable pub list_in_scope : Bytes → S → Result (List ListElement)
  unfolding get_spm_registry_index_full versions_in packages_in
  list_in_scope scope s = elim (get_spm_registry_index_full http p cfg formats ctx slices s) [
    | err _ ↦ ok []
    | ok index ↦ ok (versions_in scope (packages_in scope (packages_of_index index)) s)
  ]

  abbrev or_nothing : {A : Type 0} → Result (List A) → List A
  or_nothing (err _) = []
  or_nothing (ok elements) = elements

  -- the loop over the scopes
  unfoldable pub packages_of : List Bytes → S → List ListElement
  unfolding list_in_scope
  packages_of [] s = []
  packages_of (scope ∷ scopes) s = or_nothing (list_in_scope scope s) ++ packages_of scopes s

  unfoldable pub list_all : S → Result (List ListElement)
  unfolding list_scopes packages_of
  list_all s = do scopes ← list_scopes s; ok (packages_of scopes s)
