-- ===== src/Files/Backend.antt =====
-- repo/files/filerepo.go: the operations of the storage interface on a directory.
use openspmregistry.Prelude.{
  ℕ, Bool, false, not, ◌||◌, Option, none, some, List, [], ◌∷◌, ◌++◌, Result, ok, err, ◌>>=◌,
  if◌then◌else◌,
}
use openspmregistry.Strings.{Bytes, codes, eq_bytes, has_prefix, has_suffix, trim_suffix}
use openspmregistry.Strings.Paths.{path_join, path_dir, path_base, path_ext}
use openspmregistry.Json.{Fields}
use openspmregistry.Models.Element.{
  Platform, UploadElement, ListElement, new_upload_element, set_filename_overwrite, file_name,
  metadata, manifest, package_manifest_json, text_x_swift, application_json,
}
use openspmregistry.Repo.Shared.{first_line, version_of_line, names_url}
use openspmregistry.Files.Archive.{ZipFile}
use openspmregistry.Files.Access.{
  not_exist, stat_failed, stat_ok, Entry, Visit, OsAdapter, path_folder, path_file, exists,
  get_reader,
}

-- Functions of the packages archive/zip, encoding and crypto.
pub record Formats (S : Type 0) : Type 0 where
  -- zip.OpenReader
  pub open_zip : Bytes → S → Result (List ZipFile)
  -- json.Unmarshal and the first value of a json.Decoder, into a map
  pub unmarshal : Bytes → Result Fields
  pub decode : Bytes → Result Fields
  -- base64.StdEncoding.EncodeToString
  pub base64 : Bytes → Bytes
  -- the hexadecimal text of sha256.Sum256
  pub digest : Bytes → Bytes

-- opening and reading, one after the other
abbrev pub content_of : Result (Result Bytes) → Result Bytes
content_of (err e) = err e
content_of (ok read) = read

abbrev missing_path : {A : Type 0} → Bytes → Result A
missing_path folder = err (codes "path does not exists: " ++ folder)

module _ {S : Type 0} (os : OsAdapter S) (p : Platform) (root : Bytes) (formats : Formats S)
    (now : ℕ) where
  abbrev missing_file : {A : Type 0} → UploadElement → Result A
  missing_file e = err (codes "file not exists: " ++ file_name p e)

  -- the loop of the function that `List` gives to WalkDir
  unfoldable pub walked_versions : Bytes → Bytes → Bytes → List Visit → Result (List ListElement)
  walked_versions path scope name [] = ok []
  walked_versions path scope name (v ∷ visits) =
      let rest = walked_versions path scope name visits in
      elim v.failure [
        | some e ↦ err e
        | none ↦
            if eq_bytes v.path path || not v.entry.is_dir
            then rest
            else rest >>= λ elements.
                ok
                  (record { scope = scope; package_name = name; version = v.entry.name } ∷ elements)
      ]

  unfoldable pub list : Bytes → Bytes → S → Result (List ListElement)
  unfolding walked_versions path_join
  list scope name s =
      let path = path_join (root ∷ scope ∷ name ∷ []) in
      elim (os.stat path s) [
        | not_exist ↦ ok []
        | stat_failed e ↦ err e
        | stat_ok _ ↦ walked_versions path scope name (os.walk_dir path s)
      ]

  unfoldable pub encode_base64 : UploadElement → S → Result Bytes
  unfolding exists get_reader
  encode_base64 e s =
      if not (exists os p root e s)
      then missing_file e
      else content_of (get_reader os p root e s) >>= λ content. ok (formats.base64 content)

  -- an error comes with the current time
  unfoldable pub publish_date : UploadElement → S → Result ℕ
  unfolding exists path_folder path_join file_name
  publish_date e s =
      let folder = path_folder p root e in
      if not (exists os p root e s)
      then missing_path folder
      else elim (os.stat (path_join (folder ∷ file_name p e ∷ [])) s) [
        | not_exist ↦ err (codes "file does not exist")
        | stat_failed e ↦ err e
        | stat_ok date ↦ ok date
      ]

  -- the content of an element that must exist, read by a format
  abbrev read_element : UploadElement → (Bytes → Result Fields) → S → Result Fields
  read_element e read s =
      if not (exists os p root e s)
      then missing_file e
      else content_of (get_reader os p root e s) >>= read

  unfoldable pub load_metadata : Bytes → Bytes → Bytes → S → Result Fields
  unfolding exists get_reader path_join new_upload_element
  load_metadata scope name version s =
      let folder = path_join (root ∷ scope ∷ name ∷ version ∷ []) in
      let e = new_upload_element scope name version application_json metadata in
      elim (os.stat folder s) [
        | not_exist ↦ missing_path folder
        | stat_failed message ↦ err message
        | stat_ok _ ↦ read_element e formats.unmarshal s
      ]

  unfoldable pub checksum : UploadElement → S → Result Bytes
  unfolding exists path_file
  checksum e s =
      if not (exists os p root e s)
      then missing_file e
      else content_of (os.open_file (path_file p root e) s) >>= λ content.
          ok (formats.digest content)

  -- the loop of the function that `GetAlternativeManifests` gives to WalkDir
  unfoldable pub walked_manifests : Bytes → UploadElement → List Visit → Result (List UploadElement)
  unfolding path_ext set_filename_overwrite new_upload_element
  walked_manifests folder e [] = ok []
  walked_manifests folder e (v ∷ visits) =
      let rest = walked_manifests folder e visits in
      let filename = v.entry.name in
      let m =
        set_filename_overwrite (trim_suffix filename (path_ext filename))
          (new_upload_element e.scope e.name e.version text_x_swift manifest) in
      if eq_bytes v.path folder then rest else elim v.failure [
        | some message ↦ err message
        | none ↦
            if v.entry.is_dir
              || (eq_bytes filename (codes "Package.swift")
                  || (not (has_prefix filename (codes "Package"))
                      || not (eq_bytes (path_ext v.path) (codes ".swift"))))
            then rest
            else rest >>= λ manifests. ok (m ∷ manifests)
      ]

  unfoldable pub get_alternative_manifests : UploadElement → S → Result (List UploadElement)
  unfolding walked_manifests path_folder
  get_alternative_manifests e s =
      let folder = path_folder p root e in
      elim (os.stat folder s) [
        | not_exist ↦ missing_path folder
        | stat_failed message ↦ err message
        | stat_ok _ ↦ walked_manifests folder e (os.walk_dir folder s)
      ]

  unfoldable pub get_swift_tool_version : UploadElement → S → Result Bytes
  unfolding exists path_file
  get_swift_tool_version e s =
      if not (exists os p root e s)
      then missing_file e
      else content_of (os.open_file (path_file p root e) s) >>= λ content.
          version_of_line (first_line content)

  abbrev names_the_url : Bytes → Result Fields → Bool
  names_the_url url (err _) = false
  names_the_url url (ok fields) = names_url url fields

  -- the loop of the function that `Lookup` gives to WalkDir; none is nil
  unfoldable pub walked_lookup : Bytes → List Visit → S → Option (List Bytes)
  unfolding load_metadata path_dir path_base
  walked_lookup url [] s = none
  walked_lookup url (v ∷ visits) s =
      let rest = walked_lookup url visits s in
      let version = path_base (path_dir v.path) in
      let scope = path_base (path_dir (path_dir (path_dir v.path))) in
      let name = path_base (path_dir (path_dir v.path)) in
      elim v.failure [
        | some _ ↦ none
        | none ↦
            if v.entry.is_dir || not (has_suffix v.entry.name (codes "metadata.json"))
            then rest
            else if names_the_url url (load_metadata scope name version s)
            then some ((scope ++ (codes "." ++ name)) ∷ [])
            else rest
      ]

  unfoldable pub lookup : Bytes → S → Option (List Bytes)
  unfolding walked_lookup
  lookup url s = walked_lookup url (os.walk_dir root s) s

  unfoldable pub remove : UploadElement → S → Result (Unit {0}) × S
  unfolding exists path_file
  remove e s =
      if exists os p root e s then os.remove_file (path_file p root e) s else (missing_file e, s)

  -- the names of the directories
  unfoldable pub directories : List Entry → List Bytes
  directories [] = []
  directories (entry ∷ entries) =
      let rest = directories entries in if entry.is_dir then entry.name ∷ rest else rest

  unfoldable pub list_scopes : S → Result (List Bytes)
  unfolding directories
  list_scopes s = os.read_dir root s >>= λ entries. ok (directories entries)

  abbrev or_nothing : Result (List ListElement) → List ListElement
  or_nothing (err _) = []
  or_nothing (ok elements) = elements

  -- the loop over the packages of a scope
  unfoldable pub versions_of : Bytes → List Bytes → S → List ListElement
  unfolding list
  versions_of scope [] s = []
  versions_of scope (name ∷ names) s = or_nothing (list scope name s) ++ versions_of scope names s

  unfoldable pub list_in_scope : Bytes → S → Result (List ListElement)
  unfolding versions_of directories path_join
  list_in_scope scope s =
      let path = path_join (root ∷ scope ∷ []) in
      elim (os.stat path s) [
        | not_exist ↦ err (codes "file does not exist")
        | stat_failed e ↦ err e
        | stat_ok _ ↦
            os.read_dir path s >>= λ entries. ok (versions_of scope (directories entries) s)
      ]

  -- the loop over the scopes
  unfoldable pub packages_of : List Bytes → S → List ListElement
  unfolding list_in_scope
  packages_of [] s = []
  packages_of (scope ∷ scopes) s = or_nothing (list_in_scope scope s) ++ packages_of scopes s

  unfoldable pub list_all : S → Result (List ListElement)
  unfolding list_scopes packages_of
  list_all s = list_scopes s >>= λ scopes. ok (packages_of scopes s)

  unfoldable pub load_package_json : Bytes → Bytes → Bytes → S → Result Fields
  unfolding exists path_file new_upload_element
  load_package_json scope name version s =
      let e = new_upload_element scope name version application_json package_manifest_json in
      if not (exists os p root e s)
      then err (codes "package.json not found")
      else content_of (os.open_file (path_file p root e) s) >>= formats.decode
