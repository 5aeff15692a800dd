-- ===== src/S3/Backend.antt =====
-- repo/s3/s3repo.go: the operations of the storage interface on a bucket.
pub mod Storing
pub mod Writing
use openspmregistry.Prelude.{
  ℕ, Bool, true, false, not, ◌&&◌, ◌||◌, Option, none, some, List, [], ◌∷◌, ◌++◌, ◌==◌, leb, Result,
  ok, err, map, if◌then◌else◌, length,
}
use openspmregistry.Strings.{
  Bytes, codes, eq_bytes, has_prefix, has_suffix, trim_prefix, trim_suffix, to_lower, trim_space,
  split, is_empty,
}
use openspmregistry.Strings.Paths.{path_ext}
use openspmregistry.Json
use openspmregistry.Json.{Json, Items, Fields, nil, cons, string, as_array}
use openspmregistry.Config.{S3Config}
use openspmregistry.Models.Element.{
  Platform, UploadElement, ListElement, new_upload_element, set_filename_overwrite, metadata,
  manifest, package_manifest_json, text_x_swift, application_json, application_zip,
}
use openspmregistry.Repo.{Repo, Context}
use openspmregistry.Repo.Shared.{first_line, version_of_line, on_ok, names_url}
use openspmregistry.Files.Archive.{ZipFile, extract_manifest_files_from_zip_reader}
use openspmregistry.S3.Keys.{
  build_prefix, build_element_key, last_segment, parse_scope_name_version,
}
use openspmregistry.S3.Client.{
  Client, Head, S3Writer, exists, get_reader, get_reader_for_key, get_writer, write, close,
}
use openspmregistry.S3.Pages.{list_common_prefixes, list_keys_with_suffix}

-- Functions of the packages archive/zip, encoding and crypto.
pub record Formats : Type 0 where
  -- zip.NewReader
  pub open_zip : Bytes → Result (List ZipFile)
  -- json.Unmarshal and the first value of a json.Decoder, into a map
  pub unmarshal : Bytes → Result Fields
  pub decode : Bytes → Result Fields
  -- base64.StdEncoding.EncodeToString
  pub base64 : Bytes → Bytes
  -- the hexadecimal text of sha256.Sum256
  pub digest : Bytes → Bytes

-- the end of a listing: fuel that is too small is an error of the model
abbrev pub settled : {A : Type 0} → Option (Result A) → Result A
settled none = err (codes "listing not finished")
settled (some r) = r

-- The fuel bounds the pages of one listing.
module _ {S : Type 0} (client : Client S) (p : Platform) (cfg : S3Config) (formats : Formats)
    (fuel now : ℕ) where
  abbrev not_exists : {A : Type 0} → Result A
  not_exists = err (codes "file not exists")

  unfoldable pub list : Bytes → Bytes → S → Result (List ListElement)
  unfolding list_common_prefixes last_segment
  list scope name s =
      on_ok (settled (list_common_prefixes client s fuel (build_prefix cfg (scope ∷ name ∷ []))))
        (λ prefixes. ok (
          map (λ cp. record { scope = scope; package_name = name; version = last_segment cp })
            prefixes))

  unfoldable pub encode_base64 : UploadElement → S → Result Bytes
  encode_base64 e s =
      if not (exists client p cfg e s)
      then not_exists
      else on_ok (get_reader client p cfg e s) (λ content. ok (formats.base64 content))

  abbrev date_of : Head → ℕ
  date_of head = elim head.last_modified [ none ↦ now | some date ↦ date ]

  -- an error comes with the current time
  unfoldable pub publish_date : UploadElement → S → Result ℕ
  publish_date e s =
      on_ok (client.head_object (build_element_key p cfg e) s) (λ head. ok (date_of head))

  unfoldable pub load_metadata : Bytes → Bytes → Bytes → S → Result Fields
  load_metadata scope name version s =
      let e = new_upload_element scope name version application_json metadata in
      if not (exists client p cfg e s)
      then not_exists
      else on_ok (get_reader client p cfg e s) formats.unmarshal

  -- the loop over out.Metadata
  unfoldable pub stored_checksum : List (Bytes × Bytes) → Option Bytes
  stored_checksum [] = none
  stored_checksum ((key, value) ∷ entries) =
      let rest = stored_checksum entries in
      if eq_bytes (to_lower key) (codes "sha256") && length value == 64 then some value else rest

  -- behind the response of HeadObject
  unfoldable pub checksum_of_head : Bytes → S → Head → Result Bytes
  unfolding stored_checksum
  checksum_of_head key s head = elim (stored_checksum head.metadata) [
    | some value ↦ ok value
    | none ↦ on_ok (get_reader_for_key client key s) (λ content. ok (formats.digest content))
  ]

  unfoldable pub checksum : UploadElement → S → Result Bytes
  checksum e s =
      let key = build_element_key p cfg e in
      on_ok (client.head_object key s) (checksum_of_head key s)

  -- the loop over the keys
  unfoldable pub manifests_of : UploadElement → List Bytes → List UploadElement
  manifests_of e [] = []
  manifests_of e (key ∷ keys) =
      let filename = last_segment key in
      let ext = path_ext filename in
      let rest = manifests_of e keys in
      if not (eq_bytes filename (codes "Package.swift"))
        && (has_prefix filename (codes "Package") && eq_bytes (to_lower ext) (codes ".swift"))
      then set_filename_overwrite (trim_suffix filename ext)
          (new_upload_element e.scope e.name e.version text_x_swift manifest)
        ∷ rest
      else rest

  unfoldable pub get_alternative_manifests : UploadElement → S → Result (List UploadElement)
  unfolding manifests_of
  get_alternative_manifests e s =
      let prefix = build_prefix cfg (e.scope ∷ e.name ∷ e.version ∷ []) in
      on_ok (settled (list_keys_with_suffix client s fuel prefix []))
        (λ keys. ok (manifests_of e keys))

  unfoldable pub get_swift_tool_version : UploadElement → S → Result Bytes
  get_swift_tool_version e s =
      if not (exists client p cfg e s)
      then not_exists
      else on_ok (get_reader client p cfg e s) (λ content. version_of_line (first_line content))

  abbrev found_in : Bytes → Bytes × Bytes × Bytes → S → Bool
  found_in url (scope, name, version) s = elim (load_metadata scope name version s) [
    | err _ ↦ false
    | ok fields ↦ names_url url fields
  ]

  abbrev identifier : Bytes × Bytes × Bytes → List Bytes
  identifier (scope, name, _) = (scope ++ (codes "." ++ name)) ∷ []

  -- the loop over the keys; `none` is nil
  unfoldable pub lookup_in : Bytes → List Bytes → S → Option (List Bytes)
  unfolding load_metadata
  lookup_in url [] s = none
  lookup_in url (key ∷ keys) s =
      let rest = lookup_in url keys s in
      elim (parse_scope_name_version cfg key) [
        | none ↦ rest
        | some names ↦ if found_in url names s then some (identifier names) else rest
      ]

  unfoldable pub lookup : Bytes → S → Option (List Bytes)
  unfolding lookup_in
  lookup url s =
      elim (settled
        (list_keys_with_suffix client s fuel (build_prefix cfg []) (codes "metadata.json"))) [
          | err _ ↦ none
          | ok keys ↦ lookup_in url keys s
        ]

  unfoldable pub remove : UploadElement → S → Result (Unit {0}) × S
  remove e s =
      if not (exists client p cfg e s)
      then (not_exists, s)
      else client.delete_object (build_element_key p cfg e) s

  unfoldable pub list_scopes : S → Result (List Bytes)
  list_scopes s =
      on_ok (settled (list_common_prefixes client s fuel (build_prefix cfg [])))
        (λ prefixes. ok (map last_segment prefixes))

  abbrev or_nothing : {A : Type 0} → Result (List A) → List A
  or_nothing (err _) = []
  or_nothing (ok elements) = elements

  -- the loop over the packages
  unfoldable pub versions_of : Bytes → List Bytes → S → List ListElement
  unfolding list
  versions_of scope [] s = []
  versions_of scope (cp ∷ prefixes) s =
      or_nothing (list scope (last_segment cp) s) ++ versions_of scope prefixes s

  unfoldable pub list_in_scope : Bytes → S → Result (List ListElement)
  unfolding versions_of
  list_in_scope scope s =
      on_ok (settled (list_common_prefixes client s fuel (build_prefix cfg (scope ∷ []))))
        (λ prefixes. ok (versions_of scope prefixes s))

  -- the loop over the scopes
  unfoldable pub packages_of : List Bytes → S → List ListElement
  unfolding list_in_scope
  packages_of [] s = []
  packages_of (scope ∷ scopes) s = or_nothing (list_in_scope scope s) ++ packages_of scopes s

  unfoldable pub list_all : S → Result (List ListElement)
  unfolding packages_of list_scopes
  list_all s = on_ok (list_scopes s) (λ scopes. ok (packages_of scopes s))

  unfoldable pub load_package_json : Bytes → Bytes → Bytes → S → Result Fields
  load_package_json scope name version s =
      let e = new_upload_element scope name version application_json package_manifest_json in
      if not (exists client p cfg e s)
      then err (codes "package.json not found")
      else on_ok (get_reader client p cfg e s) formats.decode

  -- the element that a file of the archive is stored as
  unfoldable pub extracted_element : UploadElement → Bytes → Option UploadElement
  extracted_element e name =
      let ext = path_ext name in
      if has_prefix (to_lower name) (codes "package") && eq_bytes (to_lower ext) (codes ".swift")
      then some (
          set_filename_overwrite (trim_suffix name ext)
            (new_upload_element e.scope e.name e.version text_x_swift manifest))
      else if eq_bytes (to_lower name) (codes "package.json")
      then some (new_upload_element e.scope e.name e.version application_json package_manifest_json)
      else none

  -- `fileExtractor`: only an error of reading is passed on
  unfoldable pub file_extractor : UploadElement → Bytes → Result Bytes → S → Result (Unit {0}) × S
  unfolding extracted_element
  file_extractor e name (err message) s = (err message, s)
  file_extractor e name (ok content) s = elim (extracted_element e name) [
    | none ↦ (ok tt, s)
    | some element ↦
        (ok tt, (close client formats.digest (write (get_writer client p cfg element) content) s).1)
  ]

  abbrev extract_from : UploadElement → Result (List ZipFile) → S → Result (Unit {0}) × S
  extract_from e (err message) s = (err message, s)
  extract_from e (ok files) s = extract_manifest_files_from_zip_reader (file_extractor e) e files s

  unfoldable pub extract_manifest_files : UploadElement → S → Result (Unit {0}) × S
  extract_manifest_files e s =
      if not (eq_bytes e.mime_type application_zip)
      then (err (codes "unsupported mime type"), s)
      else extract_from e (on_ok (get_reader client p cfg e s) formats.open_zip) s

  -- The storage interface. The context reaches the client only, which does not read the header.
  abbrev pub s3_repo : Repo S S3Writer
  s3_repo = record {
    exists = λ ctx. exists client p cfg;
    get_reader = λ ctx. get_reader client p cfg;
    get_writer = λ ctx e s. (ok (get_writer client p cfg e), s);
    write = λ w content s. (ok (write w content), s);
    close = close client formats.digest;
    extract_manifest_files = λ ctx. extract_manifest_files;
    list = λ ctx. list;
    encode_base64 = λ ctx. encode_base64;
    publish_date = λ ctx. publish_date;
    checksum = λ ctx. checksum;
    load_metadata = λ ctx. load_metadata;
    get_alternative_manifests = λ ctx. get_alternative_manifests;
    get_swift_tool_version = λ ctx. get_swift_tool_version;
    lookup = λ ctx. lookup;
    remove = λ ctx. remove;
    list_scopes = λ ctx. list_scopes;
    list_in_scope = λ ctx. list_in_scope;
    list_all = λ ctx. list_all;
    load_package_json = λ ctx. load_package_json;
  }
