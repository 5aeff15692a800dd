-- ===== src/Files/Extraction.antt =====
-- `ExtractManifestFiles` and `writePackageSwiftFiles` of repo/files/filerepo.go,
-- `ExtractPackageSwiftFiles` of repo/files/utils.go, and the storage interface on a directory.
use openspmregistry.Prelude.{ℕ, List, [], ◌∷◌, Result, ok, err, if◌then◌else◌}
use openspmregistry.Strings.{Bytes, codes, eq_bytes}
use openspmregistry.Strings.Paths.{path_join}
use openspmregistry.Models.Element.{Platform, UploadElement, file_name, application_zip}
use openspmregistry.Repo.{Repo}
use openspmregistry.Files.Archive.{ZipFile, extract_manifest_files_from_zip_reader}
use openspmregistry.Files.Access.{
  not_exist, stat_failed, stat_ok, OsAdapter, FileWriter, path_folder, exists, get_reader,
  get_writer, write, close,
}
use openspmregistry.Files.Backend.{
  Formats, content_of, list, encode_base64, publish_date, load_metadata, checksum,
  get_alternative_manifests, get_swift_tool_version, lookup, remove, list_scopes, list_in_scope,
  list_all, load_package_json,
}

module _ {S : Type 0} (os : OsAdapter S) where
  -- closing the file behind an error: the error of closing comes first
  abbrev closed_with : Bytes → Result (Unit {0}) × S → Result (Unit {0}) × S
  closed_with message (err e, s) = (err e, s)
  closed_with message (ok _, s) = (err message, s)

  abbrev written : Bytes → Result (Unit {0}) × S → Result (Unit {0}) × S
  written path (err e, s) = closed_with e (os.close_file path s)
  written path (ok _, s) = os.close_file path s

  abbrev copied : Bytes → Result Bytes → Result (Unit {0}) × S → Result (Unit {0}) × S
  copied path content (err e, s) = (err e, s)
  copied path (err e) (ok _, s) = closed_with e (os.close_file path s)
  copied path (ok content) (ok _, s) = written path (os.write_file path content s)

  -- The file is written in one piece: what was read before an error of reading is not in it.
  unfoldable pub write_package_swift_files :
      Bytes → Bytes → Result Bytes → S → Result (Unit {0}) × S
  unfolding path_join
  write_package_swift_files folder name content s =
      let path = path_join (folder ∷ name ∷ []) in copied path content (os.create path s)

module _ {S : Type 0} (os : OsAdapter S) (p : Platform) (root : Bytes) (formats : Formats S) where
  abbrev extract_from : UploadElement → Bytes → Result (List ZipFile) → S → Result (Unit {0}) × S
  extract_from e folder (err message) s = (err message, s)
  extract_from e folder (ok files) s =
      extract_manifest_files_from_zip_reader (write_package_swift_files os folder) e files s

  unfoldable pub extract_package_swift_files :
      UploadElement → Bytes → Bytes → S → Result (Unit {0}) × S
  unfolding write_package_swift_files
  extract_package_swift_files e folder path s =
      if eq_bytes e.mime_type application_zip
      then extract_from e folder (formats.open_zip path s) s
      else (ok tt, s)

  -- The error of Stat is not that of MkdirAll, and is returned behind it.
  abbrev made_folder : Result (Unit {0}) × S → Result (Unit {0}) × S
  made_folder (err e, s) = (err e, s)
  made_folder (ok _, s) = (err (codes "file does not exist"), s)

  unfoldable pub extract_manifest_files : UploadElement → S → Result (Unit {0}) × S
  unfolding extract_package_swift_files path_folder path_join file_name
  extract_manifest_files e s =
      let folder = path_folder p root e in
      elim (os.stat folder s) [
        | not_exist ↦ made_folder (os.mkdir_all folder s)
        | stat_failed message ↦ (err message, s)
        | stat_ok _ ↦
            if eq_bytes e.mime_type application_zip
            then extract_package_swift_files e folder (path_join (folder ∷ file_name p e ∷ [])) s
            else (err (codes "unsupported mime type"), s)
      ]

-- The storage interface. The context is not read.
module _ {S : Type 0} (os : OsAdapter S) (p : Platform) (root : Bytes) (formats : Formats S)
    (now : ℕ) where
  abbrev pub file_repo : Repo S FileWriter
  file_repo = record {
    exists = λ ctx. exists os p root;
    get_reader = λ ctx e s. content_of (get_reader os p root e s);
    get_writer = λ ctx. get_writer os p root;
    write = write os p root;
    close = close os p root;
    extract_manifest_files = λ ctx. extract_manifest_files os p root formats;
    list = λ ctx. list os p root formats now;
    encode_base64 = λ ctx. encode_base64 os p root formats now;
    publish_date = λ ctx. publish_date os p root formats now;
    checksum = λ ctx. checksum os p root formats now;
    load_metadata = λ ctx. load_metadata os p root formats now;
    get_alternative_manifests = λ ctx. get_alternative_manifests os p root formats now;
    get_swift_tool_version = λ ctx. get_swift_tool_version os p root formats now;
    lookup = λ ctx. lookup os p root formats now;
    remove = λ ctx. remove os p root formats now;
    list_scopes = λ ctx. list_scopes os p root formats now;
    list_in_scope = λ ctx. list_in_scope os p root formats now;
    list_all = λ ctx. list_all os p root formats now;
    load_package_json = λ ctx. load_package_json os p root formats now;
  }
