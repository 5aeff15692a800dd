-- ===== src/Files/Archive.antt =====
-- repo/files/utils.go: the manifests in a source archive.
pub mod Directories
use openspmregistry.Prelude.{
  Bool, true, false, not, ◌&&◌, ◌||◌, List, [], ◌∷◌, ◌++◌, Result, ok, err, if◌then◌else◌,
}
use openspmregistry.Strings.{
  Bytes, codes, eq_bytes, is_empty, has_prefix, trim_prefix, to_lower, contains_byte,
}
use openspmregistry.Strings.Paths.{path_clean, path_dir, path_base, path_ext}
use openspmregistry.Models.Element.{UploadElement}

-- A file of a zip archive: what opening it yields, and what reading the open file yields.
pub record ZipFile : Type 0 where
  pub name : Bytes
  pub is_dir : Bool
  pub opened : Result (Result Bytes)
  pub unclosable : Bool

-- the directories in which a manifest is looked for
unfoldable pub in_manifest_dir : UploadElement → Bytes → Bool
in_manifest_dir e dir =
    let id = e.scope ++ (codes "." ++ e.name) in
    let at_root = eq_bytes dir (codes ".") || is_empty dir in
    let single_top_level = eq_bytes dir id || eq_bytes dir (e.name ++ (codes "-" ++ e.version)) in
    let nested_under_id =
      has_prefix dir id && not (contains_byte b'/' (trim_prefix (to_lower dir) (to_lower id))) in
    at_root || (single_top_level || nested_under_id)

unfoldable pub is_package_swift : Bytes → Bool
is_package_swift base =
    has_prefix (to_lower base) (codes "package")
    && eq_bytes (to_lower (path_ext base)) (codes ".swift")

unfoldable pub is_package_json : Bytes → Bool
is_package_json base = eq_bytes (to_lower base) (codes "package.json")

-- `extractor` is the callback: the base name, what reading yields, and the state.
module _ {S : Type 0} (extractor : Bytes → Result Bytes → S → Result (Unit {0}) × S) where
  -- an error of closing comes before one of the callback
  abbrev closed : Bool → Result (Unit {0}) × S → Result (Unit {0}) × S
  closed true (_, s) = (err (codes "close"), s)
  closed false r = r

  abbrev read_opened : Bytes → Bool → Result (Result Bytes) → S → Result (Unit {0}) × S
  read_opened base unclosable (err e) s = (err e, s)
  read_opened base unclosable (ok content) s = closed unclosable (extractor base content s)

  -- open, call back, close
  unfoldable pub extract_file : Bytes → ZipFile → S → Result (Unit {0}) × S
  extract_file base f s = read_opened base f.unclosable f.opened s

  abbrev and_then : Result (Unit {0}) × S → (S → Result (Unit {0}) × S) → Result (Unit {0}) × S
  and_then (err e, s) next = (err e, s)
  and_then (ok _, s) next = next s

  -- one round of the loop
  unfoldable pub visit_file : UploadElement → ZipFile → S → Result (Unit {0}) × S
  unfolding extract_file
  visit_file e f s =
      let clean_name = path_clean f.name in
      let base = path_base clean_name in
      if f.is_dir || not (in_manifest_dir e (path_dir clean_name))
      then (ok tt, s)
      else and_then (if is_package_swift base then extract_file base f s else (ok tt, s))
          (λ s'. if is_package_json base then extract_file base f s' else (ok tt, s'))

  -- `ExtractManifestFilesFromZipReader`
  unfoldable pub extract_manifest_files_from_zip_reader :
      UploadElement → List ZipFile → S → Result (Unit {0}) × S
  extract_manifest_files_from_zip_reader e [] s = (ok tt, s)
  extract_manifest_files_from_zip_reader e (f ∷ files) s =
      and_then (visit_file e f s) (extract_manifest_files_from_zip_reader e files)
