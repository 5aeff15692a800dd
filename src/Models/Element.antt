-- ===== src/Models/Element.antt =====
-- `UploadElement` and `ListElement` of models/models.go, and mimetypes/mimetypes.go.
pub mod FileNames
use openspmregistry.Prelude.{Bool, Option, none, some, List, [], ◌∷◌, ◌++◌, ◌==◌, if◌then◌else◌}
use openspmregistry.Strings.{Bytes, codes, is_empty}

-- The standard library's functions that depend on tables of the platform or on the network's
-- grammars. `none` is a non-nil error.
pub record Platform : Type 0 where
  -- mime.ExtensionsByType
  pub extensions_by_type : Bytes → Option (List Bytes)
  -- the media type of mime.ParseMediaType
  pub parse_media_type : Bytes → Option Bytes
  -- url.JoinPath(base, elements...)
  pub join_path : Bytes → List Bytes → Option Bytes

abbrev pub application_zip : Bytes
application_zip = codes "application/zip"

abbrev pub application_json : Bytes
application_json = codes "application/json"

abbrev pub text_x_swift : Bytes
text_x_swift = codes "text/x-swift"

abbrev pub application_octet_stream : Bytes
application_octet_stream = codes "application/octet-stream"

-- The string constants of UploadElementType.
pub data UploadElementType : Type 0 where
  source_archive source_archive_signature metadata metadata_signature manifest
        package_manifest_json :
      UploadElementType

pub record UploadElement : Type 0 where
  pub scope : Bytes
  pub name : Bytes
  pub version : Bytes
  pub mime_type : Bytes
  pub filename_overwrite : Bytes
  pub ext_overwrite : Bytes

pub record ListElement : Type 0 where
  pub scope : Bytes
  pub package_name : Bytes
  pub version : Bytes

unfoldable pub set_filename_overwrite : Bytes → UploadElement → UploadElement
set_filename_overwrite filename e = record e { filename_overwrite = filename }

unfoldable pub set_ext_overwrite : Bytes → UploadElement → UploadElement
set_ext_overwrite ext e = record e { ext_overwrite = ext }

-- the switch of `NewUploadElement`
unfoldable pub overwrites : UploadElementType → UploadElement → UploadElement
unfolding set_filename_overwrite set_ext_overwrite
overwrites source_archive e = e
overwrites source_archive_signature e = set_ext_overwrite (codes ".sig") e
overwrites metadata e = set_filename_overwrite (codes "metadata") e
overwrites metadata_signature e =
    set_ext_overwrite (codes ".sig") (set_filename_overwrite (codes "metadata") e)
overwrites manifest e =
    set_ext_overwrite (codes ".swift") (set_filename_overwrite (codes "Package") e)
overwrites package_manifest_json e =
    set_ext_overwrite (codes ".json") (set_filename_overwrite (codes "Package") e)

unfoldable pub new_upload_element :
    Bytes → Bytes → Bytes → Bytes → UploadElementType → UploadElement
unfolding overwrites
new_upload_element scope name version mime_type upload_type = overwrites upload_type (record {
  scope = scope;
  name = name;
  version = version;
  mime_type = mime_type;
  filename_overwrite = [];
  ext_overwrite = [];
})

-- `FilenameWithoutExtension`
unfoldable pub filename_without_extension : UploadElement → Bytes
filename_without_extension e =
    if is_empty e.filename_overwrite
    then e.scope ++ (codes "." ++ (e.name ++ (codes "-" ++ e.version)))
    else e.filename_overwrite

-- the overwritten first extension
unfoldable pub overwritten : Bytes → List Bytes → List Bytes
overwritten [] extensions = extensions
overwritten (c ∷ ext) [] = (c ∷ ext) ∷ []
overwritten (c ∷ ext) (_ ∷ extensions) = (c ∷ ext) ∷ extensions

abbrev with_first : Bytes → List Bytes → Bytes
with_first base [] = base
with_first base (x ∷ _) = base ++ x

unfoldable pub file_name : Platform → UploadElement → Bytes
unfolding overwritten filename_without_extension
file_name p e = elim (p.extensions_by_type e.mime_type) [
  | none ↦ filename_without_extension e
  | some extensions ↦
      with_first (filename_without_extension e) (overwritten e.ext_overwrite extensions)
]

abbrev without_dot : Bytes → Bytes
without_dot [] = []
without_dot (c ∷ ext) = if c == b'.' then ext else c ∷ ext

abbrev or_zip : Option (List Bytes) → Bytes
or_zip none = codes "zip"
or_zip (some []) = codes "zip"
or_zip (some (ext ∷ _)) = if is_empty ext then codes "zip" else without_dot ext

unfoldable pub extension : Platform → UploadElement → Bytes
extension p e =
    if is_empty e.ext_overwrite
    then or_zip (p.extensions_by_type e.mime_type)
    else without_dot e.ext_overwrite
