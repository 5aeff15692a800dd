-- ===== src/Models/Element/FileNames.antt =====
-- The names under which elements are stored.
use openspmregistry.Prelude.{◌≡◌, some, List, ◌∷◌, ◌++◌, arith}
use openspmregistry.Strings.{Bytes, codes}
use openspmregistry.Models.Element.{
  Platform, UploadElementType, source_archive, source_archive_signature, metadata,
  metadata_signature, manifest, package_manifest_json, file_name, extension,
  filename_without_extension, new_upload_element,
}

-- For every kind of element and every mime type whose first extension in the platform's table
-- begins with a dot, the file name is the name without extension, a dot and the extension: the
-- names that the file and S3 backends use and the parts that the Maven backend uses agree.
pub file_name-new_upload_element :
    (p : Platform) (scope name version mime : Bytes) (kind : UploadElementType) (x : Bytes)
    (more : List Bytes)
    → p.extensions_by_type mime ≡ some ((b'.' ∷ x) ∷ more)
    → file_name p (new_upload_element scope name version mime kind)
      ≡ filename_without_extension (new_upload_element scope name version mime kind)
        ++ (codes "." ++ extension p (new_upload_element scope name version mime kind))
unfolding file_name extension new_upload_element
file_name-new_upload_element p scope name version mime source_archive x more h = ground arith
file_name-new_upload_element p scope name version mime source_archive_signature x more h =
    ground arith
file_name-new_upload_element p scope name version mime metadata x more h = ground arith
file_name-new_upload_element p scope name version mime metadata_signature x more h = ground arith
file_name-new_upload_element p scope name version mime manifest x more h = ground arith
file_name-new_upload_element p scope name version mime package_manifest_json x more h = ground arith
