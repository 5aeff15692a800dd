-- ===== src/Maven/Coordinates.antt =====
-- repo/maven/coordinates.go
pub mod Laws
use openspmregistry.Prelude.{
  ◌≤◌, Bool, true, false, not, ◌&&◌, ◌||◌, List, [], ◌∷◌, ◌++◌, ◌==◌, leb, if◌then◌else◌, length,
  take, drop,
}
use openspmregistry.Strings.{
  Bytes, codes, eq_bytes, is_empty, has_prefix, to_lower, replace_all, split, join,
}
use openspmregistry.Config.{MavenConfig}
use openspmregistry.Models.Element.{Platform, UploadElement, filename_without_extension, extension}

unfoldable pub build_group_id : Bytes → MavenConfig → Bytes
build_group_id scope cfg =
    if is_empty cfg.group_id_prefix then scope else cfg.group_id_prefix ++ (codes "." ++ scope)

unfoldable pub group_id_to_scope : Bytes → MavenConfig → Bytes
group_id_to_scope group_id cfg =
    let prefix = cfg.group_id_prefix ++ codes "." in
    if is_empty cfg.group_id_prefix
    then group_id
    else if leb (length prefix) (length group_id) && eq_bytes (take (length prefix) group_id) prefix
    then drop (length prefix) group_id
    else group_id

unfoldable pub build_artifact_id : Bytes → Bytes
build_artifact_id name = name

unfoldable pub build_version : Bytes → Bytes
build_version version = version

-- artifactId-version[-classifier].extension
abbrev pub maven_filename : Bytes → Bytes → Bytes → Bytes → Bytes
maven_filename artifact_id version classifier extension =
    let filename = artifact_id ++ (codes "-" ++ version) in
    let classified =
      if is_empty classifier then filename else filename ++ (codes "-" ++ classifier) in
    classified ++ extension

unfoldable pub build_maven_path : Bytes → Bytes → Bytes → Bytes → Bytes → Bytes
build_maven_path group_id artifact_id version classifier extension =
    join
      (replace_all group_id b'.' b'/'
        ∷ artifact_id
        ∷ version
        ∷ maven_filename artifact_id version classifier extension
        ∷ [])
      (codes "/")

-- the "swift" that is put behind the first part
abbrev with_swift : List Bytes → Bytes → Bytes
with_swift (first ∷ second ∷ parts) s =
    if not (eq_bytes second (codes "swift"))
    then join (first ∷ codes "swift" ∷ second ∷ parts) (codes "-")
    else s
with_swift _ s = s

unfoldable pub maven_classifier_from_filename : Bytes → Bytes
maven_classifier_from_filename filename =
    let s = replace_all (to_lower filename) b'@' b'-' in
    if is_empty filename then [] else with_swift (split s b'-') s

abbrev dotted : Bytes → Bytes
dotted [] = []
dotted (c ∷ ext) = if not (c == b'.') then b'.' ∷ c ∷ ext else c ∷ ext

-- the classifier and the extension
unfoldable pub path_parts_for_element : Platform → UploadElement → Bytes × Bytes
path_parts_for_element p e =
    let fn = filename_without_extension e in
    let is_sidecar = eq_bytes fn (codes "metadata") || has_prefix (to_lower fn) (codes "package") in
    (if is_sidecar then maven_classifier_from_filename fn else [], dotted (extension p e))

unfoldable pub build_maven_path_for_element : Platform → UploadElement → MavenConfig → Bytes
build_maven_path_for_element p e cfg =
    let (classifier, ext) = path_parts_for_element p e in
    build_maven_path (build_group_id e.scope cfg) (build_artifact_id e.name)
      (build_version e.version) classifier ext
