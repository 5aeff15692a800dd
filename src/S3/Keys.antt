-- ===== src/S3/Keys.antt =====
-- repo/s3/keys.go, and the reading of keys in repo/s3/list.go and repo/s3/s3repo.go.
pub mod RoundTrip
use openspmregistry.Prelude.{
  Bool, true, false, Option, none, some, List, [], ◌∷◌, ◌++◌, if◌then◌else◌,
}
use openspmregistry.Strings.{Bytes, codes, is_empty, split, trim_prefix, trim_suffix}
use openspmregistry.Strings.Paths.{path_join, behind_slash}
use openspmregistry.Config.{S3Config}
use openspmregistry.Models.Element.{Platform, UploadElement, file_name}

unfoldable pub build_key : S3Config → List Bytes → Bytes
build_key cfg parts = trim_prefix (path_join (cfg.prefix ∷ parts)) (codes "/")

unfoldable pub build_prefix : S3Config → List Bytes → Bytes
build_prefix cfg parts =
    let key = build_key cfg parts in if is_empty key then [] else key ++ codes "/"

unfoldable pub build_element_key : Platform → S3Config → UploadElement → Bytes
build_element_key p cfg e = build_key cfg (e.scope ∷ e.name ∷ e.version ∷ file_name p e ∷ [])

-- `lastSegment`
unfoldable pub last_segment : Bytes → Bytes
unfolding behind_slash
last_segment key = behind_slash (trim_suffix key (codes "/"))

-- the parts of a key: too few is no ok
abbrev three_of_four : List Bytes → Option (Bytes × Bytes × Bytes)
three_of_four (scope ∷ name ∷ version ∷ _ ∷ _) = some (scope, name, version)
three_of_four _ = none

-- `parseScopeNameVersion`
unfoldable pub parse_scope_name_version : S3Config → Bytes → Option (Bytes × Bytes × Bytes)
parse_scope_name_version cfg key =
    let prefix_key = build_key cfg [] in
    let rel = if is_empty prefix_key then key else trim_prefix key (prefix_key ++ codes "/") in
    three_of_four (split rel b'/')
