-- ===== src/Maven/FilePaths.antt =====
-- The paths that name files of a Maven repository, each its own: url.JoinPath cleans the others, or a
-- server decodes them.
use openspmregistry.Prelude.{
  ◌≡◌, refl, ◌∙◌, arith, Bool, true, false, not, ◌&&◌, List, [], ◌∷◌, All,
}
use openspmregistry.Strings.{Bytes, codes, eq_bytes, is_empty, join, contains_byte}
use openspmregistry.Strings.Cutting.{Lacks, contains_byte-Lacks}
use openspmregistry.Strings.Paths.Plain.{Plain, full_join, path_join-one}
use openspmregistry.Strings.Paths.{path_join}
use openspmregistry.Maven.Client.{spm_registry_index_path}

-- Plain names with slashes between them, none with an escape.
pub record IsFilePath (path : Bytes) : Type 0 where
  pub folder : Bytes
  pub further : List Bytes
  pub plain : All Plain (folder ∷ further)
  pub path_is : path ≡ join (folder ∷ further) (codes "/")
  pub no_escape : Lacks b'%' path

-- a test of plain names
unfoldable pub are_plain : List Bytes → Bool
unfolding eq_bytes contains_byte
are_plain [] = true
are_plain (s ∷ names) =
    not (is_empty s)
    && (not (eq_bytes s (codes "."))
        && (not (eq_bytes s (codes "..")) && (not (contains_byte b'/' s) && are_plain names)))

are_plain_sound : (names : List Bytes) → are_plain names ≡ true → All Plain names
unfolding are_plain
are_plain_sound [] h = tt
are_plain_sound (s ∷ names) h = (
  record {
    full = ground arith;
    not_dot = ground arith;
    not_dots = ground arith;
    no_slash = contains_byte-Lacks b'/' s (ground arith);
  },
  are_plain_sound names (ground arith),
)

pub file_path :
    (path folder : Bytes) (further : List Bytes)
    → are_plain (folder ∷ further) ≡ true
    → path ≡ join (folder ∷ further) (codes "/")
    → contains_byte b'%' path ≡ false
    → IsFilePath path
file_path path folder further plain path_is no_escape = record {
  folder = folder;
  further = further;
  plain = are_plain_sound (folder ∷ further) plain;
  path_is = path_is;
  no_escape = contains_byte-Lacks b'%' path no_escape;
}

pub index-IsFilePath : IsFilePath spm_registry_index_path
unfolding are_plain eq_bytes contains_byte join
index-IsFilePath =
    file_path spm_registry_index_path (codes "com")
      (codes "spm" ∷ codes "registry" ∷ codes "index" ∷ codes "1" ∷ codes "index-1.json" ∷ []) refl
      refl refl

-- Such a path is not empty, and joining leaves it as it is.
pub is_empty-IsFilePath : {path : Bytes} → IsFilePath path → is_empty path ≡ false
is_empty-IsFilePath at = rw at.path_is (full_join at.folder at.further at.plain.0)

front_empty : (e : Bytes) → path_join ([] ∷ e ∷ []) ≡ path_join (e ∷ [])
unfolding path_join
front_empty e = refl

pub path_join-IsFilePath : {path : Bytes} → IsFilePath path → path_join ([] ∷ path ∷ []) ≡ path
path_join-IsFilePath {path} at =
    front_empty path ∙ rw at.path_is (path_join-one at.folder at.further at.plain)
