-- ===== src/Tests/Memory.antt =====
-- A storage that keeps the set of the stored keys, and a platform with one extension per type: the
-- concrete functions at which the theorems on the interface are applied.
use openspmregistry.Prelude.{
  ◌≡◌, refl, arith, Bool, true, false, none, some, List, [], ◌∷◌, ◌++◌, ok, err, if◌then◌else◌,
}
use openspmregistry.Strings.{Bytes, codes, eq_bytes, join}
use openspmregistry.Strings.Paths.{path_join}
use openspmregistry.Models.Element.{Platform, UploadElement, filename_without_extension}
use openspmregistry.Repo.{Repo}
use openspmregistry.Repo.Laws.{RemoveLaws}

abbrev pub Keys : Type 0
Keys = List Bytes

unfoldable pub key_of : UploadElement → Bytes
unfolding filename_without_extension
key_of e =
    e.scope
    ++ (codes "/"
        ++ (e.name
            ++ (codes "/"
                ++ (e.version
                    ++ (codes "/" ++ (filename_without_extension e ++ e.ext_overwrite))))))

unfoldable pub has : Bytes → Keys → Bool
has k [] = false
has k (x ∷ s) = let rest = has k s in if eq_bytes x k then true else rest

unfoldable pub without : Bytes → Keys → Keys
without k [] = []
without k (x ∷ s) = let rest = without k s in if eq_bytes x k then rest else x ∷ rest

pub has-without : (k : Bytes) (s : Keys) → has k (without k s) ≡ false
unfolding has without
has-without k [] = refl
has-without k (x ∷ s) = ground (arith, has-without k s)

pub has-without_other : (k j : Bytes) (s : Keys) → has j s ≡ false → has j (without k s) ≡ false
unfolding has without
has-without_other k j [] h = refl
has-without_other k j (x ∷ s) h = ground (arith, has-without_other k j s)

abbrev pub memory : Repo Keys Bytes
memory = record {
  exists = λ ctx e s. has (key_of e) s;
  get_reader = λ ctx e s. err [];
  get_writer = λ ctx e s. (ok (key_of e), s);
  write = λ w b s. (ok w, s);
  close = λ w s. (ok tt, w ∷ s);
  extract_manifest_files = λ ctx e s. (ok tt, s);
  list = λ ctx scope name s. ok [];
  encode_base64 = λ ctx e s. err [];
  publish_date = λ ctx e s. err [];
  checksum = λ ctx e s. ok (codes "00ff");
  load_metadata = λ ctx scope name version s. err [];
  get_alternative_manifests = λ ctx e s. err [];
  get_swift_tool_version = λ ctx e s. err [];
  lookup = λ ctx url s. none;
  remove = λ ctx e s. (ok tt, without (key_of e) s);
  list_scopes = λ ctx s. ok [];
  list_in_scope = λ ctx scope s. ok [];
  list_all = λ ctx s. ok [];
  load_package_json = λ ctx scope name version s. err [];
}

pub memory-RemoveLaws : RemoveLaws memory none
memory-RemoveLaws = record {
  remove_self = λ e s h. has-without (key_of e) s;
  remove_other = λ e f s h. has-without_other (key_of e) (key_of f) s h;
}

abbrev pub platform : Platform
platform = record {
  extensions_by_type = λ mime_type.
      if eq_bytes mime_type (codes "application/zip")
      then some (codes ".zip" ∷ [])
      else some (codes ".bin" ∷ []);
  parse_media_type = λ mime_type. some mime_type;
  join_path = λ base parts. some (join (base ∷ parts) (codes "/"));
}

-- the same with a url.JoinPath that cleans
abbrev pub cleaning : Platform
cleaning = record platform { join_path = λ base parts. some (path_join (base ∷ parts)) }
