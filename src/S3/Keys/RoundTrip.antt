-- ===== src/S3/Keys/RoundTrip.antt =====
-- Keys are built from and read back as the names they hold.
use openspmregistry.Prelude.{
  ◌≡◌, refl, sym, ◌∙◌, ap, if◌then◌else◌, some, List, [], ◌∷◌, ◌++◌, All, append_assoc, arith,
}
use openspmregistry.Strings.{Bytes, codes, is_empty, join, trim_prefix, has_prefix}
use openspmregistry.Strings.Equality.{trim_prefix-append}
use openspmregistry.Strings.Paths.{path_join}
use openspmregistry.Strings.Paths.Plain.{
  Plain, path_join-one, path_join-prefix, split-join, first_of_join, join-join, full_join,
}
use openspmregistry.Config.{S3Config}
use openspmregistry.Models.Element.{Platform, UploadElement, file_name}
use openspmregistry.S3.Keys.{build_key, build_element_key, parse_scope_name_version}

-- The configured prefix is empty or a path of plain names.
pub record PrefixOf (cfg : S3Config) (names : List Bytes) : Type 0 where
  pub spelled : cfg.prefix ≡ join names (codes "/")
  pub plain : All Plain names

no_slash_first :
    (p : Bytes) (parts : List Bytes)
    → Plain p
    → trim_prefix (join (p ∷ parts) (codes "/")) (codes "/") ≡ join (p ∷ parts) (codes "/")
no_slash_first p parts h =
    let (c, s, begins, joined) = first_of_join p parts h in
    rw joined (unfold trim_prefix in unfold has_prefix in ground arith)

All-Plain :
    (names parts : List Bytes) → All Plain names → All Plain parts → All Plain (names ++ parts)
All-Plain [] parts hn h = h
All-Plain (n ∷ names) parts (hn, hns) h = (hn, All-Plain names parts hns h)

trim_joined :
    (names : List Bytes) (p : Bytes) (parts : List Bytes)
    → All Plain names
    → All Plain (p ∷ parts)
    → trim_prefix (join (names ++ (p ∷ parts)) (codes "/")) (codes "/")
      ≡ join (names ++ (p ∷ parts)) (codes "/")
trim_joined [] p parts hn h = no_slash_first p parts h.0
trim_joined (n ∷ names) p parts hn h = no_slash_first n (names ++ (p ∷ parts)) hn.0

-- A key is the configured prefix and the given names, joined with slashes.
pub build_key-join :
    (cfg : S3Config) (names : List Bytes) (p : Bytes) (parts : List Bytes)
    → PrefixOf cfg names
    → All Plain (p ∷ parts)
    → build_key cfg (p ∷ parts) ≡ join (names ++ (p ∷ parts)) (codes "/")
unfolding build_key
build_key-join cfg names p parts prefix h =
    rw (prefix.spelled, path_join-prefix names p parts prefix.plain h)
      (trim_joined names p parts prefix.plain h)

bare_key :
    (cfg : S3Config) (names : List Bytes)
    → PrefixOf cfg names
    → build_key cfg [] ≡ join names (codes "/")
unfolding build_key
bare_key cfg [] prefix = rw prefix.spelled (unfold join path_join trim_prefix has_prefix in refl)
bare_key cfg (n ∷ names) prefix =
    rw (prefix.spelled, path_join-one n names prefix.plain) (no_slash_first n names prefix.plain.0)

trim_first :
    (first p : Bytes) (parts : List Bytes)
    → trim_prefix (join (first ∷ p ∷ parts) (codes "/")) (first ++ codes "/")
      ≡ join (p ∷ parts) (codes "/")
unfolding join
trim_first first p parts =
    let rest = join (p ∷ parts) (codes "/") in
    ap (λ t. trim_prefix t (first ++ codes "/")) (sym (append_assoc first (codes "/") rest))
    ∙ trim_prefix-append (first ++ codes "/") rest

-- what is left of a key behind the prefix
behind_prefix :
    (cfg : S3Config) (names : List Bytes) (p : Bytes) (parts : List Bytes)
    → PrefixOf cfg names
    → All Plain (p ∷ parts)
    → (if is_empty (build_key cfg [])
        then build_key cfg (p ∷ parts)
        else trim_prefix (build_key cfg (p ∷ parts)) (build_key cfg [] ++ codes "/"))
      ≡ join (p ∷ parts) (codes "/")
behind_prefix cfg [] p parts prefix h =
    rw (bare_key cfg [] prefix, build_key-join cfg [] p parts prefix h) (unfold join in refl)
behind_prefix cfg (n ∷ names) p parts prefix h =
    rw
      (
        bare_key cfg (n ∷ names) prefix,
        build_key-join cfg (n ∷ names) p parts prefix h,
        full_join n names prefix.plain.0,
        ← join-join (codes "/") n names p parts,
      )
      (trim_first (join (n ∷ names) (codes "/")) p parts)

-- The key of an element with plain names is read back as its scope, name and version, behind any
-- prefix of plain names.
pub parse_scope_name_version-build_element_key :
    (p : Platform) (cfg : S3Config) (names : List Bytes) (e : UploadElement)
    → PrefixOf cfg names
    → All Plain (e.scope ∷ e.name ∷ e.version ∷ file_name p e ∷ [])
    → parse_scope_name_version cfg (build_element_key p cfg e) ≡ some (e.scope, e.name, e.version)
unfolding parse_scope_name_version build_element_key
parse_scope_name_version-build_element_key p cfg names e prefix h =
    rw (behind_prefix cfg names _ _ prefix h, split-join _ _ h) refl
