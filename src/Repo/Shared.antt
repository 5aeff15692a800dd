-- ===== src/Repo/Shared.antt =====
-- What the backends of the storage share: the first line of a manifest in `GetSwiftToolVersion` and the
-- comparison of the repository URLs in `Lookup`.
use openspmregistry.Prelude.{
  Bool, true, false, Option, none, some, List, [], ◌∷◌, leb, Result, ok, err, if◌then◌else◌, length,
}
use openspmregistry.Strings.{
  Bytes, codes, eq_bytes, has_prefix, trim_prefix, trim_suffix, trim_space, split,
}
use openspmregistry.Json
use openspmregistry.Json.{Json, Items, Fields, nil, cons, string, as_array}

-- the line that a bufio.Scanner yields first; `none` is no line or one that is too long
abbrev first_part : List Bytes → Bytes
first_part [] = []
first_part (l ∷ _) = l

abbrev pub first_line : Bytes → Option Bytes
first_line [] = none
first_line (c ∷ s) =
    let line = first_part (split (c ∷ s) 10) in
    if leb 65536 (length line) then none else some (trim_suffix line (13 ∷ []))

abbrev swift_version_prefix : Bytes
swift_version_prefix = codes "// swift-tools-version:"

abbrev pub version_of_line : Option Bytes → Result Bytes
version_of_line none = err (codes "swift-tools-version not found")
version_of_line (some line) =
    if has_prefix line swift_version_prefix
    then ok (trim_space (trim_prefix line swift_version_prefix))
    else err (codes "swift-tools-version not found")

abbrev pub on_ok : {A B : Type 0} → Result A → (A → Result B) → Result B
on_ok (err e) f = err e
on_ok (ok a) f = f a

-- whether the metadata names the url among its repositoryURLs
unfoldable pub any_url : Bytes → Items → Bool
any_url url nil = false
any_url url (cons (string u) urls) =
    let rest = any_url url urls in if eq_bytes u url then true else rest
any_url url (cons _ urls) = any_url url urls

abbrev pub names_url : Bytes → Fields → Bool
names_url url fields = elim (as_array (Json.at (codes "repositoryURLs") fields)) [
  | none ↦ false
  | some urls ↦ any_url url urls
]
