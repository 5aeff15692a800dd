-- ===== src/Controller/Names.antt =====
-- The regular expressions of controller/publish.go for scope and package names.
pub mod Language
use openspmregistry.Prelude.{
  ℕ, zero, suc, Bool, true, false, ◌&&◌, ◌||◌, [], ◌∷◌, leb, ◌==◌, if◌then◌else◌,
}
use openspmregistry.Strings.{Bytes}

-- [a-zA-Z0-9]
unfoldable pub alphanumeric : ℕ → Bool
alphanumeric c =
    (leb b'a' c && leb c b'z') || ((leb b'A' c && leb c b'Z') || (leb b'0' c && leb c b'9'))

-- (?:[a-zA-Z0-9]|[sep][a-zA-Z0-9]){0,most}\z, where no separator is alphanumeric
unfoldable pub units : (ℕ → Bool) → ℕ → Bytes → Bool
units sep most [] = true
units sep zero (_ ∷ _) = false
units sep (suc most) (c ∷ []) = alphanumeric c
units sep (suc most) (c ∷ d ∷ s) =
    let single = units sep most (d ∷ s) in
    let double = sep c && (alphanumeric d && units sep most s) in
    if alphanumeric c then single else double

unfoldable pub name_matches : (ℕ → Bool) → ℕ → Bytes → Bool
name_matches sep most [] = false
name_matches sep most (c ∷ s) = alphanumeric c && units sep most s

abbrev pub dash : ℕ → Bool
dash c = c == b'-'

abbrev pub dash_or_underscore : ℕ → Bool
dash_or_underscore c = c == b'-' || c == b'_'

unfoldable pub scope_matches : Bytes → Bool
scope_matches = name_matches dash 38

unfoldable pub package_matches : Bytes → Bool
package_matches = name_matches dash_or_underscore 99
