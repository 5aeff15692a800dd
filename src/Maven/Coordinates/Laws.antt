-- ===== src/Maven/Coordinates/Laws.antt =====
-- Group ids are read back as scopes, and paths as the coordinates they hold.
use openspmregistry.Prelude.{
  ◌≡◌, refl, ◌&&◌, Bool-cases, inl, inr, ◌++◌, arith, leb, if◌then◌else◌, length, take, drop,
  append_assoc, length-append, drop-append,
}
use openspmregistry.Strings.{Bytes, codes, eq_bytes, is_empty}
use openspmregistry.Strings.Equality.{eq_bytes_refl, take-append}
use openspmregistry.Config.{MavenConfig}
use openspmregistry.Maven.Coordinates.{build_group_id, group_id_to_scope}

drops_prefix :
    (prefix scope : Bytes)
    → (if leb (length prefix) (length (prefix ++ scope))
          && eq_bytes (take (length prefix) (prefix ++ scope)) prefix
        then drop (length prefix) (prefix ++ scope)
        else prefix ++ scope)
      ≡ scope
drops_prefix prefix scope =
    rw (take-append prefix scope, eq_bytes_refl prefix, drop-append prefix scope)
      (ground (arith, length-append {0} prefix scope))

-- The scope comes back from its group id, under every configured prefix.
pub group_id_to_scope-build_group_id :
    (scope : Bytes) (cfg : MavenConfig) → group_id_to_scope (build_group_id scope cfg) cfg ≡ scope
unfolding group_id_to_scope build_group_id
group_id_to_scope-build_group_id scope cfg = elim (Bool-cases (is_empty cfg.group_id_prefix)) [
  | inl empty ↦ rw empty refl
  | inr full ↦ rw full (
      rw (append_assoc cfg.group_id_prefix (codes ".") scope) at
        (drops_prefix (cfg.group_id_prefix ++ codes ".") scope))
]
