-- ===== src/Files/Archive/Directories.antt =====
-- Where in an archive manifests are found.
use openspmregistry.Prelude.{
  ◌||◌, ◌&&◌, ◌⊎◌, ◌≡◌, refl, Bool, true, false, [], ◌∷◌, ◌++◌, arith, All-append, inl, inr,
}
use openspmregistry.Strings.{Bytes, codes, eq_bytes, trim_prefix, to_lower, contains_byte, is_empty}
use openspmregistry.Strings.Equality.{eq_bytes_sound, has_prefix_sound, trim_prefix-append}
use openspmregistry.Strings.Cutting.{Lacks, contains_byte-Lacks}
use openspmregistry.Models.Element.{UploadElement}
use openspmregistry.Files.Archive.{in_manifest_dir}

to_lower-append : (s t : Bytes) → to_lower (s ++ t) ≡ to_lower s ++ to_lower t
unfolding to_lower
to_lower-append [] t = refl
to_lower-append (c ∷ s) t = rw (to_lower-append s t) refl

to_lower-Lacks : (s : Bytes) → Lacks b'/' (to_lower s) → Lacks b'/' s
unfolding to_lower
to_lower-Lacks [] h = tt
to_lower-Lacks (c ∷ s) (first, h) = (λ e. first (ground arith), to_lower-Lacks s h)

-- the part of the directory behind the identifier
behind_id :
    (id rest : Bytes)
    → contains_byte b'/' (trim_prefix (to_lower (id ++ rest)) (to_lower id)) ≡ false
    → Lacks b'/' rest
behind_id id rest h = to_lower-Lacks rest (
    contains_byte-Lacks b'/' (to_lower rest)
      (rw (to_lower-append id rest, trim_prefix-append (to_lower id) (to_lower rest)) at h))

nested-Lacks :
    (id dir rest : Bytes)
    → dir ≡ id ++ rest
    → Lacks b'/' id
    → contains_byte b'/' (trim_prefix (to_lower dir) (to_lower id)) ≡ false
    → Lacks b'/' dir
nested-Lacks id dir rest whole plain h =
    rw whole (All-append _ id rest plain (behind_id id rest (rw whole at h)))

either : (a b : Bool) → (a || b) ≡ true → (a ≡ true) ⊎ (b ≡ true)
either true b h = inl refl
either false b h = inr h

both : (a b : Bool) → (a && b) ≡ true → (a ≡ true) × (b ≡ true)
both true b h = (refl, h)
both false b h = cc

empty-Lacks : (s : Bytes) → is_empty s ≡ true → Lacks b'/' s
empty-Lacks [] h = tt
empty-Lacks (c ∷ s) h = cc

same-Lacks : (s t : Bytes) → Lacks b'/' t → eq_bytes s t ≡ true → Lacks b'/' s
same-Lacks s t lacks h = rw (eq_bytes_sound s t h) lacks

dot-Lacks : Lacks b'/' (codes ".")
dot-Lacks = (λ e. omega arith, tt)

-- Of an archive whose scope, name and version hold no slash, manifests are taken from the root and
-- from directories at the top level only.
pub in_manifest_dir-Lacks :
    (e : UploadElement) (dir : Bytes)
    → Lacks b'/' (e.scope ++ (codes "." ++ e.name))
    → Lacks b'/' (e.name ++ (codes "-" ++ e.version))
    → in_manifest_dir e dir ≡ true
    → Lacks b'/' dir
unfolding in_manifest_dir
in_manifest_dir-Lacks e dir plain_id plain_name h = elim (either _ _ h) [
  | inl at_root ↦ elim (either _ _ at_root) [
    | inl dot ↦ same-Lacks dir (codes ".") dot-Lacks dot
    | inr empty ↦ empty-Lacks dir empty
  ]
  | inr below ↦ elim (either _ _ below) [
    | inl single ↦ elim (either _ _ single) [
      | inl is_id ↦ same-Lacks dir _ plain_id is_id
      | inr is_name ↦ same-Lacks dir _ plain_name is_name
    ]
    | inr nested ↦
        let (begins, flat) = both _ _ nested in
        nested-Lacks _ dir _ (has_prefix_sound dir _ begins) plain_id (ground (arith, flat))
  ]
]
