-- ===== src/Controller/Headers/Accepted.antt =====
-- Which Accept headers pass the check.
use openspmregistry.Prelude.{
  ◌≡◌, refl, ◌↔◌, ◌⊎◌, inl, inr, none, some, List, [], ◌∷◌, ◌++◌, arith, true, false, Bool-cases,
  ◌∙◌, ap, sym, length, drop,
}
use openspmregistry.Int.{pos, eq_int_sound}
use openspmregistry.Strings.{join, Bytes, codes, is_empty, has_prefix, split, contains}
use openspmregistry.Strings.Numbers.{atoi}
use openspmregistry.Strings.Cutting.{Lacks, split-append, split-Lacks, join-split, split-Lacks-All}
use openspmregistry.Strings.Equality.{eq_bytes_iff, has_prefix-append, has_prefix_sound}
use openspmregistry.Controller.Headers.{
  HeaderError, accept_header_prefix, supported_media_type, check_value, check_values, check_parts,
  check_version, check_media_type, check_headers_enforce,
}

-- A value of the form that the registry reads: the prefix, a version, a plus sign, a media type.
pub record Names (value version media_type : Bytes) : Type 0 where
  pub spelled : value ≡ accept_header_prefix ++ (version ++ (codes "+" ++ media_type))
  pub plain_version : Lacks b'+' version
  pub plain_media_type : Lacks b'+' media_type

-- The media type that the handler asks for, or any supported one.
pub data Wanted : Bytes → Bytes → Type 0 where
  enforced :
      {media_type enforce : Bytes}
      → is_empty enforce ≡ false
      → media_type ≡ enforce
      → Wanted enforce media_type
  supported :
      {media_type enforce : Bytes}
      → is_empty enforce ≡ true
      → contains supported_media_type media_type ≡ true
      → Wanted enforce media_type

-- The first value of that form has the version 1 and a wanted media type.
pub data Accepted (enforce : Bytes) : List Bytes → Type 0 where
  here :
      {value : Bytes} {values : List Bytes} (version media_type : Bytes)
      → Names value version media_type
      → (atoi version).0 ≡ pos 1
      → (atoi version).1 ≡ true
      → Wanted enforce media_type
      → Accepted enforce (value ∷ values)
  later :
      {value : Bytes} {values : List Bytes}
      → ((version media_type : Bytes) → ¬ Names value version media_type)
      → Accepted enforce values
      → Accepted enforce (value ∷ values)

abbrev behind_prefix : Bytes → List Bytes
behind_prefix value = split (drop (length accept_header_prefix) value) b'+'

behind_prefix-Names :
    (value version media_type : Bytes)
    → Names value version media_type
    → behind_prefix value ≡ version ∷ media_type ∷ []
behind_prefix-Names value version media_type n = rw n.spelled (
    split-append version media_type b'+' n.plain_version
    ∙ ap (λ t. version ∷ t) (split-Lacks media_type b'+' n.plain_media_type))

has_prefix-Names :
    (value version media_type : Bytes)
    → Names value version media_type
    → has_prefix value accept_header_prefix ≡ true
has_prefix-Names value version media_type n =
    rw n.spelled (has_prefix-append accept_header_prefix _)

check_value-Names :
    (enforce value version media_type : Bytes)
    → Names value version media_type
    → check_value enforce value ≡ some (check_version enforce version media_type)
unfolding check_value check_parts
check_value-Names enforce value version media_type n =
    rw (has_prefix-Names value version media_type n, behind_prefix-Names value version media_type n)

-- whether there are two parts
two_parts :
    (parts : List Bytes)
    → ((v : Bytes) × (m : Bytes) × (parts ≡ v ∷ m ∷ []))
      ⊎ (((enforce : Bytes) → check_parts enforce parts ≡ none)
          × ((v m : Bytes) → ¬ (parts ≡ v ∷ m ∷ [])))
unfolding check_parts
two_parts [] = inr (λ enforce. refl, λ v m e. cc)
two_parts (v ∷ []) = inr (λ enforce. refl, λ v m e. cc)
two_parts (v ∷ m ∷ []) = inl (v, m, refl)
two_parts (v ∷ m ∷ x ∷ r) = inr (λ enforce. refl, λ v m e. cc)

Names-of_parts :
    (value v m : Bytes)
    → has_prefix value accept_header_prefix ≡ true
    → behind_prefix value ≡ v ∷ m ∷ []
    → Names value v m
Names-of_parts value v m h e =
    let rest = drop (length accept_header_prefix) value in
    let (lacks_v, (lacks_m, _)) = lacks in
    record {
      spelled =
          has_prefix_sound value accept_header_prefix h
          ∙ ap (λ t. accept_header_prefix ++ t) joined;
      plain_version = lacks_v;
      plain_media_type = lacks_m;
    }
  where
    lacks : Lacks b'+' v × (Lacks b'+' m × Unit {0})
    lacks = rw e at (split-Lacks-All (drop (length accept_header_prefix) value) b'+')

    joined : drop (length accept_header_prefix) value ≡ v ++ (codes "+" ++ m)
    joined =
        sym (join-split (drop (length accept_header_prefix) value) b'+')
        ∙ (ap (λ t. join t (codes "+")) e ∙ unfold join in refl)

check_value-cases :
    (value : Bytes)
    → (((enforce : Bytes) → check_value enforce value ≡ none) × ((v m : Bytes) → ¬ Names value v m))
      ⊎ ((v : Bytes) × (m : Bytes) × Names value v m)
unfolding check_value
check_value-cases value = elim (Bool-cases (has_prefix value accept_header_prefix)) [
  | inr other ↦ inl (λ enforce. rw other, λ v m n. cc (has_prefix-Names value v m n, other))
  | inl begins ↦ elim (two_parts (behind_prefix value)) [
    | inl (v, m, e) ↦ inr (v, m, Names-of_parts value v m begins e)
    | inr (skip, never) ↦
        inl (
          λ enforce. rw begins (skip enforce),
          λ v m n. never v m (behind_prefix-Names value v m n),
        )
  ]
]

Wanted-sound :
    (enforce media_type : Bytes)
    → check_media_type enforce media_type ≡ none
    → Wanted enforce media_type
unfolding check_media_type
Wanted-sound [] media_type h = supported refl (ground arith)
Wanted-sound (c ∷ enforce) media_type h =
    enforced refl (ground (arith, eq_bytes_iff media_type (c ∷ enforce)))

Wanted-complete :
    (enforce media_type : Bytes)
    → Wanted enforce media_type
    → check_media_type enforce media_type ≡ none
unfolding check_media_type
Wanted-complete enforce media_type (enforced full e) =
    ground (arith, eq_bytes_iff media_type enforce)
Wanted-complete enforce media_type (supported empty h) = ground arith

check_version_sound :
    (enforce version media_type : Bytes)
    → check_version enforce version media_type ≡ none
    → ((atoi version).0 ≡ pos 1)
      × ((atoi version).1 ≡ true)
      × (check_media_type enforce media_type ≡ none)
unfolding check_version
check_version_sound enforce version media_type h =
    ground (arith, eq_int_sound (atoi version).0 (pos 1))

check_version_complete :
    (enforce version media_type : Bytes)
    → (atoi version).0 ≡ pos 1
    → (atoi version).1 ≡ true
    → check_media_type enforce media_type ≡ none
    → check_version enforce version media_type ≡ none
unfolding check_version
check_version_complete enforce version media_type one good h = ground arith

step_here :
    (enforce value : Bytes) (values : List Bytes) (v m : Bytes)
    → Names value v m
    → check_values enforce (value ∷ values) ≡ check_version enforce v m
unfolding check_values
step_here enforce value values v m n = ground (arith, check_value-Names enforce value v m n)

step_later :
    (enforce value : Bytes) (values : List Bytes)
    → check_value enforce value ≡ none
    → check_values enforce (value ∷ values) ≡ check_values enforce values
unfolding check_values
step_later enforce value values h = ground arith

values_sound :
    (enforce : Bytes) (values : List Bytes)
    → check_values enforce values ≡ none
    → Accepted enforce values
values_sound enforce [] h = unfold check_values in cc
values_sound enforce (value ∷ values) h = elim (check_value-cases value) [
  | inl (skip, never) ↦
      later never
        (values_sound enforce values (rw (step_later enforce value values (skip enforce)) at h))
  | inr (v, m, n) ↦
      let (one, good, media) =
        check_version_sound enforce v m (rw (step_here enforce value values v m n) at h) in
      here v m n one good (Wanted-sound enforce m media)
]

values_complete :
    (enforce : Bytes) (values : List Bytes)
    → Accepted enforce values
    → check_values enforce values ≡ none
values_complete enforce [] h = elim h [ ]
values_complete enforce (value ∷ values) (here v m n one good wanted) =
    rw (step_here enforce value values v m n)
      (check_version_complete enforce v m one good (Wanted-complete enforce m wanted))
values_complete enforce (value ∷ values) (later never rest) = elim (check_value-cases value) [
  | inl (skip, _) ↦
      rw (step_later enforce value values (skip enforce)) (values_complete enforce values rest)
  | inr (v, m, n) ↦ absurd (never v m n)
]

-- The check passes exactly when the first Accept value of the form
-- "application/vnd.swift.registry.v", version, "+", media type has a version that reads as the
-- number 1 and the enforced media type, or any supported one where none is enforced.
pub check_headers_enforce_iff :
    (accept : List Bytes) (enforce : Bytes)
    → (check_headers_enforce accept enforce ≡ none) ↔ Accepted enforce accept
unfolding check_headers_enforce
check_headers_enforce_iff [] enforce = (λ h. cc, λ h. elim h [ ])
check_headers_enforce_iff (value ∷ values) enforce =
    (values_sound enforce (value ∷ values), values_complete enforce (value ∷ values))

-- A value without a version and a media type is refused with the status 415, although the
-- specification that the code cites makes both optional.
pub bare_registry_type :
    (enforce : Bytes)
    → check_headers_enforce (codes "application/vnd.swift.registry" ∷ []) enforce
      ≡ some (record { error_message = codes "wrong accept header"; http_status_code = 415 })
unfolding check_headers_enforce check_values check_value has_prefix
bare_registry_type enforce = refl

check_media_type-status :
    (enforce media_type : Bytes) (e : HeaderError)
    → check_media_type enforce media_type ≡ some e
    → e.http_status_code ≡ 415
unfolding check_media_type
check_media_type-status enforce media_type e h = ground arith

check_version-status :
    (enforce version media_type : Bytes) (e : HeaderError)
    → check_version enforce version media_type ≡ some e
    → (e.http_status_code ≡ 400) ⊎ (e.http_status_code ≡ 415)
unfolding check_version
check_version-status enforce version media_type e h =
    ground (arith, check_media_type-status enforce media_type e)

check_values-status :
    (enforce : Bytes) (values : List Bytes) (e : HeaderError)
    → check_values enforce values ≡ some e
    → (e.http_status_code ≡ 400) ⊎ (e.http_status_code ≡ 415)
check_values-status enforce [] e h = unfold check_values in ground arith
check_values-status enforce (value ∷ values) e h = elim (check_value-cases value) [
  | inl (skip, _) ↦
      check_values-status enforce values e
        (rw (step_later enforce value values (skip enforce)) at h)
  | inr (v, m, n) ↦
      check_version-status enforce v m e (rw (step_here enforce value values v m n) at h)
]

-- A request that the check refuses is answered with 400 or 415.
pub check_headers_enforce-status :
    (accept : List Bytes) (enforce : Bytes) (e : HeaderError)
    → check_headers_enforce accept enforce ≡ some e
    → (e.http_status_code ≡ 400) ⊎ (e.http_status_code ≡ 415)
unfolding check_headers_enforce
check_headers_enforce-status [] enforce e h = ground arith
check_headers_enforce-status (value ∷ values) enforce e h =
    check_values-status enforce (value ∷ values) e h
