-- ===== src/Strings/Paths/Plain.antt =====
-- Joining the names of directories and files.
use openspmregistry.Prelude.{
  ℕ, ◌≡◌, ◌≢◌, refl, sym, ◌∙◌, ap, Bool, false, List, [], ◌∷◌, ◌++◌, append_assoc, append-nil,
  arith, All,
}
use openspmregistry.Strings.{Bytes, codes, eq_bytes, is_empty, split, join}
use openspmregistry.Strings.Cutting.{Lacks, split-append, split-Lacks}
use openspmregistry.Strings.Paths.{entered, clean_parts, path_clean, path_join}

-- The name of a directory or a file.
pub record Plain (s : Bytes) : Type 0 where
  pub full : is_empty s ≡ false
  pub not_dot : eq_bytes s (codes ".") ≡ false
  pub not_dots : eq_bytes s (codes "..") ≡ false
  pub no_slash : Lacks b'/' s

clean_parts-Plain :
    (rooted : Bool) (done parts : List Bytes)
    → All Plain parts
    → clean_parts rooted done parts ≡ done ++ parts
unfolding clean_parts entered
clean_parts-Plain rooted done [] h = sym (append-nil done)
clean_parts-Plain rooted done (p ∷ parts) (plain, h) =
    rw (plain.full, plain.not_dot, plain.not_dots)
      (clean_parts-Plain rooted (done ++ (p ∷ [])) parts h ∙ append_assoc done (p ∷ []) parts)

pub split-join :
    (p : Bytes) (parts : List Bytes)
    → All Plain (p ∷ parts)
    → split (join (p ∷ parts) (codes "/")) b'/' ≡ p ∷ parts
unfolding join
split-join p [] (plain, _) = split-Lacks p b'/' plain.no_slash
split-join p (q ∷ parts) (plain, h) =
    split-append p (join (q ∷ parts) (codes "/")) b'/' plain.no_slash
    ∙ ap (λ t. p ∷ t) (split-join q parts h)

-- A joined text is clean.
clean_joined-Plain :
    (c : ℕ) (s p : Bytes) (parts : List Bytes)
    → c ≢ b'/'
    → All Plain (p ∷ parts)
    → join (p ∷ parts) (codes "/") ≡ c ∷ s
    → path_clean (c ∷ s) ≡ c ∷ s
unfolding path_clean
clean_joined-Plain c s p parts begins h joined = ground (arith, cleaned)
  where
    apart : split (c ∷ s) b'/' ≡ p ∷ parts
    apart = rw joined at (split-join p parts h)

    cleaned : join (clean_parts false [] (split (c ∷ s) b'/')) (codes "/") ≡ c ∷ s
    cleaned = rw (apart, clean_parts-Plain false [] (p ∷ parts) h) joined

pub first_of_join :
    (p : Bytes) (parts : List Bytes)
    → Plain p
    → (c : ℕ) × (s : Bytes) × (c ≢ b'/') × (join (p ∷ parts) (codes "/") ≡ c ∷ s)
unfolding join
first_of_join [] parts h = absurd (cc (h.full))
first_of_join (c ∷ p) [] h = (c, p, h.no_slash.0, refl)
first_of_join (c ∷ p) (q ∷ parts) h = (c, _, h.no_slash.0, refl)

-- Plain names are joined with slashes, whatever empty elements stand before them.
pub path_join-Plain :
    (p : Bytes) (parts : List Bytes)
    → All Plain (p ∷ parts)
    → path_join (p ∷ parts) ≡ join (p ∷ parts) (codes "/")
unfolding path_join
path_join-Plain p parts h =
    let (c, s, begins, joined) = first_of_join p parts h.0 in
    rw (h.0.full) (rw joined (clean_joined-Plain c s p parts begins h joined))

pub path_join-full :
    (e : Bytes) (elems : List Bytes)
    → is_empty e ≡ false
    → path_join (e ∷ elems) ≡ path_clean (join (e ∷ elems) (codes "/"))
unfolding path_join
path_join-full e elems h = rw h refl

pub full_join :
    (p : Bytes) (parts : List Bytes) → Plain p → is_empty (join (p ∷ parts) (codes "/")) ≡ false
full_join p parts h = let (c, s, _, joined) = first_of_join p parts h in rw joined refl

pub join-join :
    (sep p : Bytes) (parts : List Bytes) (q : Bytes) (more : List Bytes)
    → join (join (p ∷ parts) sep ∷ q ∷ more) sep ≡ join (p ∷ (parts ++ (q ∷ more))) sep
unfolding join
join-join sep p [] q more = refl
join-join sep p (r ∷ parts) q more =
    append_assoc p (sep ++ join (r ∷ parts) sep) (sep ++ join (q ∷ more) sep)
    ∙ ap (λ t. p ++ t)
        (append_assoc sep (join (r ∷ parts) sep) (sep ++ join (q ∷ more) sep)
          ∙ ap (λ t. sep ++ t) (join-join sep r parts q more))

All-append-Plain :
    (prefix parts : List Bytes) → All Plain prefix → All Plain parts → All Plain (prefix ++ parts)
All-append-Plain [] parts hp h = h
All-append-Plain (p ∷ prefix) parts (hp, hps) h = (hp, All-append-Plain prefix parts hps h)

-- A prefix of plain names, or none, before plain names.
pub path_join-prefix :
    (prefix : List Bytes) (p : Bytes) (parts : List Bytes)
    → All Plain prefix
    → All Plain (p ∷ parts)
    → path_join (join prefix (codes "/") ∷ p ∷ parts) ≡ join (prefix ++ (p ∷ parts)) (codes "/")
path_join-prefix [] p parts hp h = unfold path_join in unfold join in path_join-Plain p parts h
path_join-prefix (r ∷ prefix) p parts hp h =
    let plain = All-append-Plain (r ∷ prefix) (p ∷ parts) hp h in
    let (c, s, begins, joined) = first_of_join r (prefix ++ (p ∷ parts)) hp.0 in
    path_join-full (join (r ∷ prefix) (codes "/")) (p ∷ parts) (full_join r prefix hp.0)
    ∙ (ap path_clean (join-join (codes "/") r prefix p parts)
        ∙ rw joined (clean_joined-Plain c s r (prefix ++ (p ∷ parts)) begins plain joined))

pub path_join-one :
    (p : Bytes) (parts : List Bytes)
    → All Plain (p ∷ parts)
    → path_join (join (p ∷ parts) (codes "/") ∷ []) ≡ join (p ∷ parts) (codes "/")
path_join-one p parts h =
    let (c, s, begins, joined) = first_of_join p parts h.0 in
    path_join-full (join (p ∷ parts) (codes "/")) [] (full_join p parts h.0)
    ∙ unfold join in rw joined (clean_joined-Plain c s p parts begins h joined)
