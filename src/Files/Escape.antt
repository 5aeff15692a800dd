-- ===== src/Files/Escape.antt =====
-- A version that leaves the directory of the repository: the names of the path that
-- repo/files/access.go joins are not checked.
use openspmregistry.Prelude.{
  ℕ, ◌≡◌, ◌≢◌, refl, sym, ap, ◌∙◌, Bool, false, List, [], ◌∷◌, ◌++◌, append_assoc, append-nil, All,
  All-append, arith,
}
use openspmregistry.Strings.{Bytes, codes, eq_bytes, split, join}
use openspmregistry.Strings.Cutting.{Lacks, split-append, split-Lacks}
use openspmregistry.Strings.Paths.{last_part, but_last, parent, entered, clean_parts, path_clean}
use openspmregistry.Strings.Paths.Plain.{Plain, path_join-full, full_join, join-join, first_of_join}
use openspmregistry.Models.Element.{Platform, UploadElement}
use openspmregistry.Files.Access.{path_folder}

abbrev pub up : Bytes
up = codes ".."

-- A version that climbs over its package, its scope and the repository.
abbrev pub climbing : Bytes → Bytes
climbing v = join (up ∷ up ∷ up ∷ v ∷ []) (codes "/")

last_part-Plain :
    (p : Bytes) (parts : List Bytes) → All Plain (p ∷ parts) → Plain (last_part (p ∷ parts))
last_part-Plain p [] (plain, _) = plain
last_part-Plain p (q ∷ parts) (_, h) = last_part-Plain q parts h

-- A ".." takes back the directory before it.
entered-up :
    (rooted : Bool) (p : Bytes) (parts : List Bytes)
    → All Plain (p ∷ parts)
    → entered rooted (p ∷ parts) up ≡ but_last (p ∷ parts)
unfolding entered parent eq_bytes
entered-up rooted p parts h = rw ((last_part-Plain p parts h).not_dots) refl

but_last-append : (parts : List Bytes) (q : Bytes) → but_last (parts ++ (q ∷ [])) ≡ parts
but_last-append [] q = refl
but_last-append (r ∷ []) q = refl
but_last-append (r ∷ t ∷ parts) q = ap (λ x. r ∷ x) (but_last-append (t ∷ parts) q)

entered-Plain :
    (rooted : Bool) (done : List Bytes) (p : Bytes)
    → Plain p
    → entered rooted done p ≡ done ++ (p ∷ [])
unfolding entered
entered-Plain rooted done p plain = rw (plain.full, plain.not_dot, plain.not_dots) refl

entered-back :
    (rooted : Bool) (d : Bytes) (dirs : List Bytes) (q : Bytes)
    → All Plain (d ∷ dirs)
    → Plain q
    → entered rooted (d ∷ (dirs ++ (q ∷ []))) up ≡ d ∷ dirs
entered-back rooted d dirs q h plain =
    entered-up rooted d (dirs ++ (q ∷ [])) (All-append Plain (d ∷ dirs) (q ∷ []) h (plain, tt))
    ∙ but_last-append (d ∷ dirs) q

clean_parts-prefix :
    (rooted : Bool) (done parts rest : List Bytes)
    → All Plain parts
    → clean_parts rooted done (parts ++ rest) ≡ clean_parts rooted (done ++ parts) rest
unfolding clean_parts
clean_parts-prefix rooted done [] rest h =
    ap (λ d. clean_parts rooted d rest) (sym (append-nil done))
clean_parts-prefix rooted done (p ∷ parts) rest (plain, h) =
    ap (λ d. clean_parts rooted d (parts ++ rest)) (entered-Plain rooted done p plain)
    ∙ (clean_parts-prefix rooted (done ++ (p ∷ [])) parts rest h
        ∙ ap (λ d. clean_parts rooted d rest) (append_assoc done (p ∷ []) parts))

-- Three ".." behind a scope and a name take back both and the last directory before them.
clean_parts-climbing :
    (d : Bytes) (dirs : List Bytes) (scope name v : Bytes)
    → All Plain (d ∷ dirs)
    → Plain scope
    → Plain name
    → Plain v
    → clean_parts false [] ((d ∷ dirs) ++ (scope ∷ name ∷ up ∷ up ∷ up ∷ v ∷ []))
      ≡ but_last (d ∷ dirs) ++ (v ∷ [])
unfolding clean_parts
clean_parts-climbing d dirs scope name v root plain_scope plain_name plain_v =
    clean_parts-prefix false [] (d ∷ dirs) (scope ∷ name ∷ up ∷ up ∷ up ∷ v ∷ []) root
    ∙ rw
        (
          entered-Plain false (d ∷ dirs) scope plain_scope,
          entered-Plain false ((d ∷ dirs) ++ (scope ∷ [])) name plain_name,
          entered-back false d (dirs ++ (scope ∷ [])) name inner plain_name,
          entered-back false d dirs scope root plain_scope,
          entered-up false d dirs root,
          entered-Plain false (but_last (d ∷ dirs)) v plain_v,
        )
        refl
  where
    inner : All Plain (d ∷ (dirs ++ (scope ∷ [])))
    inner = All-append Plain (d ∷ dirs) (scope ∷ []) root (plain_scope, tt)

-- The texts between slashes come back from their join.
split-join-Lacks :
    (p : Bytes) (parts : List Bytes)
    → All (Lacks b'/') (p ∷ parts)
    → split (join (p ∷ parts) (codes "/")) b'/' ≡ p ∷ parts
unfolding join
split-join-Lacks p [] (lacks, _) = split-Lacks p b'/' lacks
split-join-Lacks p (q ∷ parts) (lacks, h) =
    split-append p (join (q ∷ parts) (codes "/")) b'/' lacks
    ∙ ap (λ t. p ∷ t) (split-join-Lacks q parts h)

-- The last of joined texts may be joined itself.
join-last :
    (sep p : Bytes) (parts : List Bytes) (q : Bytes) (more : List Bytes)
    → join (p ∷ (parts ++ (join (q ∷ more) sep ∷ []))) sep ≡ join (p ∷ (parts ++ (q ∷ more))) sep
unfolding join
join-last sep p [] q more = refl
join-last sep p (r ∷ parts) q more = ap (λ t. p ++ (sep ++ t)) (join-last sep r parts q more)

-- The names on the path of the folder of a climbing version, behind those of the repository.
abbrev climbing_names : Bytes → Bytes → Bytes → List Bytes
climbing_names scope name v = scope ∷ name ∷ up ∷ up ∷ up ∷ v ∷ []

names-Lacks : (ps : List Bytes) → All Plain ps → All (Lacks b'/') ps
names-Lacks [] h = tt
names-Lacks (p ∷ ps) (plain, h) = (plain.no_slash, names-Lacks ps h)

up-Lacks : Lacks b'/' up
up-Lacks = (λ e. omega arith, (λ e. omega arith, tt))

but_last-Plain :
    (d : Bytes) (dirs : List Bytes) → All Plain (d ∷ dirs) → All Plain (but_last (d ∷ dirs))
but_last-Plain d [] h = tt
but_last-Plain d (q ∷ dirs) (plain, h) = (plain, but_last-Plain q dirs h)

first_of_names :
    (ps : List Bytes) (v : Bytes)
    → All Plain ps
    → Plain v
    → (c : ℕ) × (s : Bytes) × (join (ps ++ (v ∷ [])) (codes "/") ≡ c ∷ s)
first_of_names [] v h plain = let (c, s, _, joined) = first_of_join v [] plain in (c, s, joined)
first_of_names (q ∷ ps) v (plain_q, h) plain =
    let (c, s, _, joined) = first_of_join q (ps ++ (v ∷ [])) plain_q in (c, s, joined)

clean_names :
    (c : ℕ) (s : Bytes) (c' : ℕ) (s' : Bytes)
    → c ≢ b'/'
    → join (clean_parts false [] (split (c ∷ s) b'/')) (codes "/") ≡ c' ∷ s'
    → path_clean (c ∷ s) ≡ c' ∷ s'
unfolding path_clean
clean_names c s c' s' begins cleaned = ground (arith, cleaned)

-- The text that is cleaned, as the join of its names.
climbing_path :
    (d : Bytes) (dirs : List Bytes) (scope name version v : Bytes)
    → version ≡ climbing v
    → join (join (d ∷ dirs) (codes "/") ∷ scope ∷ name ∷ version ∷ []) (codes "/")
      ≡ join (d ∷ (dirs ++ climbing_names scope name v)) (codes "/")
climbing_path d dirs scope name version v climbs =
    let slash = codes "/" in
    let joined : List Bytes → Bytes = λ ps. join (d ∷ ps) slash in
    join-join slash d dirs scope (name ∷ version ∷ [])
    ∙ (ap (λ x. joined (dirs ++ (scope ∷ name ∷ x ∷ []))) climbs
        ∙ (ap joined (sym (append_assoc dirs (scope ∷ name ∷ []) (climbing v ∷ [])))
            ∙ (join-last slash d (dirs ++ (scope ∷ name ∷ [])) up (up ∷ up ∷ v ∷ [])
                ∙ ap joined (append_assoc dirs (scope ∷ name ∷ []) (up ∷ up ∷ up ∷ v ∷ [])))))

-- If the directory of the repository is a relative path of plain names, and the scope, the name and v
-- are plain, then the folder of the version "../../../v" is v beside the last directory of that path,
-- outside of the repository.
pub path_folder-climbing :
    (p : Platform) (d : Bytes) (dirs : List Bytes) (e : UploadElement) (v : Bytes)
    → All Plain (d ∷ dirs)
    → Plain e.scope
    → Plain e.name
    → Plain v
    → e.version ≡ climbing v
    → path_folder p (join (d ∷ dirs) (codes "/")) e
      ≡ join (but_last (d ∷ dirs) ++ (v ∷ [])) (codes "/")
unfolding path_folder
path_folder-climbing p d dirs e v root plain_scope plain_name plain_v climbs =
    let names = climbing_names e.scope e.name v in
    let (c, s, begins, joined) = first_of_join d (dirs ++ names) root.0 in
    let (c', s', result) =
      first_of_names (but_last (d ∷ dirs)) v (but_last-Plain d dirs root) plain_v in
    let lacks = All-append (Lacks b'/') (d ∷ dirs) names (names-Lacks (d ∷ dirs) root) (
      plain_scope.no_slash,
      (plain_name.no_slash, (up-Lacks, (up-Lacks, (up-Lacks, (plain_v.no_slash, tt))))),
    ) in
    let parts : split (c ∷ s) b'/' ≡ (d ∷ dirs) ++ names =
      rw joined at (split-join-Lacks d (dirs ++ names) lacks) in
    let cleaned : join (clean_parts false [] (split (c ∷ s) b'/')) (codes "/") ≡ c' ∷ s' =
      rw (parts, clean_parts-climbing d dirs e.scope e.name v root plain_scope plain_name plain_v)
        result in
    path_join-full (join (d ∷ dirs) (codes "/")) (e.scope ∷ e.name ∷ e.version ∷ [])
      (full_join d dirs root.0)
    ∙ (ap path_clean (climbing_path d dirs e.scope e.name e.version v climbs)
        ∙ (ap path_clean joined ∙ (clean_names c s c' s' begins cleaned ∙ sym result)))
