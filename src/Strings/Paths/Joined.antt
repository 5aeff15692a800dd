-- ===== src/Strings/Paths/Joined.antt =====
-- Joining behind a path that was joined before.
use openspmregistry.Prelude.{
  ℕ, ◌≡◌, ◌≢◌, refl, sym, ◌∙◌, ap, Bool, true, false, ◌==◌, Bool-cases, inl, inr, List, [], ◌∷◌,
  ◌++◌, arith,
}
use openspmregistry.Strings.{Bytes, codes, eq_bytes, split, join}
use openspmregistry.Strings.Paths.{
  entered, clean_parts, clean_rooted, or_dot, path_clean, path_join,
}
use openspmregistry.Strings.Paths.Plain.{join-join}
use openspmregistry.Strings.Paths.Nested.{
  Clean, split_at, clean_parts-append, split-Clean, split_cleaned,
}

-- A clean path begins as the path does and has its clean parts.
record Recleans (c : ℕ) (s cleaned : Bytes) : Type 0 where
  first : ℕ
  rest : Bytes
  cleaned_is : cleaned ≡ first ∷ rest
  rooted_is : (first == b'/') ≡ (c == b'/')
  parts_are :
      clean_parts (c == b'/') [] (split (first ∷ rest) b'/')
      ≡ clean_parts (c == b'/') [] (split (c ∷ s) b'/')

not_slash : (d : ℕ) → d ≢ b'/' → (d == b'/') ≡ false
not_slash d h = ground arith

relative :
    (done : List Bytes)
    → Clean false done
    → (first : ℕ) × (rest : Bytes) × (or_dot (join done (codes "/")) ≡ first ∷ rest)
      × ((first == b'/') ≡ false)
      × (clean_parts false [] (split (first ∷ rest) b'/') ≡ done)
unfolding join
relative [] h = (
  b'.',
  [],
  refl,
  refl,
  unfold split in unfold clean_parts in unfold entered in unfold eq_bytes in refl,
)
relative ([] ∷ done) h = absurd (let no : true ≡ false = h.proper.0.full in cc)
relative ((d ∷ p) ∷ []) h =
    (d, p, refl, not_slash d (h.proper.0.no_slash.0), split_cleaned false ((d ∷ p) ∷ []) h)
relative ((d ∷ p) ∷ q ∷ done) h =
    (d, _, refl, not_slash d (h.proper.0.no_slash.0), split_cleaned false ((d ∷ p) ∷ q ∷ done) h)

slash_first :
    (t : Bytes) → clean_parts true [] (split (b'/' ∷ t) b'/') ≡ clean_parts true [] (split t b'/')
unfolding split clean_parts entered
slash_first t = refl

clean-Recleans : (c : ℕ) (s : Bytes) → Recleans c s (path_clean (c ∷ s))
unfolding path_clean
clean-Recleans c s = elim (Bool-cases (c == b'/')) [
  | inl rooted ↦ record {
    first = b'/';
    rest = join (clean_parts true [] (split (c ∷ s) b'/')) (codes "/");
    cleaned_is = rw rooted refl;
    rooted_is = rw rooted refl;
    parts_are = rw rooted (
        slash_first (join (clean_parts true [] (split (c ∷ s) b'/')) (codes "/"))
        ∙ split_cleaned true (clean_parts true [] (split (c ∷ s) b'/')) (split-Clean true (c ∷ s)));
  }
  | inr not_rooted ↦
      let (first, rest, is, begins, same) =
        relative (clean_parts false [] (split (c ∷ s) b'/')) (split-Clean false (c ∷ s)) in
      record {
        first = first;
        rest = rest;
        cleaned_is = rw not_rooted is;
        rooted_is = rw not_rooted begins;
        parts_are = rw not_rooted same;
      }
]

-- The clean parts determine the clean path.
same_clean :
    (r : Bool) (x y : Bytes)
    → clean_parts r [] (split x b'/') ≡ clean_parts r [] (split y b'/')
    → clean_rooted r x ≡ clean_rooted r y
same_clean r x y h = rw h refl

parts_behind :
    (r : Bool) (x b : Bytes)
    → clean_parts r [] (split (x ++ (b'/' ∷ b)) b'/')
      ≡ clean_parts r (clean_parts r [] (split x b'/')) (split b b'/')
parts_behind r x b =
    ap (clean_parts r []) (split_at x b b'/')
    ∙ clean_parts-append r [] (split x b'/') (split b b'/')

clean_behind :
    (c d : ℕ) (s t b : Bytes)
    → (d == b'/') ≡ (c == b'/')
    → clean_parts (c == b'/') [] (split (d ∷ t) b'/')
      ≡ clean_parts (c == b'/') [] (split (c ∷ s) b'/')
    → path_clean ((d ∷ t) ++ (b'/' ∷ b)) ≡ path_clean ((c ∷ s) ++ (b'/' ∷ b))
unfolding path_clean
clean_behind c d s t b rooted parts =
    let r = c == b'/' in
    ap (λ x. clean_rooted x ((d ∷ t) ++ (b'/' ∷ b))) rooted
    ∙ same_clean r ((d ∷ t) ++ (b'/' ∷ b)) ((c ∷ s) ++ (b'/' ∷ b)) (
        parts_behind r (d ∷ t) b
        ∙ (ap (λ x. clean_parts r x (split b b'/')) parts ∙ sym (parts_behind r (c ∷ s) b)))

join_first :
    (c : ℕ) (s : Bytes) (elems : List Bytes)
    → (t : Bytes) × (join ((c ∷ s) ∷ elems) (codes "/") ≡ c ∷ t)
unfolding join
join_first c s [] = (s, refl)
join_first c s (e ∷ elems) = (_, refl)

join_behind :
    (c : ℕ) (s b : Bytes) → path_join ((c ∷ s) ∷ b ∷ []) ≡ path_clean ((c ∷ s) ++ (b'/' ∷ b))
unfolding path_join join
join_behind c s b = refl

clean_then_join :
    (c : ℕ) (s b : Bytes)
    → path_join (path_clean (c ∷ s) ∷ b ∷ []) ≡ path_clean ((c ∷ s) ++ (b'/' ∷ b))
clean_then_join c s b =
    let h = clean-Recleans c s in
    ap (λ x. path_join (x ∷ b ∷ [])) h.cleaned_is
    ∙ (join_behind h.first h.rest b ∙ clean_behind c h.first s h.rest b h.rooted_is h.parts_are)

join_append :
    (c : ℕ) (s t : Bytes) (elems : List Bytes) (b : Bytes)
    → join ((c ∷ s) ∷ elems) (codes "/") ≡ c ∷ t
    → join ((c ∷ s) ∷ (elems ++ (b ∷ []))) (codes "/") ≡ (c ∷ t) ++ (b'/' ∷ b)
unfolding join
join_append c s t elems b joined =
    sym (join-join (codes "/") (c ∷ s) elems b []) ∙ ap (λ x. x ++ (b'/' ∷ b)) joined

-- Joining a joined path and a name is joining all of them.
pub path_join-path_join :
    (elems : List Bytes) (b : Bytes)
    → path_join (path_join elems ∷ b ∷ []) ≡ path_join (elems ++ (b ∷ []))
unfolding path_join
path_join-path_join [] b = refl
path_join-path_join ([] ∷ elems) b = path_join-path_join elems b
path_join-path_join ((c ∷ s) ∷ elems) b =
    let (t, joined) = join_first c s elems in
    ap (λ x. path_join (path_clean x ∷ b ∷ [])) joined
    ∙ (clean_then_join c t b ∙ ap path_clean (sym (join_append c s t elems b joined)))
