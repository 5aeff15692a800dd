-- ===== src/Strings/Paths/Nested.antt =====
-- What cleaning a path leaves is clean.
use openspmregistry.Prelude.{
  ℕ, ◌≡◌, ◌≢◌, refl, sym, ◌∙◌, ap, Bool, true, false, ◌||◌, ◌==◌, Bool-cases, inl, inr, List, [],
  ◌∷◌, ◌++◌, arith, All,
}
use openspmregistry.Strings.{Bytes, codes, eq_bytes, is_empty, split, join, prepend}
use openspmregistry.Strings.Cutting.{
  Lacks, split-append, split-Lacks, split-ne-nil, split-Lacks-All,
}
use openspmregistry.Strings.Paths.{last_part, but_last, parent, entered, clean_parts}

prepend-append : (c : ℕ) (ps qs : List Bytes) → ps ≢ [] → prepend c (ps ++ qs) ≡ prepend c ps ++ qs
prepend-append c [] qs h = absurd (h refl)
prepend-append c (p ∷ ps) qs h = refl

-- A separator parts a text at every place.
pub split_at : (x y : Bytes) (sep : ℕ) → split (x ++ (sep ∷ y)) sep ≡ split x sep ++ split y sep
unfolding split
split_at [] y sep = ground arith
split_at (c ∷ x) y sep = elim (Bool-cases (c == sep)) [
  | inl e ↦ rw e (ap (λ ps. [] ∷ ps) (split_at x y sep))
  | inr e ↦ rw e (
      ap (prepend c) (split_at x y sep)
      ∙ prepend-append c (split x sep) (split y sep) (split-ne-nil x sep))
]

pub clean_parts-append :
    (r : Bool) (done xs ys : List Bytes)
    → clean_parts r done (xs ++ ys) ≡ clean_parts r (clean_parts r done xs) ys
unfolding clean_parts
clean_parts-append r done [] ys = refl
clean_parts-append r done (x ∷ xs) ys = clean_parts-append r (entered r done x) xs ys

-- A part that cleaning leaves.
pub record Proper (p : Bytes) : Type 0 where
  pub full : is_empty p ≡ false
  not_dot : eq_bytes p (codes ".") ≡ false
  pub no_slash : Lacks b'/' p

-- Parts that cleaning leaves as they are.
pub record Clean (r : Bool) (done : List Bytes) : Type 0 where
  stable : clean_parts r [] done ≡ done
  pub proper : All Proper done

snoc :
    (p : Bytes) (done : List Bytes) → p ∷ done ≡ but_last (p ∷ done) ++ (last_part (p ∷ done) ∷ [])
snoc p [] = refl
snoc p (q ∷ done) = ap (λ t. p ∷ t) (snoc q done)

but_last-append : (xs : List Bytes) (p : Bytes) → but_last (xs ++ (p ∷ [])) ≡ xs
but_last-append [] p = refl
but_last-append (x ∷ []) p = refl
but_last-append (x ∷ y ∷ xs) p = ap (λ t. x ∷ t) (but_last-append (y ∷ xs) p)

but_last-All :
    (P : Bytes → Type 0) (p : Bytes) (done : List Bytes)
    → All P (p ∷ done)
    → All P (but_last (p ∷ done))
but_last-All P p [] h = tt
but_last-All P p (q ∷ done) (h, hs) = (h, but_last-All P q done hs)

last_part-All :
    (P : Bytes → Type 0) (p : Bytes) (done : List Bytes)
    → All P (p ∷ done)
    → P (last_part (p ∷ done))
last_part-All P p [] (h, _) = h
last_part-All P p (q ∷ done) (_, hs) = last_part-All P q done hs

All-snoc :
    (P : Bytes → Type 0) (done : List Bytes) (p : Bytes)
    → All P done
    → P p
    → All P (done ++ (p ∷ []))
All-snoc P [] p h hp = (hp, tt)
All-snoc P (q ∷ done) p (h, hs) hp = (h, All-snoc P done p hs hp)

-- one part more
clean_snoc :
    (r : Bool) (done : List Bytes) (p : Bytes)
    → clean_parts r [] (done ++ (p ∷ [])) ≡ entered r (clean_parts r [] done) p
unfolding clean_parts
clean_snoc r done p = clean_parts-append r [] done (p ∷ [])

entered-Proper :
    (r : Bool) (done : List Bytes) (p : Bytes)
    → Proper p
    → eq_bytes p (codes "..") ≡ false
    → entered r done p ≡ done ++ (p ∷ [])
unfolding entered
entered-Proper r done p h plain = rw (h.full, h.not_dot, plain) refl

dots-Proper : Proper (codes "..")
unfolding eq_bytes
dots-Proper = record {
  full = refl;
  not_dot = refl;
  no_slash = (λ x. omega arith, (λ x. omega arith, tt));
}

-- A prefix that a plain part follows is clean.
prefix-Clean :
    (r : Bool) (p : Bytes) (done : List Bytes)
    → Clean r (p ∷ done)
    → eq_bytes (last_part (p ∷ done)) (codes "..") ≡ false
    → Clean r (but_last (p ∷ done))
prefix-Clean r p done h plain =
    let before = but_last (p ∷ done) in
    let last = last_part (p ∷ done) in
    let grown : clean_parts r [] before ++ (last ∷ []) ≡ before ++ (last ∷ []) =
      sym (
        entered-Proper r (clean_parts r [] before) last (last_part-All Proper p done h.proper)
          plain)
      ∙ (sym (clean_snoc r before last)
          ∙ (ap (clean_parts r []) (sym (snoc p done)) ∙ (h.stable ∙ snoc p done))) in
    record {
      stable =
          sym (but_last-append (clean_parts r [] before) last)
          ∙ (ap but_last grown ∙ but_last-append before last);
      proper = but_last-All Proper p done h.proper;
    }

parent_dots :
    (r : Bool) (p : Bytes) (done : List Bytes)
    → eq_bytes (last_part (p ∷ done)) (codes "..") ≡ true
    → parent r (p ∷ done) ≡ p ∷ (done ++ (codes ".." ∷ []))
unfolding parent
parent_dots r p done h = rw h refl

parent_plain :
    (r : Bool) (p : Bytes) (done : List Bytes)
    → eq_bytes (last_part (p ∷ done)) (codes "..") ≡ false
    → parent r (p ∷ done) ≡ but_last (p ∷ done)
unfolding parent
parent_plain r p done h = rw h refl

entered_dots : (r : Bool) (done : List Bytes) → entered r done (codes "..") ≡ parent r done
unfolding entered eq_bytes
entered_dots r done = refl

parent-Clean : (r : Bool) (done : List Bytes) → Clean r done → Clean r (parent r done)
parent-Clean true [] h = unfold parent in h
parent-Clean false [] h =
    unfold parent in
    record {
      stable = unfold clean_parts in unfold entered in unfold parent in unfold eq_bytes in refl;
      proper = (dots-Proper, tt);
    }
parent-Clean r (p ∷ done) h = elim (Bool-cases (eq_bytes (last_part (p ∷ done)) (codes ".."))) [
  | inr plain ↦ rw (parent_plain r p done plain) (prefix-Clean r p done h plain)
  | inl dots ↦ rw (parent_dots r p done dots) (record {
    stable =
        clean_snoc r (p ∷ done) (codes "..")
        ∙ (ap (λ d. entered r d (codes "..")) h.stable
            ∙ (entered_dots r (p ∷ done) ∙ parent_dots r p done dots));
    proper = All-snoc Proper (p ∷ done) (codes "..") h.proper dots-Proper;
  })
]

entered-Clean :
    (r : Bool) (done : List Bytes) (p : Bytes)
    → Lacks b'/' p
    → Clean r done
    → Clean r (entered r done p)
unfolding entered
entered-Clean r done p no_slash h = elim (Bool-cases (is_empty p || eq_bytes p (codes "."))) [
  | inl nothing ↦ rw (entered, nothing) h
  | inr something ↦ elim (Bool-cases (eq_bytes p (codes ".."))) [
    | inl dots ↦ rw (entered, something, dots) (parent-Clean r done h)
    | inr plain ↦
        let proper : Proper p = record {
          full = ground arith;
          not_dot = ground arith;
          no_slash = no_slash;
        } in
        let grows = entered-Proper r done p proper plain in
        rw grows (record {
          stable = clean_snoc r done p ∙ (ap (λ d. entered r d p) h.stable ∙ grows);
          proper = All-snoc Proper done p h.proper proper;
        })
  ]
]

-- What cleaning leaves is clean.
clean_parts-Clean :
    (r : Bool) (done parts : List Bytes)
    → All (Lacks b'/') parts
    → Clean r done
    → Clean r (clean_parts r done parts)
unfolding clean_parts
clean_parts-Clean r done [] no_slashes h = h
clean_parts-Clean r done (p ∷ parts) (no_slash, no_slashes) h =
    clean_parts-Clean r (entered r done p) parts no_slashes (entered-Clean r done p no_slash h)

pub split-Clean : (r : Bool) (s : Bytes) → Clean r (clean_parts r [] (split s b'/'))
split-Clean r s =
    clean_parts-Clean r [] (split s b'/') (split-Lacks-All s b'/')
      (record { stable = unfold clean_parts in refl; proper = tt })

split-join :
    (p : Bytes) (parts : List Bytes)
    → All Proper (p ∷ parts)
    → split (join (p ∷ parts) (codes "/")) b'/' ≡ p ∷ parts
unfolding join
split-join p [] (proper, _) = split-Lacks p b'/' proper.no_slash
split-join p (q ∷ parts) (proper, h) =
    split-append p (join (q ∷ parts) (codes "/")) b'/' proper.no_slash
    ∙ ap (λ t. p ∷ t) (split-join q parts h)

-- The parts of what they are joined to.
pub split_cleaned :
    (r : Bool) (done : List Bytes)
    → Clean r done
    → clean_parts r [] (split (join done (codes "/")) b'/') ≡ done
split_cleaned r [] h = unfold join in unfold split in unfold clean_parts in unfold entered in refl
split_cleaned r (p ∷ done) h = rw (split-join p done h.proper) h.stable
