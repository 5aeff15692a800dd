-- ===== src/Strings/Cutting.antt =====
-- Splitting and joining.
use openspmregistry.Prelude.{
  ℕ, ◌≡◌, ◌≢◌, refl, List, [], ◌∷◌, ◌++◌, arith, All, ◌==◌, Bool-cases, inl, inr, false,
}
use openspmregistry.Strings.{Bytes, contains_byte, split, join, prepend}

abbrev pub Lacks : ℕ → Bytes → Type 0
Lacks sep s = All (λ c. c ≢ sep) s

prepend-ne-nil : (c : ℕ) (parts : List Bytes) → prepend c parts ≢ []
prepend-ne-nil c [] = λ e. cc
prepend-ne-nil c (p ∷ ps) = λ e. cc

join-nil_cons :
    (parts : List Bytes) (sep : Bytes) → parts ≢ [] → join ([] ∷ parts) sep ≡ sep ++ join parts sep
unfolding join
join-nil_cons [] sep h = absurd (h refl)
join-nil_cons (p ∷ ps) sep h = refl

pub split-ne-nil : (s : Bytes) (sep : ℕ) → split s sep ≢ []
unfolding split
split-ne-nil [] sep = λ e. cc
split-ne-nil (c ∷ s) sep = grind (arith, split-ne-nil s sep, prepend-ne-nil)

join-prepend :
    (c : ℕ) (parts : List Bytes) (sep : Bytes)
    → parts ≢ []
    → join (prepend c parts) sep ≡ c ∷ join parts sep
unfolding join
join-prepend c [] sep h = absurd (h refl)
join-prepend c (p ∷ []) sep h = refl
join-prepend c (p ∷ q ∷ ps) sep h = refl

-- Joining the parts of a split gives the text back.
pub join-split : (s : Bytes) (sep : ℕ) → join (split s sep) (sep ∷ []) ≡ s
unfolding split
join-split [] sep = unfold join in refl
join-split (c ∷ s) sep = ground (
  arith,
  join-split s sep,
  join-prepend c (split s sep) (sep ∷ []) (split-ne-nil s sep),
  join-nil_cons (split s sep) (sep ∷ []) (split-ne-nil s sep),
)

-- A text without the separator is its only part.
pub split-Lacks : (s : Bytes) (sep : ℕ) → Lacks sep s → split s sep ≡ s ∷ []
unfolding split
split-Lacks [] sep h = refl
split-Lacks (c ∷ s) sep h = ground (arith, split-Lacks s sep)

-- The first separator ends the first part.
pub split-append :
    (p rest : Bytes) (sep : ℕ) → Lacks sep p → split (p ++ (sep ∷ rest)) sep ≡ p ∷ split rest sep
unfolding split
split-append [] rest sep h = ground arith
split-append (c ∷ p) rest sep h = ground (arith, split-append p rest sep)

-- A text that does not contain the byte lacks it.
pub contains_byte-Lacks : (sep : ℕ) (s : Bytes) → contains_byte sep s ≡ false → Lacks sep s
unfolding contains_byte
contains_byte-Lacks sep [] h = tt
contains_byte-Lacks sep (c ∷ s) h = ground (arith, contains_byte-Lacks sep s)

prepend-All :
    (P : ℕ → Type 0) (c : ℕ) (parts : List Bytes)
    → P c
    → All (All P) parts
    → All (All P) (prepend c parts)
prepend-All P c [] p h = ((p, tt), tt)
prepend-All P c (part ∷ parts) p (h, hs) = ((p, h), hs)

-- The parts hold bytes of the text only.
pub split-All : (P : ℕ → Type 0) (s : Bytes) (sep : ℕ) → All P s → All (All P) (split s sep)
unfolding split
split-All P [] sep h = (tt, tt)
split-All P (c ∷ s) sep (p, h) = elim (Bool-cases (c == sep)) [
  | inl e ↦ rw e (tt, split-All P s sep h)
  | inr e ↦ rw e (prepend-All P c (split s sep) p (split-All P s sep h))
]

-- No part holds the separator.
pub split-Lacks-All : (s : Bytes) (sep : ℕ) → All (Lacks sep) (split s sep)
unfolding split
split-Lacks-All [] sep = (tt, tt)
split-Lacks-All (c ∷ s) sep = elim (Bool-cases (c == sep)) [
  | inl e ↦ rw e (tt, split-Lacks-All s sep)
  | inr e ↦ rw e (prepend-All _ c (split s sep) (ground arith) (split-Lacks-All s sep))
]

not-Lacks : (sep : ℕ) (x y : Bytes) → ¬ Lacks sep (x ++ (sep ∷ y))
not-Lacks sep [] y h = h.0 refl
not-Lacks sep (c ∷ x) y h = not-Lacks sep x y h.1

-- The last separator begins the last part.
pub last_part :
    (sep : ℕ) (x x' : Bytes) {y y' : Bytes}
    → Lacks sep y
    → Lacks sep y'
    → x ++ (sep ∷ y) ≡ x' ++ (sep ∷ y')
    → (x ≡ x') × (y ≡ y')
last_part sep [] [] h h' e = (refl, cc)
last_part sep [] (c ∷ x') {y} {y'} h h' e =
    let e' : y ≡ x' ++ (sep ∷ y') = cc in absurd (not-Lacks sep x' y' (rw e' at h))
last_part sep (c ∷ x) [] {y} {y'} h h' e =
    let e' : y' ≡ x ++ (sep ∷ y) = cc in absurd (not-Lacks sep x y (rw e' at h'))
last_part sep (c ∷ x) (d ∷ x') {y} {y'} h h' e =
    let e' : x ++ (sep ∷ y) ≡ x' ++ (sep ∷ y') = cc in
    let (same, last) = last_part sep x x' h h' e' in (cc, last)
