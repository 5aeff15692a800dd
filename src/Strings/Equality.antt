-- ===== src/Strings/Equality.antt =====
-- Equality, prefixes and suffixes of byte strings.
use mathlib.Core.List.{Memᴰ}
use openspmregistry.Prelude.{
  List, Bool-cases, inl, inr, ◌-◌, ◌≡◌, refl, ap, ◌↔◌, true, [], ◌∷◌, ◌++◌, arith, length, take,
  drop, length-append, drop-append,
}
use openspmregistry.Strings.{
  Bytes, contains, eq_bytes, has_prefix, has_suffix, trim_prefix, trim_suffix,
}

pub eq_bytes_sound : (s t : Bytes) → eq_bytes s t ≡ true → s ≡ t
unfolding eq_bytes
eq_bytes_sound [] [] h = refl
eq_bytes_sound [] (b ∷ t) h = ground arith
eq_bytes_sound (a ∷ s) [] h = ground arith
eq_bytes_sound (a ∷ s) (b ∷ t) h = ground (arith, eq_bytes_sound s t)

pub eq_bytes_refl : (s : Bytes) → eq_bytes s s ≡ true
unfolding eq_bytes
eq_bytes_refl [] = refl
eq_bytes_refl (a ∷ s) = ground (arith, eq_bytes_refl s)

pub eq_bytes_complete : {s t : Bytes} → s ≡ t → eq_bytes s t ≡ true
eq_bytes_complete {s} e = rw (← e) (eq_bytes_refl s)

pub eq_bytes_iff : (s t : Bytes) → (eq_bytes s t ≡ true) ↔ (s ≡ t)
eq_bytes_iff s t = (eq_bytes_sound s t, eq_bytes_complete)

pub has_prefix-append : (p s : Bytes) → has_prefix (p ++ s) p ≡ true
unfolding has_prefix
has_prefix-append [] [] = refl
has_prefix-append [] (c ∷ s) = refl
has_prefix-append (a ∷ p) s = ground (arith, has_prefix-append p s)

pub has_prefix_sound : (s p : Bytes) → has_prefix s p ≡ true → s ≡ p ++ drop (length p) s
unfolding has_prefix
has_prefix_sound [] [] h = refl
has_prefix_sound (c ∷ s) [] h = refl
has_prefix_sound [] (b ∷ p) h = ground arith
has_prefix_sound (a ∷ s) (b ∷ p) h = ground (arith, has_prefix_sound s p)

pub trim_prefix-append : (p s : Bytes) → trim_prefix (p ++ s) p ≡ s
unfolding trim_prefix
trim_prefix-append p s = rw (has_prefix-append p s) (drop-append p s)

pub take-append : (s t : Bytes) → take (length s) (s ++ t) ≡ s
take-append [] [] = refl
take-append [] (c ∷ t) = refl
take-append (a ∷ s) t = ap (λ x. a ∷ x) (take-append s t)

length-append-sub : (s t : Bytes) → length (s ++ t) - length t ≡ length s
length-append-sub s t = omega (arith, length-append {0} s t)

pub has_suffix-append : (s t : Bytes) → has_suffix (s ++ t) t ≡ true
unfolding has_suffix
has_suffix-append s t =
    rw (length-append-sub s t, drop-append s t, eq_bytes_refl t)
      (ground (arith, length-append {0} s t))

pub trim_suffix-append : (s t : Bytes) → trim_suffix (s ++ t) t ≡ s
unfolding trim_suffix
trim_suffix-append s t = rw (has_suffix-append s t, length-append-sub s t) (take-append s t)

-- What a list contains is a member of it.
pub contains_sound : (xs : List Bytes) (s : Bytes) → contains xs s ≡ true → Memᴰ s xs
unfolding contains
contains_sound [] s h = cc h
contains_sound (x ∷ xs) s h = elim (Bool-cases (eq_bytes s x)) [
  | inl same ↦ Memᴰ.head ((eq_bytes_iff s x).0 same)
  | inr other ↦ Memᴰ.tail (contains_sound xs s (ground (arith, h, other)))
]
