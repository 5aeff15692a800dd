-- ===== src/Strings/Order.antt =====
-- `compare` is a total order on byte strings.
use openspmregistry.Prelude.{◌≡◌, refl, [], ◌∷◌, arith, ◌⊎◌, inl, inr}
use openspmregistry.Int.{pos, negsuc}
use openspmregistry.Strings.{Bytes, compare}

-- s stands before t
abbrev pub Before : Bytes → Bytes → Type 0
Before s t = compare s t ≡ negsuc 0

pub compare_refl : (s : Bytes) → compare s s ≡ pos 0
unfolding compare
compare_refl [] = refl
compare_refl (a ∷ s) = ground (arith, compare_refl s)

pub compare_sound : (s t : Bytes) → compare s t ≡ pos 0 → s ≡ t
unfolding compare
compare_sound [] [] h = refl
compare_sound [] (b ∷ t) h = cc
compare_sound (a ∷ s) [] h = cc
compare_sound (a ∷ s) (b ∷ t) h = ground (arith, compare_sound s t)

pub compare_after : (s t : Bytes) → compare s t ≡ pos 1 → Before t s
unfolding compare
compare_after [] [] h = cc
compare_after [] (b ∷ t) h = cc
compare_after (a ∷ s) [] h = refl
compare_after (a ∷ s) (b ∷ t) h = ground (arith, compare_after s t)

pub compare-Before : (s t : Bytes) → Before s t → compare t s ≡ pos 1
unfolding compare
compare-Before [] [] h = cc
compare-Before [] (b ∷ t) h = refl
compare-Before (a ∷ s) [] h = cc
compare-Before (a ∷ s) (b ∷ t) h = ground (arith, compare-Before s t)

-- The three results.
pub compare-cases :
    (s t : Bytes) → (compare s t ≡ negsuc 0) ⊎ ((compare s t ≡ pos 0) ⊎ (compare s t ≡ pos 1))
unfolding compare
compare-cases [] [] = inr (inl refl)
compare-cases [] (b ∷ t) = inl refl
compare-cases (a ∷ s) [] = inr (inr refl)
compare-cases (a ∷ s) (b ∷ t) = ground (arith, compare-cases s t)

pub Before-trans : (s t u : Bytes) → Before s t → Before t u → Before s u
unfolding compare
Before-trans [] [] u h k = cc
Before-trans [] (b ∷ t) [] h k = cc
Before-trans [] (b ∷ t) (c ∷ u) h k = refl
Before-trans (a ∷ s) [] u h k = cc
Before-trans (a ∷ s) (b ∷ t) [] h k = cc
Before-trans (a ∷ s) (b ∷ t) (c ∷ u) h k = ground (arith, Before-trans s t u)

-- What does not stand before in two steps does not stand before.
pub not-Before-trans : (s t u : Bytes) → ¬ Before s t → ¬ Before t u → ¬ Before s u
not-Before-trans s t u h k before = elim (compare-cases s t) [
  | inl st ↦ h st
  | inr (inl same) ↦ k (rw (compare_sound s t same) at before)
  | inr (inr after) ↦ k (Before-trans t s u (compare_after s t after) before)
]
