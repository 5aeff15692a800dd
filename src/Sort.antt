-- ===== src/Sort.antt =====
-- slices.SortFunc: what its documentation promises, and a sort that keeps the promise. The order of
-- elements that compare as equal is left open, as the documentation leaves it.
pub mod Insertion
use openspmregistry.Prelude.{◌≡◌, List, [], ◌∷◌, Bool, true, false, All}
use openspmregistry.Int.{ℤ, pos, lt_int}
use mathlib.Core.List.{Permᴰ}

module _ {A : Type 0} where
  -- cmp a b < 0
  abbrev pub less : (A → A → ℤ) → A → A → Bool
  less cmp a b = lt_int (cmp a b) (pos 0)

  -- `cmp` is a strict weak order on the elements that satisfy P.
  pub record IsStrictWeak (P : A → Type 0) (cmp : A → A → ℤ) : Type 0 where
    pub asymmetric : (a b : A) → P a → P b → less cmp a b ≡ true → less cmp b a ≡ false
    pub unranked :
        (a b c : A)
        → P a
        → P b
        → P c
        → less cmp a b ≡ false
        → less cmp b c ≡ false
        → less cmp a c ≡ false

  -- R holds between each element and those behind it.
  abbrev pub Ranked : (A → A → Type 0) → List A → Type 0
  Ranked R [] = Unit
  Ranked R (x ∷ xs) = All (R x) xs × Ranked R xs

  -- No element stands before a smaller one.
  abbrev pub IsSorted : (A → A → ℤ) → List A → Type 0
  IsSorted cmp = Ranked (λ x y. less cmp y x ≡ false)

  All-map : {P Q : A → Type 0} (xs : List A) → ((x : A) → P x → Q x) → All P xs → All Q xs
  All-map [] f h = tt
  All-map (x ∷ xs) f (p, h) = (f x p, All-map xs f h)

  pub Ranked-map :
      {R S : A → A → Type 0} (xs : List A) → ((x y : A) → R x y → S x y) → Ranked R xs → Ranked S xs
  Ranked-map [] f h = tt
  Ranked-map (x ∷ xs) f (p, h) = (All-map xs (f x) p, Ranked-map xs f h)

pub record SortFunc : Type 1 where
  pub sort : {A : Type 0} → (A → A → ℤ) → List A → List A
  pub permuted : {A : Type 0} (cmp : A → A → ℤ) (xs : List A) → Permᴰ (sort cmp xs) xs
  pub sorted :
      {A : Type 0} (P : A → Type 0) (cmp : A → A → ℤ) (xs : List A)
      → IsStrictWeak P cmp
      → All P xs
      → IsSorted cmp (sort cmp xs)
