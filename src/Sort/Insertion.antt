-- ===== src/Sort/Insertion.antt =====
-- Insertion sort keeps the promise of `SortFunc`.
use openspmregistry.Prelude.{
  ◌≡◌, refl, ◌∙◌, List, [], ◌∷◌, false, All, if◌then◌else◌, Bool-cases, inl, inr,
}
use openspmregistry.Int.{ℤ}
use openspmregistry.Sort.{less, IsStrictWeak, IsSorted, SortFunc}
use mathlib.Core.List.{Permᴰ, Memᴰ}
use mathlib.Core.List.Permᴰ

module _ {A : Type 0} where
  insert : (A → A → ℤ) → A → List A → List A
  insert cmp x [] = x ∷ []
  insert cmp x (y ∷ ys) = if less cmp y x then y ∷ insert cmp x ys else x ∷ y ∷ ys

  unfoldable pub insertion_sort : (A → A → ℤ) → List A → List A
  unfolding insert
  insertion_sort cmp [] = []
  insertion_sort cmp (x ∷ xs) = insert cmp x (insertion_sort cmp xs)

  insert-perm : (cmp : A → A → ℤ) (x : A) (ys : List A) → Permᴰ (insert cmp x ys) (x ∷ ys)
  unfolding insert
  insert-perm cmp x [] = Permᴰ.cons refl Permᴰ.nil
  insert-perm cmp x (y ∷ ys) = elim (Bool-cases (less cmp y x)) [
    | inl later ↦
        rw later (Permᴰ.trans (Permᴰ.cons refl (insert-perm cmp x ys)) (Permᴰ.swap refl refl))
    | inr here ↦ rw here (Permᴰ.refl (x ∷ y ∷ ys))
  ]

  pub insertion_sort-perm : (cmp : A → A → ℤ) (xs : List A) → Permᴰ (insertion_sort cmp xs) xs
  unfolding insertion_sort
  insertion_sort-perm cmp [] = Permᴰ.nil
  insertion_sort-perm cmp (x ∷ xs) =
      Permᴰ.trans (insert-perm cmp x (insertion_sort cmp xs))
        (Permᴰ.cons refl (insertion_sort-perm cmp xs))

  -- What holds of all elements holds of all in another order.
  pub All-perm : (P : A → Type 0) {xs ys : List A} → Permᴰ xs ys → All P xs → All P ys
  All-perm P Permᴰ.nil h = tt
  All-perm P (Permᴰ.cons e p) h = (rw e at h.0, All-perm P p h.1)
  All-perm P (Permᴰ.swap e f) h = (rw f at h.1.0, (rw e at h.0, h.1.1))
  All-perm P (Permᴰ.trans p q) h = All-perm P q (All-perm P p h)

-- An element of a list is one of the list in another order.
pub Memᴰ-perm : {A : Type 0} {a : A} {xs ys : List A} → Permᴰ xs ys → Memᴰ a xs → Memᴰ a ys
Memᴰ-perm Permᴰ.nil m = m
Memᴰ-perm (Permᴰ.cons e p) (Memᴰ.head h) = Memᴰ.head (h ∙ e)
Memᴰ-perm (Permᴰ.cons e p) (Memᴰ.tail m) = Memᴰ.tail (Memᴰ-perm p m)
Memᴰ-perm (Permᴰ.swap e f) (Memᴰ.head h) = Memᴰ.tail (Memᴰ.head (h ∙ e))
Memᴰ-perm (Permᴰ.swap e f) (Memᴰ.tail (Memᴰ.head h)) = Memᴰ.head (h ∙ f)
Memᴰ-perm (Permᴰ.swap e f) (Memᴰ.tail (Memᴰ.tail m)) = Memᴰ.tail (Memᴰ.tail m)
Memᴰ-perm (Permᴰ.trans p q) m = Memᴰ-perm q (Memᴰ-perm p m)

module _ {A : Type 0} (P : A → Type 0) (cmp : A → A → ℤ) (order : IsStrictWeak P cmp) where
  -- An element that is not above x is not above what stands behind x in a sorted list.
  below-All :
      (x y : A) (ys : List A)
      → P x
      → P y
      → All P ys
      → less cmp y x ≡ false
      → All (λ z. less cmp z y ≡ false) ys
      → All (λ z. less cmp z x ≡ false) ys
  below-All x y [] px py ps h hs = tt
  below-All x y (z ∷ ys) px py (pz, ps) h (hz, hs) =
      (order.unranked z y x pz py px hz h, below-All x y ys px py ps h hs)

  insert-IsSorted :
      (x : A) (ys : List A) → P x → All P ys → IsSorted cmp ys → IsSorted cmp (insert cmp x ys)
  unfolding insert
  insert-IsSorted x [] px ps h = (tt, tt)
  insert-IsSorted x (y ∷ ys) px (py, ps) (hy, hs) = elim (Bool-cases (less cmp y x)) [
    | inl later ↦ rw later (
      All-perm _ (Permᴰ.symm (insert-perm cmp x ys)) (order.asymmetric y x py px later, hy),
      insert-IsSorted x ys px ps hs,
    )
    | inr here ↦ rw here ((here, below-All x y ys px py ps here hy), (hy, hs))
  ]

  pub insertion_sort-IsSorted : (xs : List A) → All P xs → IsSorted cmp (insertion_sort cmp xs)
  unfolding insertion_sort
  insertion_sort-IsSorted [] h = tt
  insertion_sort-IsSorted (x ∷ xs) (px, ps) =
      insert-IsSorted x (insertion_sort cmp xs) px
        (All-perm P (Permᴰ.symm (insertion_sort-perm cmp xs)) ps) (insertion_sort-IsSorted xs ps)

abbrev pub by_insertion : SortFunc
by_insertion = record {
  sort = insertion_sort;
  permuted = insertion_sort-perm;
  sorted = λ P cmp xs order h. insertion_sort-IsSorted P cmp order xs h;
}
