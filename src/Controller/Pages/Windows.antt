-- ===== src/Controller/Pages/Windows.antt =====
-- The window of elements that a page shows.
use openspmregistry.Prelude.{
  ℕ, zero, suc, ◌+◌, ◌-◌, ◌*◌, ◌≤◌, ◌<◌, ◌≡◌, refl, List, [], ◌∷◌, arith, ltb, length, take, drop,
  length-drop, sym, ap, ◌∙◌, Bool-cases, inl, inr, ◌%◌,
}
use openspmregistry.Int.{
  ℤ, pos, negsuc, sub_int, mul_int, int_max, add_int-pos, sub_int-pos, mul_int-pos,
}
use openspmregistry.Controller.Pages.{done, panic, paginate_elements, slice, window, min_int}

take_all {ℓ} : {A : Type ℓ} (n : ℕ) (xs : List A) → length xs ≤ n → take n xs ≡ xs
take_all zero [] h = refl
take_all (suc n) [] h = refl
take_all zero (x ∷ xs) h = elim h [ ]
take_all (suc n) (x ∷ xs) h = ap (λ t. x ∷ t) (take_all n xs (omega arith))

drop_all {ℓ} : {A : Type ℓ} (n : ℕ) (xs : List A) → length xs ≤ n → drop n xs ≡ []
drop_all zero [] h = refl
drop_all (suc n) [] h = refl
drop_all zero (x ∷ xs) h = elim h [ ]
drop_all (suc n) (x ∷ xs) h = drop_all n xs (omega arith)

take_enough {ℓ} :
    {A : Type ℓ} (m n : ℕ) (xs : List A) → length xs ≤ m → length xs ≤ n → take m xs ≡ take n xs
take_enough m n xs hm hn = take_all m xs hm ∙ sym (take_all n xs hn)

end_minus_start : (s p : ℕ) → s + p - s ≡ p
end_minus_start s p = omega arith

take-nil {ℓ} : {A : Type ℓ} (n : ℕ) → take {A = A} n [] ≡ []
take-nil zero = refl
take-nil (suc n) = refl

window_inside :
    {A : Type 0} (xs : List A) (s p : ℕ)
    → s < length xs
    → slice xs (pos s) (min_int (pos (s + p)) (pos (length xs))) ≡ done (take p (drop s xs))
unfolding slice
window_inside xs s p h = elim (Bool-cases (ltb (length xs) (s + p))) [
  | inl short ↦ ground (arith, take_enough (length xs - s) p (drop s xs), length-drop {0} s xs)
  | inr long ↦ ground (arith, end_minus_start s p)
]

window-pos :
    {A : Type 0} (xs : List A) (s p : ℕ)
    → s + p ≤ int_max
    → window xs (pos s) (pos p) ≡ done (take p (drop s xs))
unfolding window
window-pos {A} xs s p h =
    ground (arith, add_int-pos s p h, window_inside xs s p, drop_all s xs, take-nil {A = A} p)

prev_page : (page : ℕ) → page + 1 ≤ int_max → sub_int (pos (page + 1)) (pos 1) ≡ pos page
prev_page page h = ground (arith, sub_int-pos (page + 1) 1 h)

mul_int_wraps :
    (a b : ℕ)
    → a ≤ int_max
    → b ≤ int_max
    → int_max < (a * b) % 18446744073709551616
    → mul_int (pos a) (pos b) ≡ negsuc (18446744073709551615 - (a * b) % 18446744073709551616)
unfolding mul_int
mul_int_wraps a b ha hb h = ground arith

window-negsuc : {A : Type 0} (xs : List A) (n : ℕ) (p : ℤ) → window xs (negsuc n) p ≡ panic
unfolding window slice
window-negsuc xs n p = ground arith

-- A page whose window of indices does not leave the range of int shows the elements from
-- page * per_page on, counting pages from 0, and at most per_page of them; it never panics, and a
-- page behind the last one shows nothing.
pub paginate_elements-window :
    {A : Type 0} (elements : List A) (page per_page : ℕ)
    → 0 < per_page
    → page + 1 ≤ int_max
    → page * per_page + per_page ≤ int_max
    → paginate_elements elements (pos (page + 1)) (pos per_page)
      ≡ done (take per_page (drop (page * per_page) elements))
unfolding paginate_elements
paginate_elements-window elements page per_page h hp fits =
    rw (prev_page page hp, mul_int-pos page per_page (omega arith) (omega arith) (omega arith))
      (ground (arith, window-pos elements (page * per_page) per_page fits))

-- Where the first index of the window, cut to 64 bits, is a negative int, the code panics: a page
-- number that a client sends is not bounded before the multiplication.
pub paginate_elements-panic :
    {A : Type 0} (elements : List A) (page per_page : ℕ)
    → 0 < per_page
    → per_page ≤ int_max
    → page + 1 ≤ int_max
    → int_max < (page * per_page) % 18446744073709551616
    → paginate_elements elements (pos (page + 1)) (pos per_page) ≡ panic
unfolding paginate_elements
paginate_elements-panic elements page per_page h hpp hp wraps =
    rw (prev_page page hp, mul_int_wraps page per_page (omega arith) hpp wraps)
      (ground (
        arith,
        window-negsuc elements (18446744073709551615 - (page * per_page) % 18446744073709551616)
            (pos per_page),
      ))
