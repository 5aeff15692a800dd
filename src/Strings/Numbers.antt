-- ===== src/Strings/Numbers.antt =====
-- strconv.Atoi and strconv.Itoa.
use openspmregistry.Prelude.{
  ℕ, zero, suc, ◌+◌, ◌-◌, ◌*◌, ◌/◌, ◌%◌, ◌≤◌, ◌≡◌, refl, Bool, true, false, ◌||◌, [], ◌∷◌, ◌++◌,
  arith, ltb, leb, ◌==◌, if◌then◌else◌, Bool-cases, inl, inr,
}
use openspmregistry.Int.{ℤ, pos, negsuc, int_max}
use openspmregistry.Strings.{Bytes, codes}

-- What the unsigned parser returns. It stops at the first byte that is no digit, or that makes the
-- number leave 64 bits, whichever comes first.
pub data Scan : Type 0 where
  value : ℕ → Scan
  syntax_error range_error : Scan

unfoldable pub scan : Bytes → ℕ → Scan
scan [] n = value n
scan (c ∷ s) n =
    let d = c - b'0' in
    let rest = scan s (n * 10 + d) in
    if ltb c b'0' || ltb b'9' c
    then syntax_error
    else if leb 1844674407370955162 n || ltb 18446744073709551615 (n * 10 + d)
    then range_error
    else rest

-- The value beside the error: 0 after a syntax error, the nearest int after a range error. The
-- second part is whether the error is nil.
unfoldable pub positive : Scan → ℤ × Bool
positive (value n) = if leb n int_max then (pos n, true) else (pos int_max, false)
positive syntax_error = (pos 0, false)
positive range_error = (pos int_max, false)

unfoldable pub negative : Scan → ℤ × Bool
negative (value zero) = (pos 0, true)
negative (value (suc n)) = if leb n int_max then (negsuc n, true) else (negsuc int_max, false)
negative syntax_error = (pos 0, false)
negative range_error = (negsuc int_max, false)

-- digits behind the sign; there must be one
unfoldable pub unsigned : Bytes → Scan
unfolding scan
unsigned [] = syntax_error
unsigned (c ∷ s) = scan (c ∷ s) 0

-- strconv.Atoi
unfoldable pub atoi : Bytes → ℤ × Bool
unfolding unsigned positive negative
atoi [] = (pos 0, false)
atoi (c ∷ s) =
    if c == b'+'
    then positive (unsigned s)
    else if c == b'-'
    then negative (unsigned s)
    else positive (unsigned (c ∷ s))

digits : ℕ → ℕ → Bytes
digits zero n = []
digits (suc fuel) n = elim (ltb n 10) [
  | true ↦ (b'0' + n) ∷ []
  | false ↦ digits fuel (n / 10) ++ (b'0' + n % 10) ∷ []
]

abbrev sign_itoa : ℤ → Bytes → Bytes
sign_itoa (pos _) ds = ds
sign_itoa (negsuc _) ds = b'-' ∷ ds

abbrev magnitude : ℤ → ℕ
magnitude (pos n) = n
magnitude (negsuc n) = suc n

-- strconv.Itoa; an int has at most 19 digits
unfoldable pub itoa : ℤ → Bytes
unfolding digits
itoa z = sign_itoa z (digits 20 (magnitude z))

positive-pos : (r : Scan) → (n : ℕ) × ((positive r).0 ≡ pos n) × (n ≤ int_max)
unfolding positive
positive-pos (value n) = elim (Bool-cases (leb n int_max)) [
  | inl fits ↦ (n, rw fits, ground arith)
  | inr over ↦ (int_max, rw over, omega arith)
]
positive-pos syntax_error = (0, refl, omega arith)
positive-pos range_error = (int_max, refl, omega arith)

-- A text that begins with no minus sign is read as a non-negative int, also beside an error.
pub atoi-pos :
    (c : ℕ) (s : Bytes) → (c == b'-') ≡ false → (n : ℕ) × ((atoi (c ∷ s)).0 ≡ pos n) × (n ≤ int_max)
unfolding atoi
atoi-pos c s h = elim (Bool-cases (c == b'+')) [
  | inl plus ↦ rw plus (positive-pos (unsigned s))
  | inr other ↦ rw (other, h) (positive-pos (unsigned (c ∷ s)))
]

atoi_tests :
    (atoi (codes "+07") ≡ (pos 7, true))
    × (atoi (codes "-3") ≡ (negsuc 2, true))
    × (atoi (codes "1x") ≡ (pos 0, false))
    × (itoa (negsuc 11) ≡ codes "-12")
    × (atoi (codes "99999999999999999999x") ≡ (pos int_max, false))
unfolding atoi itoa
atoi_tests = (refl, refl, refl, refl, refl)
