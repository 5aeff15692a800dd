-- ===== src/Int/Defs.antt =====
-- Go's `int`: the value of type ℤ, with wrap-around modulo 2 ^ 64 written out.
use openspmregistry.Prelude.{ℕ, suc, ◌+◌, ◌-◌, ◌*◌, ◌%◌, Bool, ltb, leb, ◌==◌, if◌then◌else◌}

-- `negsuc n` is -(n + 1).
pub data ℤ : Type 0 where
  pos : ℕ → ℤ
  negsuc : ℕ → ℤ

abbrev pub pos_part : ℤ → ℕ
pos_part (pos n) = n
pos_part (negsuc _) = 0

abbrev pub neg_part : ℤ → ℕ
neg_part (pos _) = 0
neg_part (negsuc n) = suc n

-- a < b
abbrev pub lt_int : ℤ → ℤ → Bool
lt_int a b = ltb (pos_part a + neg_part b) (pos_part b + neg_part a)

-- a <= b
abbrev pub le_int : ℤ → ℤ → Bool
le_int a b = leb (pos_part a + neg_part b) (pos_part b + neg_part a)

-- a == b
abbrev pub eq_int : ℤ → ℤ → Bool
eq_int a b = pos_part a + neg_part b == pos_part b + neg_part a

-- the largest int, and the number of bit patterns
abbrev pub int_max : ℕ
int_max = 9223372036854775807

abbrev pub word : ℕ
word = 18446744073709551616

-- the bit pattern of an integer, and the integer of a bit pattern
abbrev pub residue : ℤ → ℕ
residue (pos n) = n % 18446744073709551616
residue (negsuc n) = 18446744073709551615 - n % 18446744073709551616

abbrev pub to_int : ℕ → ℤ
to_int m = if leb m 9223372036854775807 then pos m else negsuc (18446744073709551615 - m)

unfoldable pub add_int : ℤ → ℤ → ℤ
add_int a b = to_int ((residue a + residue b) % 18446744073709551616)

unfoldable pub sub_int : ℤ → ℤ → ℤ
sub_int a b = to_int ((residue a + 18446744073709551616 - residue b) % 18446744073709551616)

unfoldable pub mul_int : ℤ → ℤ → ℤ
mul_int a b = to_int ((residue a * residue b) % 18446744073709551616)
