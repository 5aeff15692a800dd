-- ===== src/Int/Laws.antt =====
-- The operations on non-negative ints that do not leave the range.
use openspmregistry.Prelude.{ℕ, ◌+◌, ◌-◌, ◌*◌, ◌≤◌, ◌≡◌, true, arith, leb, if◌then◌else◌}
use openspmregistry.Int.Defs.{ℤ, pos, negsuc, int_max, eq_int, add_int, sub_int, mul_int}

pub add_int-pos : (a b : ℕ) → a + b ≤ int_max → add_int (pos a) (pos b) ≡ pos (a + b)
unfolding add_int
add_int-pos a b h = ground arith

pub mul_int-pos :
    (a b : ℕ) → a ≤ int_max → b ≤ int_max → a * b ≤ int_max → mul_int (pos a) (pos b) ≡ pos (a * b)
unfolding mul_int
mul_int-pos a b ha hb h = ground arith

-- A difference of non-negative ints never wraps around.
pub sub_int-pos :
    (a b : ℕ)
    → a ≤ int_max
    → b ≤ int_max
    → sub_int (pos a) (pos b) ≡ (if leb b a then pos (a - b) else negsuc (b - a - 1))
unfolding sub_int
sub_int-pos a b ha hb = ground arith

pub eq_int_sound : (a b : ℤ) → eq_int a b ≡ true → a ≡ b
eq_int_sound (pos a) (pos b) h = ground arith
eq_int_sound (pos a) (negsuc b) h = ground arith
eq_int_sound (negsuc a) (pos b) h = ground arith
eq_int_sound (negsuc a) (negsuc b) h = ground arith
