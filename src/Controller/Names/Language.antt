-- ===== src/Controller/Names/Language.antt =====
-- The languages of the two regular expressions.
use openspmregistry.Prelude.{
  ℕ, zero, suc, ◌+◌, ◌*◌, ◌≤◌, ◌≡◌, refl, ◌↔◌, Bool, true, false, [], ◌∷◌, arith, length,
  Bool-cases, inl, inr,
}
use openspmregistry.Strings.{Bytes}
use openspmregistry.Controller.Names.{
  alphanumeric, units, name_matches, dash, dash_or_underscore, scope_matches, package_matches,
}

-- At most `most` units: a letter or digit, alone or behind one separator.
pub data Units (sep : ℕ → Bool) : ℕ → Bytes → Type 0 where
  finished : {most : ℕ} → Units sep most []
  alone :
      {most c : ℕ} {s : Bytes}
      → alphanumeric c ≡ true
      → Units sep most s
      → Units sep (suc most) (c ∷ s)
  behind :
      {most c d : ℕ} {s : Bytes}
      → sep c ≡ true
      → alphanumeric d ≡ true
      → Units sep most s
      → Units sep (suc most) (c ∷ d ∷ s)

pub data NameOf (sep : ℕ → Bool) (most : ℕ) : Bytes → Type 0 where
  starts : {c : ℕ} {s : Bytes} → alphanumeric c ≡ true → Units sep most s → NameOf sep most (c ∷ s)

module _ (sep : ℕ → Bool) where
  units_sound : (most : ℕ) (s : Bytes) → units sep most s ≡ true → Units sep most s
  unfolding units
  units_sound most [] h = finished
  units_sound zero (c ∷ s) h = cc
  units_sound (suc most) (c ∷ []) h = alone h finished
  units_sound (suc most) (c ∷ d ∷ s) h = elim (Bool-cases (alphanumeric c)) [
    | inl letter ↦ alone letter (units_sound most (d ∷ s) (rw letter at h))
    | inr other ↦ behind (ground arith) (ground arith) (units_sound most s (ground arith))
  ]

  Units-length-le : {most : ℕ} {s : Bytes} → Units sep most s → length s ≤ 2 * most
  Units-length-le finished = omega arith
  Units-length-le (alone h u) = omega (arith, Units-length-le u)
  Units-length-le (behind h k u) = omega (arith, Units-length-le u)

  module _ (apart : (c : ℕ) → sep c ≡ true → alphanumeric c ≡ false) where
    units_complete : {most : ℕ} {s : Bytes} → Units sep most s → units sep most s ≡ true
    unfolding units
    units_complete finished = refl
    units_complete (alone {s = []} h u) = h
    units_complete (alone {s = d ∷ s} h u) = rw h (units_complete u)
    units_complete (behind {c} h k u) = rw (apart c h, h, k) (units_complete u)

  name_sound : (most : ℕ) (s : Bytes) → name_matches sep most s ≡ true → NameOf sep most s
  unfolding name_matches
  name_sound most [] h = cc
  name_sound most (c ∷ s) h = starts (ground arith) (units_sound most s (ground arith))

  NameOf-length-le : {most : ℕ} {s : Bytes} → NameOf sep most s → length s ≤ 2 * most + 1
  NameOf-length-le (starts h u) = omega (arith, Units-length-le u)

dash_apart : (c : ℕ) → dash c ≡ true → alphanumeric c ≡ false
unfolding alphanumeric
dash_apart c h = ground arith

dash_or_underscore_apart : (c : ℕ) → dash_or_underscore c ≡ true → alphanumeric c ≡ false
unfolding alphanumeric
dash_or_underscore_apart c h = ground arith

scope_complete : {s : Bytes} → NameOf dash 38 s → scope_matches s ≡ true
unfolding scope_matches name_matches
scope_complete (starts h u) = rw h (units_complete dash dash_apart u)

package_complete : {s : Bytes} → NameOf dash_or_underscore 99 s → package_matches s ≡ true
unfolding package_matches name_matches
package_complete (starts h u) = rw h (units_complete dash_or_underscore dash_or_underscore_apart u)

-- The scope expression accepts exactly a letter or digit and at most 38 units behind it, a unit
-- being a letter or digit or a dash in front of one; the package expression likewise with at most
-- 99 units and an underscore as a second separator.
pub names_iff :
    (s : Bytes)
    → ((scope_matches s ≡ true) ↔ NameOf dash 38 s)
      × ((package_matches s ≡ true) ↔ NameOf dash_or_underscore 99 s)
unfolding scope_matches package_matches
names_iff s =
    ((name_sound dash 38 s, scope_complete), (name_sound dash_or_underscore 99 s, package_complete))

-- n units of a dash and a letter
abbrev pub dash_units : ℕ → Bytes
dash_units zero = []
dash_units (suc n) = b'-' ∷ b'a' ∷ dash_units n

dash_units-Units : (most n : ℕ) → n ≤ most → Units dash most (dash_units n)
unfolding alphanumeric
dash_units-Units most zero h = finished
dash_units-Units zero (suc n) h = elim h [ ]
dash_units-Units (suc most) (suc n) h = behind refl refl (dash_units-Units most n (omega arith))

length-dash_units : (n : ℕ) → length (dash_units n) ≡ 2 * n
length-dash_units zero = omega arith
length-dash_units (suc n) = omega (arith, length-dash_units n)

-- An accepted scope has at most 77 bytes.
pub scope_length : (s : Bytes) → scope_matches s ≡ true → length s ≤ 77
unfolding scope_matches
scope_length s h = NameOf-length-le dash (name_sound dash 38 s h)

-- A letter and n units of a dash and a letter, for n up to 38, are an accepted scope of 2 n + 1
-- bytes: a dash does not count against the limit of 38, so that scopes of more than 39 characters
-- are accepted.
pub scope_length_attained :
    (n : ℕ)
    → n ≤ 38
    → (scope_matches (b'a' ∷ dash_units n) ≡ true) × (length (b'a' ∷ dash_units n) ≡ 2 * n + 1)
unfolding scope_matches alphanumeric
scope_length_attained n h =
    (scope_complete (starts refl (dash_units-Units 38 n h)), omega (arith, length-dash_units n))
