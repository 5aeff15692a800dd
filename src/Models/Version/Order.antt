-- ===== src/Models/Version/Order.antt =====
-- `Compare` is the total order of version precedence.
use openspmregistry.Prelude.{
  ℕ, ◌≤◌, ◌≡◌, refl, ◌↔◌, Bool, true, false, if◌then◌else◌, [], ◌∷◌, arith, inl, inr, Bool-cases,
}
use openspmregistry.Int.{
  ℤ, pos, negsuc, int_max, lt_int, eq_int, sub_int, sub_int-pos, eq_int_sound,
}
use openspmregistry.Strings.{Bytes}
use openspmregistry.Strings
use openspmregistry.Strings.Order.{
  Before, Before-trans, compare-cases, compare_after, compare-Before, compare_sound, compare_refl,
}
use openspmregistry.Strings.Equality.{eq_bytes_iff}
use openspmregistry.Models.Version.{Version, compare, compare_suffix}
use openspmregistry.Sort.{IsStrictWeak}

-- A number that is not negative.
abbrev pub InRange : ℤ → Type 0
InRange (pos n) = n ≤ int_max
InRange (negsuc n) = ⊥

-- What the parser yields.
pub record IsNatural (v : Version) : Type 0 where
  pub major : InRange v.major
  pub minor : InRange v.minor
  pub patch : InRange v.patch

-- The sign of a difference is that of the comparison: nothing wraps around.
lt-sub_int : (a b : ℤ) → InRange a → InRange b → lt_int (sub_int a b) (pos 0) ≡ lt_int a b
lt-sub_int (pos a) (pos b) ha hb = rw (sub_int-pos a b ha hb) (ground arith)
lt-sub_int (pos a) (negsuc b) ha hb = absurd hb
lt-sub_int (negsuc a) b ha hb = absurd ha

sub_int-ne-zero :
    (a b : ℤ) → InRange a → InRange b → eq_int a b ≡ false → eq_int (sub_int a b) (pos 0) ≡ false
sub_int-ne-zero (pos a) (pos b) ha hb h = rw (sub_int-pos a b ha hb) (ground arith)
sub_int-ne-zero (pos a) (negsuc b) ha hb h = absurd hb
sub_int-ne-zero (negsuc a) b ha hb h = absurd ha

-- A version with a suffix stands before the one without; two suffixes stand in byte order.
pub data SuffixPrecedes : Bytes → Bytes → Type 0 where
  tagged : {a : ℕ} {s : Bytes} → SuffixPrecedes (a ∷ s) []
  ordered : {a b : ℕ} {s t : Bytes} → Before (a ∷ s) (b ∷ t) → SuffixPrecedes (a ∷ s) (b ∷ t)

abbrev lt_suffix : Bytes → Bytes → Bool
lt_suffix s t = lt_int (compare_suffix s t) (pos 0)

suffix_sound : (s t : Bytes) → lt_suffix s t ≡ true → SuffixPrecedes s t
unfolding compare_suffix
suffix_sound [] [] h = cc
suffix_sound [] (b ∷ t) h = cc
suffix_sound (a ∷ s) [] h = tagged
suffix_sound (a ∷ s) (b ∷ t) h = ordered (ground (arith, compare-cases (a ∷ s) (b ∷ t)))

suffix_complete : {s t : Bytes} → SuffixPrecedes s t → lt_suffix s t ≡ true
unfolding compare_suffix
suffix_complete tagged = refl
suffix_complete (ordered {a} {b} {s} {t} h) =
    ground (arith, eq_bytes_iff (a ∷ s) (b ∷ t), compare_refl (b ∷ t))

-- The order of precedence.
pub data Precedes (v w : Version) : Type 0 where
  by_major : lt_int v.major w.major ≡ true → Precedes v w
  by_minor : v.major ≡ w.major → lt_int v.minor w.minor ≡ true → Precedes v w
  by_patch : v.major ≡ w.major → v.minor ≡ w.minor → lt_int v.patch w.patch ≡ true → Precedes v w
  by_suffix :
      v.major ≡ w.major
      → v.minor ≡ w.minor
      → v.patch ≡ w.patch
      → SuffixPrecedes v.suffix w.suffix
      → Precedes v w

abbrev precedes : Version → Version → Bool
precedes v w =
    if eq_int v.major w.major
    then (if eq_int v.minor w.minor
        then (if eq_int v.patch w.patch
            then lt_suffix v.suffix w.suffix
            else lt_int v.patch w.patch)
        else lt_int v.minor w.minor)
    else lt_int v.major w.major

compare-precedes :
    (v w : Version) → IsNatural v → IsNatural w → lt_int (compare v w) (pos 0) ≡ precedes v w
unfolding compare
compare-precedes v w hv hw = ground (
  arith,
  lt-sub_int v.major w.major hv.major hw.major,
  lt-sub_int v.minor w.minor hv.minor hw.minor,
  lt-sub_int v.patch w.patch hv.patch hw.patch,
)

lt_int_irrefl : (a b : ℤ) → lt_int a b ≡ true → eq_int a b ≡ false
lt_int_irrefl a b h = ground arith

eq_int_complete : (a b : ℤ) → a ≡ b → eq_int a b ≡ true
eq_int_complete a b e = rw e (ground arith)

precedes_sound : (v w : Version) → precedes v w ≡ true → Precedes v w
precedes_sound v w h = elim (Bool-cases (eq_int v.major w.major)) [
  | inr other ↦ by_major (rw other at h)
  | inl major ↦ elim (Bool-cases (eq_int v.minor w.minor)) [
    | inr other ↦ by_minor (eq_int_sound _ _ major) (rw (major, other) at h)
    | inl minor ↦ elim (Bool-cases (eq_int v.patch w.patch)) [
      | inr other ↦
          by_patch (eq_int_sound _ _ major) (eq_int_sound _ _ minor) (rw (major, minor, other) at h)
      | inl patch ↦
          by_suffix (eq_int_sound _ _ major) (eq_int_sound _ _ minor) (eq_int_sound _ _ patch)
            (suffix_sound v.suffix w.suffix (rw (major, minor, patch) at h))
    ]
  ]
]

precedes_complete : (v w : Version) → Precedes v w → precedes v w ≡ true
precedes_complete v w (by_major h) = rw (lt_int_irrefl v.major w.major h) h
precedes_complete v w (by_minor e h) =
    rw (eq_int_complete v.major w.major e, lt_int_irrefl v.minor w.minor h) h
precedes_complete v w (by_patch e f h) =
    rw
      (
        eq_int_complete v.major w.major e,
        eq_int_complete v.minor w.minor f,
        lt_int_irrefl v.patch w.patch h,
      )
      h
precedes_complete v w (by_suffix e f g h) =
    rw
      (
        eq_int_complete v.major w.major e,
        eq_int_complete v.minor w.minor f,
        eq_int_complete v.patch w.patch g,
      )
      (suffix_complete h)

-- For versions with numbers that are not negative, as the parser yields them, `Compare` returns a
-- negative number exactly when the first version precedes the second: by the first of major, minor
-- and patch that differs, or by the suffix when all three agree, where a version with a suffix
-- precedes the one without and two suffixes stand in byte order.
pub compare-lt_iff :
    (v w : Version)
    → IsNatural v
    → IsNatural w
    → (lt_int (compare v w) (pos 0) ≡ true) ↔ Precedes v w
compare-lt_iff v w hv hw = (
  λ h. precedes_sound v w (rw (compare-precedes v w hv hw) at h),
  λ p. rw (compare-precedes v w hv hw) (precedes_complete v w p),
)

suffix_zero : (s t : Bytes) → compare_suffix s t ≡ pos 0 → s ≡ t
unfolding compare_suffix
suffix_zero [] [] h = refl
suffix_zero [] (b ∷ t) h = cc
suffix_zero (a ∷ s) [] h = cc
suffix_zero (a ∷ s) (b ∷ t) h =
    ground (arith, eq_bytes_iff (a ∷ s) (b ∷ t), compare_sound (a ∷ s) (b ∷ t))

same_version :
    (v w : Version)
    → v.major ≡ w.major
    → v.minor ≡ w.minor
    → v.patch ≡ w.patch
    → v.suffix ≡ w.suffix
    → v ≡ w
same_version v w a b c d = λ i. record { major = a i; minor = b i; patch = c i; suffix = d i }

compare-same :
    (v w : Version)
    → IsNatural v
    → IsNatural w
    → eq_int (compare v w) (pos 0) ≡ true
    → (eq_int v.major w.major ≡ true)
      × (eq_int v.minor w.minor ≡ true)
      × (eq_int v.patch w.patch ≡ true)
      × (compare v w ≡ compare_suffix v.suffix w.suffix)
unfolding compare
compare-same v w hv hw h = ground (
  arith,
  sub_int-ne-zero v.major w.major hv.major hw.major,
  sub_int-ne-zero v.minor w.minor hv.minor hw.minor,
  sub_int-ne-zero v.patch w.patch hv.patch hw.patch,
)

-- For versions with numbers that are not negative, `Compare` returns 0 for equal versions only.
pub compare-zero : (v w : Version) → IsNatural v → IsNatural w → compare v w ≡ pos 0 → v ≡ w
compare-zero v w hv hw h =
    let (a, b, c, e) = compare-same v w hv hw (rw h (ground arith)) in
    same_version v w (eq_int_sound _ _ a) (eq_int_sound _ _ b) (eq_int_sound _ _ c)
      (suffix_zero v.suffix w.suffix (rw e at h))

suffix_asym : (s t : Bytes) → lt_suffix s t ≡ true → lt_suffix t s ≡ false
unfolding compare_suffix
suffix_asym [] [] h = cc
suffix_asym [] (b ∷ t) h = cc
suffix_asym (a ∷ s) [] h = refl
suffix_asym (a ∷ s) (b ∷ t) h = ground (
  arith,
  compare-cases (a ∷ s) (b ∷ t),
  compare-Before (a ∷ s) (b ∷ t),
  eq_bytes_iff (a ∷ s) (b ∷ t),
  eq_bytes_iff (b ∷ t) (a ∷ s),
)

lt-suffix_cons :
    (a b : ℕ) (s t : Bytes)
    → lt_suffix (a ∷ s) (b ∷ t) ≡ lt_int (Strings.compare (a ∷ s) (b ∷ t)) (pos 0)
unfolding compare_suffix
lt-suffix_cons a b s t = ground (arith, eq_bytes_iff (a ∷ s) (b ∷ t), compare_refl (b ∷ t))

compare_unranked :
    (s t u : Bytes)
    → lt_int (Strings.compare s t) (pos 0) ≡ false
    → lt_int (Strings.compare t u) (pos 0) ≡ false
    → lt_int (Strings.compare s u) (pos 0) ≡ false
compare_unranked s t u h k = ground (
  arith,
  compare-cases s t,
  compare-cases t u,
  compare-cases s u,
  compare_sound s t,
  compare_sound t u,
  compare_after s t,
  compare_after t u,
  Before-trans t s u,
  Before-trans s u t,
)

suffix_unranked :
    (s t u : Bytes) → lt_suffix s t ≡ false → lt_suffix t u ≡ false → lt_suffix s u ≡ false
unfolding compare_suffix
suffix_unranked [] t [] h k = refl
suffix_unranked [] t (c ∷ u) h k = refl
suffix_unranked (a ∷ s) [] u h k = cc
suffix_unranked (a ∷ s) (b ∷ t) [] h k = cc
suffix_unranked (a ∷ s) (b ∷ t) (c ∷ u) h k = rw (lt-suffix_cons a c s u) (
    compare_unranked (a ∷ s) (b ∷ t) (c ∷ u) (rw (lt-suffix_cons a b s t) at h)
      (rw (lt-suffix_cons b c t u) at k))

abbrev lex : ℤ → ℤ → Bool → Bool
lex a b rest = if eq_int a b then rest else lt_int a b

lex_asym : (a b : ℤ) (x y : Bool) → (x ≡ true → y ≡ false) → lex a b x ≡ true → lex b a y ≡ false
lex_asym a b x y f h = ground arith

lex_unranked :
    (a b c : ℤ) (x y z : Bool)
    → (x ≡ false → y ≡ false → z ≡ false)
    → lex a b x ≡ false
    → lex b c y ≡ false
    → lex a c z ≡ false
lex_unranked a b c x y z f h k = ground arith

precedes_asym : (v w : Version) → precedes v w ≡ true → precedes w v ≡ false
precedes_asym v w =
    lex_asym v.major w.major _ _
      (lex_asym v.minor w.minor _ _ (lex_asym v.patch w.patch _ _ (suffix_asym v.suffix w.suffix)))

precedes_unranked :
    (u v w : Version) → precedes u v ≡ false → precedes v w ≡ false → precedes u w ≡ false
precedes_unranked u v w = lex_unranked u.major v.major w.major _ _ _ (
    lex_unranked u.minor v.minor w.minor _ _ _
      (lex_unranked u.patch v.patch w.patch _ _ _ (suffix_unranked u.suffix v.suffix w.suffix)))

-- `v2.Compare(v1)`, the comparison for newest first, is a strict weak order on the versions whose
-- numbers are not negative.
pub compare-IsStrictWeak : IsStrictWeak IsNatural (λ v w. compare w v)
compare-IsStrictWeak = record {
  asymmetric = λ v w hv hw h.
      rw (compare-precedes v w hv hw) (precedes_asym w v (rw (compare-precedes w v hw hv) at h));
  unranked = λ u v w hu hv hw h k. rw (compare-precedes w u hw hu) (
      precedes_unranked w v u (rw (compare-precedes w v hw hv) at k)
        (rw (compare-precedes v u hv hu) at h));
}
