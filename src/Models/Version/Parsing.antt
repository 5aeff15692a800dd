-- ===== src/Models/Version/Parsing.antt =====
-- What `ParseVersion` accepts.
use openspmregistry.Prelude.{
  ok, >>=-eq-ok, ◌≡◌, ◌∙◌, List, [], ◌∷◌, arith, All, Bool-cases, inl, inr,
}
use openspmregistry.Int.{ℤ}
use openspmregistry.Strings.{Bytes, is_empty, contains_byte, split}
use openspmregistry.Strings.Numbers.{atoi, atoi-pos}
use openspmregistry.Strings.Cutting.{Lacks, contains_byte-Lacks, split-All, split-Lacks-All}
use openspmregistry.Models.Version.{
  Version, number, pad, numbers, parse_core, parse_suffixed, parse_version,
}
use openspmregistry.Models.Version.Order.{InRange, IsNatural}

number-InRange : (s : Bytes) (n : ℤ) → Lacks b'-' s → number s ≡ ok n → InRange n
unfolding number
number-InRange [] n lacks h = unfold atoi in cc
number-InRange (c ∷ s) n (first, _) h =
    let (m, is_m, fits) = atoi-pos c s (ground arith) in rw (of_ok h ∙ is_m) fits
  where
    of_ok : number (c ∷ s) ≡ ok n → n ≡ (atoi (c ∷ s)).0
    of_ok h = ground arith

pad-All :
    (P : Bytes → Type 0) (parts : List Bytes) → P (b'0' ∷ []) → All P parts → All P (pad parts)
unfolding pad
pad-All P [] p h = (p, (p, tt))
pad-All P (a ∷ []) p h = (h.0, (p, (p, tt)))
pad-All P (a ∷ b ∷ []) p h = (h.0, (h.1.0, (p, tt)))
pad-All P (a ∷ b ∷ c ∷ rest) p h = h

numbers-IsNatural :
    (parts : List Bytes) (suffix : Bytes) (v : Version)
    → All (Lacks b'-') parts
    → numbers parts suffix ≡ ok v
    → IsNatural v
unfolding numbers
numbers-IsNatural [] suffix v _ h = cc
numbers-IsNatural (a ∷ []) suffix v _ h = cc
numbers-IsNatural (a ∷ b ∷ []) suffix v _ h = cc
numbers-IsNatural (a ∷ b ∷ c ∷ _) suffix v (la, (lb, (lc, _))) h =
    let (x, hx, h1) = >>=-eq-ok (number a) _ h in
    let (y, hy, h2) = >>=-eq-ok (number b) _ h1 in
    let (z, hz, h3) = >>=-eq-ok (number c) _ h2 in
    rw (← of_ok h3) (record {
      major = number-InRange a x la hx;
      minor = number-InRange b y lb hy;
      patch = number-InRange c z lc hz;
    })
  where
    of_ok : {u w : Version} → ok u ≡ ok w → u ≡ w
    of_ok e = cc

parse_core-IsNatural :
    (core suffix : Bytes) (v : Version)
    → Lacks b'-' core
    → parse_core core suffix ≡ ok v
    → IsNatural v
unfolding parse_core
parse_core-IsNatural core suffix v lacks h =
    numbers-IsNatural _ suffix v (pad-All _ _ (ground arith, tt) (split-All _ core b'.' lacks)) h

-- A version that parses has numbers from 0 to the largest int, since a minus sign would start a
-- suffix.
pub parse_version-IsNatural : (s : Bytes) (v : Version) → parse_version s ≡ ok v → IsNatural v
unfolding parse_version
parse_version-IsNatural s v h = elim (Bool-cases (contains_byte b'-' s)) [
  | inl dash ↦ suffixed (split s b'-') (split-Lacks-All s b'-') (rw (dash, parse_version) at h)
  | inr plain ↦ parse_core-IsNatural s [] v (contains_byte-Lacks b'-' s plain) (rw plain at h)
]
  where
    suffixed :
        (parts : List Bytes) → All (Lacks b'-') parts → parse_suffixed parts ≡ ok v → IsNatural v
    suffixed (core ∷ suffix ∷ []) (lacks, _) e = elim (Bool-cases (is_empty suffix)) [
      | inl empty ↦ cc (rw empty at e)
      | inr full ↦ parse_core-IsNatural core suffix v lacks (rw full at e)
    ]
    suffixed [] _ e = cc
    suffixed (a ∷ []) _ e = cc
    suffixed (a ∷ b ∷ c ∷ r) _ e = cc
