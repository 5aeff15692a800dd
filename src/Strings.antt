-- ===== src/Strings.antt =====
-- Go's strings as lists of bytes, with the functions of the packages strings and strconv that the
-- program calls. Letter case and white space are those of ASCII.
pub mod Equality
pub mod Cutting
pub mod Numbers
pub mod Order
pub mod Paths
use Prim.Native.Char.{code}
use openspmregistry.Prelude.{
  ℕ, zero, suc, ◌+◌, ◌-◌, String, Bool, true, false, not, ◌&&◌, ◌||◌, Option, none, some, List, [],
  ◌∷◌, ◌++◌, map, ltb, leb, ◌==◌, if◌then◌else◌, length, take, drop, any,
}
use openspmregistry.Int.{ℤ, pos, negsuc}

abbrev pub Bytes : Type 0
Bytes = List ℕ

-- The bytes of an ASCII literal.
abbrev pub codes : String → Bytes
codes String.[] = []
codes (String.◌∷◌ c s) = code c ∷ codes s

-- s == t
unfoldable pub eq_bytes : Bytes → Bytes → Bool
eq_bytes [] [] = true
eq_bytes [] (_ ∷ _) = false
eq_bytes (_ ∷ _) [] = false
eq_bytes (a ∷ s) (b ∷ t) = a == b && eq_bytes s t

-- s == ""
abbrev pub is_empty : Bytes → Bool
is_empty [] = true
is_empty (_ ∷ _) = false

-- strings.Compare
unfoldable pub compare : Bytes → Bytes → ℤ
compare [] [] = pos 0
compare [] (_ ∷ _) = negsuc 0
compare (_ ∷ _) [] = pos 1
compare (a ∷ s) (b ∷ t) = if ltb a b then negsuc 0 else if ltb b a then pos 1 else compare s t

-- strings.HasPrefix(s, prefix)
unfoldable pub has_prefix : Bytes → Bytes → Bool
has_prefix s [] = true
has_prefix [] (_ ∷ _) = false
has_prefix (a ∷ s) (b ∷ prefix) = a == b && has_prefix s prefix

-- strings.HasSuffix(s, suffix)
unfoldable pub has_suffix : Bytes → Bytes → Bool
unfolding eq_bytes
has_suffix s suffix =
    leb (length suffix) (length s) && eq_bytes (drop (length s - length suffix) s) suffix

-- strings.TrimPrefix(s, prefix)
unfoldable pub trim_prefix : Bytes → Bytes → Bytes
unfolding has_prefix
trim_prefix s prefix = if has_prefix s prefix then drop (length prefix) s else s

-- strings.TrimSuffix(s, suffix)
unfoldable pub trim_suffix : Bytes → Bytes → Bytes
unfolding has_suffix
trim_suffix s suffix = if has_suffix s suffix then take (length s - length suffix) s else s

-- strings.Contains(s, string(sep))
unfoldable pub contains_byte : ℕ → Bytes → Bool
contains_byte sep s = any (λ c. c == sep) s

abbrev pub prepend : ℕ → List Bytes → List Bytes
prepend c [] = (c ∷ []) ∷ []
prepend c (part ∷ parts) = (c ∷ part) ∷ parts

-- strings.Split(s, string(sep))
unfoldable pub split : Bytes → ℕ → List Bytes
split [] sep = [] ∷ []
split (c ∷ s) sep = let parts = split s sep in if c == sep then [] ∷ parts else prepend c parts

-- strings.Join(elems, sep)
unfoldable pub join : List Bytes → Bytes → Bytes
join [] sep = []
join (e ∷ []) sep = e
join (e ∷ f ∷ elems) sep = e ++ (sep ++ join (f ∷ elems) sep)

-- strings.ReplaceAll(s, string(old), string(new))
unfoldable pub replace_all : Bytes → ℕ → ℕ → Bytes
replace_all s old new = map (λ c. if c == old then new else c) s

-- strings.ToLower
unfoldable pub to_lower : Bytes → Bytes
to_lower = map (λ c. if leb b'A' c && leb c b'Z' then c + 32 else c)

abbrev pub is_space : ℕ → Bool
is_space c = c == 32 || (leb 9 c && leb c 13)

abbrev trim_left : Bytes → Bytes
trim_left [] = []
trim_left (c ∷ s) = if is_space c then trim_left s else c ∷ s

-- a trailing white space is dropped when nothing else follows
abbrev trim_right : Bytes → Bytes
trim_right [] = []
trim_right (c ∷ s) = let rest = trim_right s in if is_space c && is_empty rest then [] else c ∷ rest

-- strings.TrimSpace
unfoldable pub trim_space : Bytes → Bytes
trim_space s = trim_right (trim_left s)

-- slices.Contains(list, s)
unfoldable pub contains : List Bytes → Bytes → Bool
unfolding eq_bytes
contains xs s = any (λ x. eq_bytes s x) xs

-- strings.Index, none for -1
unfoldable pub index : Bytes → Bytes → Option ℕ
index [] part = if is_empty part then some 0 else none
index (c ∷ s) part =
    let rest = index s part in
    if has_prefix (c ∷ s) part then some 0 else elim rest [ none ↦ none | some n ↦ some (suc n) ]
