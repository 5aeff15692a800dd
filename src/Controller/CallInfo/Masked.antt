-- ===== src/Controller/CallInfo/Masked.antt =====
-- Which credentials the log does not show.
use openspmregistry.Prelude.{
  ℕ, ◌+◌, ◌≡◌, refl, false, none, some, [], ◌∷◌, ◌++◌, arith, append_assoc, length, take, drop,
  drop-append, length-append, append-nil,
}
use openspmregistry.Strings.{Bytes, codes, has_prefix, index}
use openspmregistry.Strings.Equality.{has_prefix-append, take-append}
use openspmregistry.Strings.Cutting.{Lacks}
use openspmregistry.Controller.CallInfo.{log_uri}

-- No occurrence of the part begins in the text, whatever follows it.
abbrev pub BeginsNot : Bytes → Bytes → Bytes → Type 0
BeginsNot part [] rest = Unit {0}
BeginsNot part (c ∷ s) rest = (has_prefix (c ∷ (s ++ rest)) part ≡ false) × BeginsNot part s rest

-- the first occurrence of a part that is not empty
index-append :
    (s : Bytes) (c : ℕ) (part rest : Bytes)
    → BeginsNot (c ∷ part) s ((c ∷ part) ++ rest)
    → index (s ++ ((c ∷ part) ++ rest)) (c ∷ part) ≡ some (length s)
unfolding index
index-append [] c part rest h = rw (has_prefix-append (c ∷ part) rest) refl
index-append (d ∷ s) c part rest (h, hs) = rw (h, index-append s c part rest hs) refl

index-Lacks : (s : Bytes) (c : ℕ) → Lacks c s → index s (c ∷ []) ≡ none
unfolding index has_prefix
index-Lacks [] c h = refl
index-Lacks (d ∷ s) c (h, hs) = ground (arith, index-Lacks s c hs)

index-first :
    (s rest : Bytes) (c : ℕ) → Lacks c s → index (s ++ (c ∷ rest)) (c ∷ []) ≡ some (length s)
unfolding index has_prefix
index-first [] rest c h = ground arith
index-first (d ∷ s) rest c (h, hs) = ground (arith, index-first s rest c hs)

-- the URI up to the value, and behind it
take_name :
    (before value : Bytes)
    → take (length before + 5) (before ++ (codes "auth=" ++ value)) ≡ before ++ codes "auth="
take_name before value =
    rw (← length-append before (codes "auth="), ← append_assoc before (codes "auth=") value)
      (take-append (before ++ codes "auth=") value)

drop_value :
    (before value tail : Bytes)
    → drop
        (length before + length (codes "auth=" ++ value))
        (before ++ (codes "auth=" ++ (value ++ tail)))
      ≡ tail
drop_value before value tail =
    rw
      (
        ← length-append before (codes "auth=" ++ value),
        ← append_assoc before (codes "auth=" ++ value) tail,
      )
      (drop-append (before ++ (codes "auth=" ++ value)) tail)

named-Lacks : (secret : Bytes) → Lacks b'&' secret → Lacks b'&' (codes "auth=" ++ secret)
named-Lacks secret plain =
    (omega arith, (omega arith, (omega arith, (omega arith, (omega arith, plain)))))

-- What ends a parameter: nothing, or the next one.
pub data Tail : Bytes → Type 0 where
  last : Tail []
  next : (rest : Bytes) → Tail (b'&' ∷ rest)

-- In the URI that is logged, three asterisks stand for the value behind the first "auth=", up to the
-- next "&" or the end, and all else is as in the URI, also a further "auth=" with its value.
pub log_uri-masks :
    (before secret : Bytes) {tail : Bytes}
    → Tail tail
    → BeginsNot (codes "auth=") before (codes "auth=" ++ (secret ++ tail))
    → Lacks b'&' secret
    → log_uri (before ++ (codes "auth=" ++ (secret ++ tail))) ≡ before ++ (codes "auth=***" ++ tail)
unfolding log_uri
log_uri-masks before secret last first plain =
    rw
      (
        log_uri,
        index-append before b'a' (codes "uth=") (secret ++ []) first,
        drop-append before (codes "auth=" ++ (secret ++ [])),
        append-nil secret,
        index-Lacks (codes "auth=" ++ secret) b'&' (named-Lacks secret plain),
        take_name before secret,
      )
      (append_assoc before (codes "auth=") (codes "***"))
log_uri-masks before secret (next rest) first plain =
    rw
      (
        log_uri,
        index-append before b'a' (codes "uth=") (secret ++ (b'&' ∷ rest)) first,
        drop-append before (codes "auth=" ++ (secret ++ (b'&' ∷ rest))),
        index-first (codes "auth=" ++ secret) rest b'&' (named-Lacks secret plain),
        take_name before (secret ++ (b'&' ∷ rest)),
        drop_value before secret (b'&' ∷ rest),
      )
      (append_assoc before (codes "auth=") (codes "***" ++ (b'&' ∷ rest)))
