-- ===== src/Tests/Bucket.antt =====
-- A bucket in memory: the newest entry of a key counts. One listing is one page.
use openspmregistry.Prelude.{
  ◌≡◌, ◌≢◌, refl, sym, Bool-cases, inl, inr, ap, arith, false, Option, none, some, List, [], ◌∷◌,
  Result, ok, err, is_ok, map, if◌then◌else◌,
}
use openspmregistry.Strings.{Bytes, codes, eq_bytes}
use openspmregistry.Strings.Equality.{eq_bytes_refl, eq_bytes_sound}
use openspmregistry.S3.Client.{Client, Head}
use openspmregistry.S3.Backend.{Formats}
use openspmregistry.S3.Backend.Storing.{ServiceLaws}
use openspmregistry.S3.Backend.Writing.{IsolationLaws}
use openspmregistry.Json.{end}

abbrev pub Object : Type 0
Object = Bytes × List (Bytes × Bytes)

abbrev pub Bucket : Type 0
Bucket = List (Bytes × Object)

unfoldable pub find : Bytes → Bucket → Option Object
find key [] = none
find key ((k, o) ∷ b) = let rest = find key b in if eq_bytes k key then some o else rest

unfoldable pub erase : Bytes → Bucket → Bucket
erase key [] = []
erase key ((k, o) ∷ b) = let rest = erase key b in if eq_bytes k key then rest else (k, o) ∷ rest

abbrev head_of : Option Object → Result Head
head_of none = err (codes "404")
head_of (some (_, metadata)) = ok (record { last_modified = none; metadata = metadata })

abbrev body_of : Option Object → Result (Result Bytes)
body_of none = err (codes "404")
body_of (some (body, _)) = ok (ok body)

abbrev pub bucket : Client Bucket
bucket = record {
  head_object = λ key b. head_of (find key b);
  get_object = λ key b. body_of (find key b);
  put_object = λ key body content_type metadata b. (ok tt, (key, (body, metadata)) ∷ b);
  delete_object = λ key b. (ok tt, erase key b);
  list_objects = λ prefix delimiter token b. ok (record {
    common_prefixes = map (λ e. some (e.0)) b;
    contents = map (λ e. some (e.0)) b;
    is_truncated = some false;
    next_continuation_token = none;
  });
}

find_new : (key : Bytes) (o : Object) (b : Bucket) → find key ((key, o) ∷ b) ≡ some o
unfolding find
find_new key o b = rw (eq_bytes_refl key) refl

find-erase : (key : Bytes) (b : Bucket) → find key (erase key b) ≡ none
unfolding find erase
find-erase key [] = refl
find-erase key ((k, o) ∷ b) = ground (arith, find-erase key b)

find-erase_other :
    (key other : Bytes) (b : Bucket)
    → is_ok (head_of (find other b)) ≡ false
    → is_ok (head_of (find other (erase key b))) ≡ false
unfolding find erase
find-erase_other key other [] h = refl
find-erase_other key other ((k, o) ∷ b) h = ground (arith, find-erase_other key other b)

pub bucket-ServiceLaws : ServiceLaws bucket
bucket-ServiceLaws = record {
  put_get = λ key body content_type metadata s s' e.
      rw (← newest key body metadata s s' e, find_new key (body, metadata) s) refl;
  put_head = λ key body content_type metadata s s' e. (
    record { last_modified = none; metadata = metadata },
    rw (← newest key body metadata s s' e, find_new key (body, metadata) s) refl,
    refl,
  );
  delete_self = λ key s deleted. rw (find-erase key s) refl;
  delete_other = λ key other s h. find-erase_other key other s h;
}
  where
    newest :
        (key body : Bytes) (metadata : List (Bytes × Bytes)) (s s' : Bucket)
        → ◌≡◌ {A = Result (Unit {0}) × Bucket} (ok tt, (key, (body, metadata)) ∷ s) (ok tt, s')
        → (key, (body, metadata)) ∷ s ≡ s'
    newest key body metadata s s' e = ap (λ r. r.1) e

find-other :
    (key other : Bytes) (o : Object) (b : Bucket)
    → other ≢ key
    → find other ((key, o) ∷ b) ≡ find other b
unfolding find
find-other key other o b differ = elim (Bool-cases (eq_bytes key other)) [
  | inl same ↦ absurd (differ (sym (eq_bytes_sound key other same)))
  | inr apart ↦ rw apart refl
]

pub bucket-IsolationLaws : IsolationLaws bucket
bucket-IsolationLaws = record {
  put_head_other = λ key other body content_type metadata s differ.
      rw (find-other key other (body, metadata) s differ) refl;
  put_get_other = λ key other body content_type metadata s differ.
      rw (find-other key other (body, metadata) s differ) refl;
}

-- a digest of 64 digits
abbrev pub formats : Formats
formats = record {
  open_zip = λ content. err [];
  unmarshal = λ content. ok end;
  decode = λ content. ok end;
  base64 = λ content. content;
  digest = λ content. codes "e3b0c44298fc1c149afbf4c8996fb92427ae41e4649b934ca495991b7852b855";
}
