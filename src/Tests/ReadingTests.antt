-- ===== src/Tests/ReadingTests.antt =====
-- Reading a file of a Maven repository by ranges: the theorems at concrete inputs.
use openspmregistry.Prelude.{
  ℕ, zero, suc, ◌<◌, ◌≡◌, ◌≢◌, refl, sym, arith, Bool-cases, true, false, inl, inr, none, some, [],
  ◌∷◌, ◌++◌, ok, err, leb, if◌then◌else◌, length, take, drop, take-append-drop,
}
use openspmregistry.Int.{pos, negsuc, add_int}
use openspmregistry.Strings.{Bytes, codes, eq_bytes, join, replace_all}
use openspmregistry.Strings.Numbers.{itoa}
use openspmregistry.Maven.Client.{HttpClient}
use openspmregistry.Maven.Client
use openspmregistry.Maven.Reader.{
  no_error, end_of_file, range_header, RangeServer, RangeReader, seek_start, seek, read,
}
use openspmregistry.Maven.Reader.Faults.{seek-ignored}
use openspmregistry.Maven.Content.Faults.{read_all-cut}
use openspmregistry.Maven.Reader.Served.{Serves, Goes}
use openspmregistry.Maven.Content.{Bodies, range_server, content, read_all}
use openspmregistry.Maven.Content.Served.{Holds, content-Held}
use openspmregistry.Maven.Coordinates.{
  build_maven_path_for_element, build_maven_path, build_group_id,
}
use openspmregistry.Tests.Memory.{platform}
use openspmregistry.Tests.ServerTests.{maven}
use openspmregistry.Tests.BackendTests.{answering, formats, server}
use openspmregistry.Tests.S3Tests.{archive}

-- bodies that are their bytes, and a server of the text "ab" that answers ranges
abbrev bodies : Bodies Bytes Bytes
bodies = record {
  content_length = λ response. pos 2;
  get_range =
      λ call range s. ok (206, if eq_bytes range (codes "bytes=0-") then codes "ab" else codes "b");
  read_body = λ b n. (take n b, (if leb (length b) n then end_of_file else no_error, drop n b));
  close_body = λ b. ok tt;
  room = λ n. 1;
}

abbrev pub unread : Bytes → Bytes
unread b = b

abbrev path : Bytes
path = build_maven_path_for_element platform archive maven

pub drop_all :
    (n : ℕ) (b : Bytes)
    → (if leb (length b) n then end_of_file else no_error) ≡ end_of_file
    → drop n b ≡ []
drop_all zero [] h = refl
drop_all (suc n) [] h = refl
drop_all zero (c ∷ b) h = ground arith
drop_all (suc n) (c ∷ b) h = drop_all n b (ground arith)

pub take-ne-nil : (b : Bytes) (n : ℕ) → 0 < n → leb (length b) n ≡ false → take n b ≢ []
take-ne-nil [] n room h = ground arith
take-ne-nil (c ∷ b) zero room h = absurd (omega arith)
take-ne-nil (c ∷ b) (suc n) room h = λ e. cc

takes_some :
    (b : Bytes) (n : ℕ)
    → Goes
        (range_server server bodies platform maven formats none 9 path (codes "ab"))
        (codes "ab")
        unread
        n
        (if leb (length b) n then end_of_file else no_error)
        (take n b)
takes_some b n = elim (Bool-cases (leb (length b) n)) [
  | inl all ↦ rw all tt
  | inr some_left ↦ rw some_left (λ room. take-ne-nil b n room some_left)
]

nothing_left : (before after : Bytes) → [] ≡ before ++ after → after ≢ [] → ⊥
nothing_left [] after e some_left = some_left (sym e)
nothing_left (c ∷ before) after e some_left = cc

serves :
    Serves
      (range_server server bodies platform maven formats none 9 path (codes "ab"))
      (codes "ab")
      unread
unfolding Client.make_request build_maven_path_for_element build_maven_path join replace_all
    build_group_id itoa
serves = record {
  fits = omega arith;
  made = refl;
  ranged = ranges;
  bytes = λ b n. take-append-drop n b;
  goes = takes_some;
}
  where
    ranges :
        (before after : Bytes)
        → codes "ab" ≡ before ++ after
        → after ≢ []
        → (b : Bytes) × (unread b ≡ after)
          × ((range_server server bodies platform maven formats none 9 path (codes "ab")).request
                (range_header (pos (length before)) (negsuc 0))
              ≡ ok (206, b))
          × ((n : ℕ)
              → (if leb (length b) n then end_of_file else no_error) ≡ end_of_file
              → drop n b ≡ [])
    ranges [] after whole some_left = (after, refl, rw (← whole) refl, λ n. drop_all n after)
    ranges (c ∷ []) after whole some_left = (
      after,
      refl,
      (let rest : codes "b" ≡ after = cc in rw (← rest) refl),
      λ n. drop_all n after,
    )
    ranges (c ∷ d ∷ before) after whole some_left =
        absurd (nothing_left before after (cc) some_left)

holds : Holds server bodies platform maven formats none 9 path (codes "ab") (codes "ab") unread
unfolding Client.get Client.head build_maven_path_for_element build_maven_path join replace_all
    build_group_id
holds = record {
  some_text = λ e. cc;
  answer = answering (codes "ab");
  answered = refl;
  body_is = refl;
  lengths = λ response e. inl refl;
  roomy = λ n. omega arith;
}

content-Held_example :
    content server bodies platform maven formats none 9 (some true) archive (codes "ab")
    ≡ ok (codes "ab")
content-Held_example =
    content-Held server bodies platform maven formats none 9 (some true) archive (codes "ab")
      (codes "ab") unread holds (λ supported. serves) (omega arith)

-- the same server, which is lost behind the first byte
abbrev lost : Bodies Bytes Bytes
lost = record bodies {
  get_range = λ call range s. err (codes "connection refused");
  read_body = λ b n. (codes "a", (end_of_file, []));
}

abbrev begun : RangeReader Bytes
begun = record { position = pos 0; size = pos 2; body = some (codes "ab"); closed = false }

read_all-cut_example :
    read_all server lost platform maven formats none 9 3 path (codes "ab") [] begun ≡ ok (codes "a")
unfolding Client.make_request build_maven_path_for_element build_maven_path join replace_all
    build_group_id add_int
read_all-cut_example =
    read_all-cut server lost platform maven formats none 9 path (codes "ab") 2 [] (codes "a")
      (codes "connection refused") begun (codes "ab") [] refl refl refl refl refl refl

-- a server that ignores the range
abbrev ignoring : RangeServer Bytes
ignoring = record {
  make_request = ok tt;
  request = λ range. ok (200, codes "ab");
  read_body = λ b n. (take n b, (no_error, drop n b));
  close_body = λ b. ok tt;
}

seek-ignored_example :
    ((seek ignoring (pos 1) seek_start begun).0 ≡ ok (pos 1))
    × ((read ignoring 1 ((seek ignoring (pos 1) seek_start begun).1)).0 ≡ codes "a")
seek-ignored_example =
    seek-ignored ignoring 1 1 2 begun (codes "ab") (codes "b") (codes "a") refl refl (omega arith)
      refl refl refl
