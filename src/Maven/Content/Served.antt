-- ===== src/Maven/Content/Served.antt =====
-- What is read of an element that the server has, by a range reader or from a buffer.
use openspmregistry.Prelude.{
  ℕ, zero, suc, ◌<◌, ◌≡◌, ◌≢◌, refl, sym, ap, ◌∙◌, Bool, true, false, Option, none, some,
  Bool-cases, inl, inr, ◌⊎◌, [], ◌∷◌, ◌++◌, append-nil, arith, Result, ok, err, Result-cases,
  length, length-append,
}
use openspmregistry.Int.{pos, negsuc, lt_int}
use openspmregistry.Strings.{Bytes, codes}
use openspmregistry.Config.{MavenConfig}
use openspmregistry.Models.Element.{Platform, UploadElement}
use openspmregistry.Repo.{Context}
use openspmregistry.Maven.Coordinates.{build_maven_path_for_element}
use openspmregistry.Maven.Client.{HttpClient, Response, Formats, fetched, get, head}
use openspmregistry.Maven.Reader.{
  RangeReader, ReadError, no_error, end_of_file, other_error, fetch_range,
}
use openspmregistry.Maven.Reader.Served.{Serves, Placed, Stands, Ends, read-ReadsOn, asked}
use openspmregistry.Maven.Access.{check_range_support}
use openspmregistry.Maven.Content.{
  Bodies, ContentReader, buffered, range_server, new_range_reader, new_buffered_reader, opened,
  ranged_or, all_of, get_reader, read_all, content,
}

not_negative : (n : ℕ) → lt_int (pos n) (pos 0) ≡ false
not_negative n = ground arith

shorter :
    {after : Bytes} (x left : Bytes) (more : ℕ)
    → after ≡ x ++ left
    → x ≢ []
    → length after < suc more
    → length left < more
shorter [] left more e some_x h = absurd (some_x refl)
shorter (c ∷ x) left more e some_x h = omega (arith, ap (length {0}) e, length-append {0} x left)

module _ {S B : Type 0} (http : HttpClient S) (bodies : Bodies S B) (p : Platform)
    (cfg : MavenConfig) (formats : Formats) (ctx : Context) (fuel : ℕ) (path : Bytes) (s : S)
    (text : Bytes) (unread : B → Bytes) where
  -- The server has the text at the path: it answers a GET with it, and a HEAD with its length or
  -- none. io.ReadAll always has room.
  pub record Holds : Type 0 where
    pub some_text : text ≢ []
    pub answer : Response
    pub answered : get http p cfg formats ctx path s ≡ fetched answer
    pub body_is : answer.body ≡ ok text
    pub lengths :
        (response : Response)
        → head http p cfg formats ctx path s ≡ ok response
        → (bodies.content_length response ≡ pos (length text))
          ⊎ (lt_int (bodies.content_length response) (pos 0) ≡ true)
    pub roomy : (n : ℕ) → 0 < bodies.room n

  -- The server answers each range of the text with its bytes and status 206.
  abbrev pub ServesRanges : Type 0
  ServesRanges = Serves (range_server http bodies p cfg formats ctx fuel path s) text unread

  abbrev all_read : ℕ → Bytes → RangeReader B → Result Bytes
  all_read more got r = read_all http bodies p cfg formats ctx fuel more path s got r

  -- behind one read
  goes_on :
      (e : ReadError) (got left : Bytes) (rest : Result Bytes)
      → Ends (range_server http bodies p cfg formats ctx fuel path s) text unread e got left
      → (got ≢ [] → rest ≡ ok text)
      → (before : Bytes) → text ≡ (before ++ got) ++ left
      → (elim e [ no_error ↦ rest | end_of_file ↦ ok (before ++ got) | other_error m ↦ err m ])
        ≡ ok text
  goes_on no_error got left rest ends next before whole = next ends
  goes_on end_of_file got left rest ends next before whole =
      ap ok
        (sym (append-nil (before ++ got)) ∙ (ap (λ t. (before ++ got) ++ t) (sym ends) ∙ sym whole))
  goes_on (other_error m) got left rest ends next before whole = absurd ends

  module _ (holds : Holds) where
    read_all-Served :
        (serves : ServesRanges) (more : ℕ) (got after : Bytes) (r : RangeReader B)
        → length after < more
        → Stands (range_server http bodies p cfg formats ctx fuel path s) text unread got after r
        → all_read more got r ≡ ok text
    unfolding read_all
    read_all-Served serves zero got after r enough stands = absurd (omega arith)
    read_all-Served serves (suc more) got after r enough stands =
        let (left, split, there, ends) =
          read-ReadsOn (range_server http bodies p cfg formats ctx fuel path s) text unread serves
            (bodies.room (length got)) got after r (holds.roomy (length got)) stands in
        goes_on _ _ left _ ends
          (λ some_got.
            read_all-Served serves more _ left _ (shorter _ left more split some_got enough) there)
          got ((there.3).parts)

    -- a reader that buffers
    buffered-Served :
        new_buffered_reader http bodies p cfg formats ctx fuel path s ≡ ok (buffered text)
    unfolding new_buffered_reader
    buffered-Served = rw (holds.answered, holds.body_is) refl

    abbrev reader_of : Result (RangeReader B) → Result (ContentReader B)
    reader_of made =
        ranged_or http bodies p cfg formats ctx fuel made
          (new_buffered_reader http bodies p cfg formats ctx fuel path s)

    abbrev read_of : Result (RangeReader B) → Result Bytes
    read_of made = all_of http bodies p cfg formats ctx fuel path s (reader_of made)

    fallback : (e : Bytes) → read_of (err e) ≡ ok text
    fallback e = rw buffered-Served refl

    -- the reader before its first request
    abbrev new_reader : RangeReader B
    new_reader = record { position = pos 0; size = pos (length text); body = none; closed = false }

    first_request :
        ServesRanges
        → length text < fuel
        → read_of (
            opened http bodies p cfg formats ctx fuel (
              fetch_range
                (range_server http bodies p cfg formats ctx fuel path s)
                (pos 0)
                (negsuc 0)
                new_reader))
          ≡ ok text
    first_request serves enough =
        let placed : Placed (range_server http bodies p cfg formats ctx fuel path s) text unread []
            text new_reader =
          record { parts = refl; position_is = refl; size_is = refl; open_still = refl } in
        let (b, response, there, lasts) =
          asked (range_server http bodies p cfg formats ctx fuel path s) text unread serves [] text
            new_reader placed (holds.some_text) in
        rw response (
          read_all-Served serves fuel [] text (record new_reader { body = some b }) enough
            (
              b,
              refl,
              there,
              record { parts = refl; position_is = refl; size_is = refl; open_still = refl },
            ))

    ranged-Served :
        ServesRanges
        → length text < fuel
        → read_of (new_range_reader http bodies p cfg formats ctx fuel path s) ≡ ok text
    unfolding new_range_reader
    ranged-Served serves enough = elim (Result-cases (head http p cfg formats ctx path s)) [
      | inl (e, failed) ↦ rw failed (fallback e)
      | inr (response, answered) ↦ elim (holds.lengths response answered) [
        | inr negative ↦ rw (answered, negative) (fallback (codes "Content-Length not available"))
        | inl exact ↦ rw (answered, exact, not_negative (length text)) (first_request serves enough)
      ]
    ]

module _ {S B : Type 0} (http : HttpClient S) (bodies : Bodies S B) (p : Platform)
    (cfg : MavenConfig) (formats : Formats) (ctx : Context) (fuel : ℕ) where
  -- The content that is read of an element is the text that the server has at its path, whatever was
  -- known of ranges: a repository that is taken to support them answers each with status 206 and its
  -- bytes, and of another nothing is assumed on ranges. The text is not empty, and its length is below
  -- the bound on the reads. A response to a range may end early, when some bytes have been read of it;
  -- the reader then asks for the others.
  pub content-Held :
      (known : Option Bool) (e : UploadElement) (s : S) (text : Bytes) (unread : B → Bytes)
      → Holds http bodies p cfg formats ctx fuel
          (build_maven_path_for_element p e cfg)
          s
          text
          unread
      → ((check_range_support http p cfg formats ctx known
              (build_maven_path_for_element p e cfg)
              s).0
            ≡ true
          → ServesRanges http bodies p cfg formats ctx fuel
              (build_maven_path_for_element p e cfg)
              s
              text
              unread)
      → length text < fuel
      → content http bodies p cfg formats ctx fuel known e s ≡ ok text
  unfolding content get_reader
  content-Held known e s text unread holds ranges enough =
      let path = build_maven_path_for_element p e cfg in
      elim (Bool-cases ((check_range_support http p cfg formats ctx known path s).0)) [
        | inl supported ↦ rw supported (
            ranged-Served http bodies p cfg formats ctx fuel path s text unread holds
              (ranges supported) enough)
        | inr unsupported ↦
            rw unsupported (
              rw (buffered-Served http bodies p cfg formats ctx fuel path s text unread holds) refl)
      ]
