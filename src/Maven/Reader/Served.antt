-- ===== src/Maven/Reader/Served.antt =====
-- Reading a file from a server that serves ranges of it.
use openspmregistry.Prelude.{
  ℕ, ◌-◌, ◌<◌, ◌≤◌, ◌≡◌, ◌≢◌, refl, sym, ap, ◌∙◌, true, false, some, [], ◌∷◌, ◌++◌, append_assoc,
  arith, ok, length, length-append,
}
use openspmregistry.Int.{pos, negsuc, lt_int, int_max, add_int-pos}
use openspmregistry.Strings.{Bytes}
use openspmregistry.Maven.Reader.{
  RangeServer, RangeReader, ReadError, no_error, end_of_file, other_error, range_header,
  fetch_range, read_more, read_on, read_open, read, advanced,
}

module _ {B : Type 0} (server : RangeServer B) (content : Bytes) (unread : B → Bytes) where
  -- what a read of a body may answer: bytes, or the end
  abbrev pub Goes : ℕ → ReadError → Bytes → Type 0
  Goes n no_error got = 0 < n → got ≢ []
  Goes n end_of_file got = Unit {0}
  Goes n (other_error e) got = ⊥

  -- The server has the content and answers a range with the bytes from its start on. A body may end
  -- early, but not in its first read. `unread` is what a body still holds.
  pub record Serves : Type 0 where
    pub fits : length content ≤ int_max
    pub made : server.make_request ≡ ok tt
    pub ranged :
        (before after : Bytes)
        → content ≡ before ++ after
        → after ≢ []
        → (b : B) × (unread b ≡ after)
          × (server.request (range_header (pos (length before)) (negsuc 0)) ≡ ok (206, b))
          × ((n : ℕ)
              → ((server.read_body b n).1).0 ≡ end_of_file
              → unread (((server.read_body b n).1).1) ≡ [])
    pub bytes :
        (b : B) (n : ℕ)
        → (server.read_body b n).0 ++ unread (((server.read_body b n).1).1) ≡ unread b
    pub goes : (b : B) (n : ℕ) → Goes n (((server.read_body b n).1).0) ((server.read_body b n).0)

  -- An open reader at a place of the content.
  pub record Placed (before after : Bytes) (r : RangeReader B) : Type 0 where
    pub parts : content ≡ before ++ after
    pub position_is : r.position ≡ pos (length before)
    pub size_is : r.size ≡ pos (length content)
    pub open_still : r.closed ≡ false

  -- one with a body that holds the bytes from there on
  abbrev pub Stands : Bytes → Bytes → RangeReader B → Type 0
  Stands before after r = (b : B) × (r.body ≡ some b) × (unread b ≡ after) × Placed before after r

  -- what an error says of the bytes that are left
  abbrev pub Ends : ReadError → Bytes → Bytes → Type 0
  Ends no_error got left = got ≢ []
  Ends end_of_file got left = left ≡ []
  Ends (other_error e) got left = ⊥

  -- A read yields the next bytes, and the end only where none are left.
  abbrev pub ReadsOn : Bytes → Bytes → Bytes × (ReadError × RangeReader B) → Type 0
  ReadsOn before after (got, (e, r)) =
      (left : Bytes) × (after ≡ got ++ left) × Stands (before ++ got) left r × Ends e got left

  module _ (serves : Serves) where
    advanced-Placed :
        (before after got left : Bytes) (b : B) (r : RangeReader B)
        → Placed before after r
        → after ≡ got ++ left
        → Placed (before ++ got) left (advanced server (length got) b r)
    advanced-Placed before after got left b r at more =
        let whole : content ≡ (before ++ got) ++ left =
          at.parts ∙ (ap (λ t. before ++ t) more ∙ sym (append_assoc before got left)) in
        record {
          parts = whole;
          position_is =
              rw (at.position_is, length-append {0} before got)
                (add_int-pos (length before) (length got) (
                  omega (
                    arith,
                    serves.fits,
                    ap (length {0}) whole,
                    length-append {0} (before ++ got) left,
                    length-append {0} before got,
                  )));
          size_is = at.size_is;
          open_still = at.open_still;
        }

    -- The position is before the size while bytes are left.
    behind_all :
        (before : Bytes) (r : RangeReader B) → Placed before [] r → lt_int r.position r.size ≡ false
    behind_all before r at =
        ground
          (arith, at.position_is, at.size_is, ap (length {0}) at.parts, length-append {0} before [])

    more_left :
        (before after : Bytes) (c : ℕ) (r : RangeReader B)
        → Placed before (c ∷ after) r
        → lt_int r.position r.size ≡ true
    more_left before after c r at = ground (
      arith,
      at.position_is,
      at.size_is,
      ap (length {0}) at.parts,
      length-append {0} before (c ∷ after),
    )

    -- a request for the bytes that are left
    pub asked :
        (before after : Bytes) (r : RangeReader B)
        → Placed before after r
        → after ≢ []
        → (b : B) × (fetch_range server r.position (negsuc 0) r
            ≡ (ok tt, record r { body = some b }))
          × (unread b ≡ after)
          × ((n : ℕ)
              → ((server.read_body b n).1).0 ≡ end_of_file
              → unread (((server.read_body b n).1).1) ≡ [])
    unfolding fetch_range
    asked before after r at some_left =
        let (b, there, answered, lasts) = serves.ranged before after at.parts some_left in
        (
          b,
          rw (fetch_range, at.open_still, serves.made, at.position_is, answered) refl,
          there,
          lasts,
        )

    read_on-Ends :
        (e : ReadError) (got more left : Bytes) (n : ℕ)
        → Goes n e more
        → (e ≡ end_of_file → left ≡ [])
        → (got ≡ [] → 0 < n)
        → Ends e (got ++ more) left
    read_on-Ends no_error [] more left n goes lasts room = goes (room refl)
    read_on-Ends no_error (c ∷ got) more left n goes lasts room = λ e. cc
    read_on-Ends end_of_file got more left n goes lasts room = lasts refl
    read_on-Ends (other_error e) got more left n goes lasts room = goes

    -- the second read, with the response of the second request
    read_more-ReadsOn :
        (wanted : ℕ) (before after got left : Bytes) (b : B) (r : RangeReader B)
        → 0 < wanted
        → after ≡ got ++ left
        → Placed (before ++ got) left r
        → unread b ≡ left
        → ((n : ℕ)
            → ((server.read_body b n).1).0 ≡ end_of_file
            → unread (((server.read_body b n).1).1) ≡ [])
        → ReadsOn before after (read_more server wanted got (ok tt, record r { body = some b }))
    read_more-ReadsOn wanted before after got left b r room more at there lasts =
        let n = wanted - length got in
        let answer = server.read_body b n in
        let left' = unread ((answer.1).1) in
        let rest : left ≡ answer.0 ++ left' = sym there ∙ sym (serves.bytes b n) in
        let placed =
          advanced-Placed (before ++ got) left (answer.0) left' ((answer.1).1) r at rest in
        (
          left',
          more ∙ (ap (λ t. got ++ t) rest ∙ sym (append_assoc got (answer.0) left')),
          ((answer.1).1, refl, refl, rw (← append_assoc before got (answer.0)) placed),
          read_on-Ends ((answer.1).0) got (answer.0) left' n (serves.goes b n) (lasts n)
              (λ empty. rw empty (omega arith)),
        )

    read_on-ReadsOn :
        (wanted : ℕ) (before after got left : Bytes) (e : ReadError) (r : RangeReader B)
        → 0 < wanted
        → after ≡ got ++ left
        → Stands (before ++ got) left r
        → Goes wanted e got
        → ReadsOn before after (read_on server wanted got e r)
    unfolding read_on
    read_on-ReadsOn wanted before after got left no_error r room more stands goes =
        (left, more, stands, goes room)
    read_on-ReadsOn wanted before after got left (other_error e) r room more stands goes =
        absurd goes
    read_on-ReadsOn wanted before after got [] end_of_file r room more stands goes =
        rw (behind_all (before ++ got) r (stands.3)) ([], more, stands, refl)
    read_on-ReadsOn wanted before after got (c ∷ left) end_of_file r room more stands goes =
        let (b, response, there, lasts) = asked (before ++ got) (c ∷ left) r (stands.3) (λ e. cc) in
        rw (more_left (before ++ got) left c r (stands.3), response)
          (read_more-ReadsOn wanted before after got (c ∷ left) b r room more (stands.3) there
            lasts)

    read_held :
        (wanted : ℕ) (b : B) (r : RangeReader B)
        → r.closed ≡ false
        → r.body ≡ some b
        → read server wanted r
          ≡ read_on server wanted
              ((server.read_body b wanted).0)
              (((server.read_body b wanted).1).0)
              (advanced server
                (length ((server.read_body b wanted).0))
                (((server.read_body b wanted).1).1)
                r)
    unfolding read read_open
    read_held wanted b r opened held = ground arith

    -- A read of an open reader with room for some bytes yields the next bytes of the content.
    pub read-ReadsOn :
        (wanted : ℕ) (before after : Bytes) (r : RangeReader B)
        → 0 < wanted
        → Stands before after r
        → ReadsOn before after (read server wanted r)
    read-ReadsOn wanted before after r room (b, held, there, at) =
        let answer = server.read_body b wanted in
        let left = unread ((answer.1).1) in
        let more : after ≡ answer.0 ++ left = sym there ∙ sym (serves.bytes b wanted) in
        rw (read_held wanted b r at.open_still held) (
          read_on-ReadsOn wanted before after (answer.0) left ((answer.1).0)
            (advanced server (length (answer.0)) ((answer.1).1) r) room more
            (
              (answer.1).1,
              refl,
              refl,
              advanced-Placed before after (answer.0) left ((answer.1).1) r at more,
            )
            (serves.goes b wanted))
