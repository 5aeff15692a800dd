-- ===== src/Maven/Reader.antt =====
-- repo/maven/readseek.go: a reader that seeks by HTTP range requests. The mutex makes each method
-- one step.
pub mod Positions
pub mod Served
pub mod Faults
use openspmregistry.Prelude.{
  ℕ, ◌+◌, ◌-◌, Bool, true, false, not, ◌&&◌, ◌||◌, Option, none, some, List, [], ◌∷◌, ◌++◌, ◌==◌,
  Result, ok, err, if◌then◌else◌, length,
}
use openspmregistry.Int.{ℤ, pos, negsuc, lt_int, add_int}
use openspmregistry.Strings.{Bytes, codes}
use openspmregistry.Strings.Numbers.{itoa}

-- the error that comes with the bytes of a Read
pub data ReadError : Type 0 where
  no_error end_of_file : ReadError
  other_error : Bytes → ReadError

-- The HTTP client, with bodies of the type B.
pub record RangeServer (B : Type 0) : Type 0 where
  -- client.makeRequest
  pub make_request : Result (Unit {0})
  -- httpClient.Do with a Range header: the status and the body
  pub request : Bytes → Result (ℕ × B)
  -- at most so many bytes, an error, and the body behind them
  pub read_body : B → ℕ → Bytes × (ReadError × B)
  pub close_body : B → Result (Unit {0})

pub record RangeReader (B : Type 0) : Type 0 where
  pub position : ℤ
  pub size : ℤ
  pub body : Option B
  pub closed : Bool

abbrev pub error_closed : Bytes
error_closed = codes "io: read/write on closed pipe"

-- io.SeekStart, io.SeekCurrent and io.SeekEnd, and every other number
pub data Whence : Type 0 where
  seek_start seek_current seek_end seek_invalid : Whence

abbrev pub range_header : ℤ → ℤ → Bytes
range_header start stop =
    if lt_int stop (pos 0)
    then codes "bytes=" ++ (itoa start ++ codes "-")
    else codes "bytes=" ++ (itoa start ++ (codes "-" ++ itoa stop))

module _ {B : Type 0} (server : RangeServer B) where
  abbrev without_body : RangeReader B → RangeReader B
  without_body r = record r { body = none }

  -- behind the request
  unfoldable pub accept_response :
      RangeReader B → Result (ℕ × B) → Result (Unit {0}) × RangeReader B
  accept_response r (err e) = (err (codes "range request failed: " ++ e), r)
  accept_response r (ok (status, b)) =
      if not (status == 206) && not (status == 200)
      then (err (codes "unexpected status code"), r)
      else (ok tt, record r { body = some b })

  abbrev pub when_made :
      Result (Unit {0}) → RangeReader B → Result (ℕ × B) → Result (Unit {0}) × RangeReader B
  when_made (err e) r response = (err e, r)
  when_made (ok _) r response = accept_response r response

  unfoldable pub fetch_range : ℤ → ℤ → RangeReader B → Result (Unit {0}) × RangeReader B
  unfolding accept_response
  fetch_range start stop r =
      if r.closed
      then (err error_closed, r)
      else when_made server.make_request (without_body r) (server.request (range_header start stop))

  abbrev advanced : ℕ → B → RangeReader B → RangeReader B
  advanced n b r = record r { position = add_int r.position (pos n); body = some b }

  -- the second read, when the first body ended before the size
  abbrev read_more :
      ℕ → Bytes → Result (Unit {0}) × RangeReader B → Bytes × (ReadError × RangeReader B)
  read_more wanted got (err _, r) = (got, (end_of_file, r))
  read_more wanted got (ok _, r) = elim r.body [
    | none ↦ (got, (end_of_file, r))
    | some b ↦
        let (more, rest) = server.read_body b (wanted - length got) in
        (got ++ more, (rest.0, advanced (length more) (rest.1) r))
  ]

  -- behind the first read
  unfoldable pub read_on :
      ℕ → Bytes → ReadError → RangeReader B → Bytes × (ReadError × RangeReader B)
  unfolding fetch_range
  read_on wanted got end_of_file r =
      if lt_int r.position r.size
      then read_more wanted got (fetch_range r.position (negsuc 0) r)
      else (got, (end_of_file, r))
  read_on wanted got no_error r = (got, (no_error, r))
  read_on wanted got (other_error e) r = (got, (other_error e, r))

  unfoldable pub read_open :
      ℕ → Result (Unit {0}) × RangeReader B → Bytes × (ReadError × RangeReader B)
  unfolding read_on
  read_open wanted (err e, r) = ([], (other_error e, r))
  read_open wanted (ok _, r) = elim r.body [
    | none ↦ ([], (other_error [], r))
    | some b ↦
        let (got, rest) = server.read_body b wanted in
        read_on wanted got (rest.0) (advanced (length got) (rest.1) r)
  ]

  -- `Read` into a buffer of `wanted` bytes
  unfoldable pub read : ℕ → RangeReader B → Bytes × (ReadError × RangeReader B)
  unfolding read_open
  read wanted r = if r.closed then ([], (other_error error_closed, r)) else elim r.body [
    | none ↦ read_open wanted (fetch_range r.position (negsuc 0) r)
    | some _ ↦ read_open wanted (ok tt, r)
  ]

  abbrev pub returned_position : Result (Unit {0}) × RangeReader B → Result ℤ × RangeReader B
  returned_position (err e, r) = (err e, r)
  returned_position (ok _, r) = (ok r.position, r)

  -- behind the choice of the new position
  unfoldable pub move_to : ℤ → RangeReader B → Result ℤ × RangeReader B
  move_to target r =
      if lt_int target (pos 0)
      then (err (codes "negative position"), r)
      else let new_pos = if lt_int r.size target then r.size else target in
        returned_position
          (fetch_range new_pos (negsuc 0) (record r { position = new_pos; body = none }))

  -- `Seek`
  unfoldable pub seek : ℤ → Whence → RangeReader B → Result ℤ × RangeReader B
  unfolding move_to
  seek offset whence r = if r.closed then (err error_closed, r) else elim whence [
    | seek_start ↦ move_to offset r
    | seek_current ↦ move_to (add_int r.position offset) r
    | seek_end ↦ move_to (add_int r.size offset) r
    | seek_invalid ↦ (err (codes "invalid whence"), r)
  ]

  abbrev close_open : Option B → Result (Unit {0})
  close_open none = ok tt
  close_open (some b) = server.close_body b

  -- `Close`
  unfoldable pub close : RangeReader B → Result (Unit {0}) × RangeReader B
  close r = if r.closed then (ok tt, r) else (close_open r.body, record r { closed = true })
