-- ===== src/Maven/Reader/Positions.antt =====
-- The position of the reader, and what a closed one does.
use openspmregistry.Prelude.{
  ℕ, ◌≡◌, refl, Bool, true, false, none, [], Result, ok, err, arith, Bool-cases, inl, inr,
  if◌then◌else◌,
}
use openspmregistry.Int.{ℤ, pos, lt_int, add_int}
use openspmregistry.Maven.Reader.{
  RangeServer, RangeReader, Whence, seek_start, seek_current, seek_end, seek_invalid, other_error,
  error_closed, returned_position, fetch_range, when_made, accept_response, move_to, seek, read,
  close,
}

-- The position lies between the start and the end.
pub record InBounds {B : Type 0} (r : RangeReader B) : Type 0 where
  pub not_negative : lt_int r.position (pos 0) ≡ false
  pub not_behind : lt_int r.size r.position ≡ false

abbrev SamePlace : {B : Type 0} → RangeReader B → RangeReader B → Type 0
SamePlace r r' = (r'.position ≡ r.position) × (r'.size ≡ r.size) × (r'.closed ≡ r.closed)

moved-InBounds : {B : Type 0} (r r' : RangeReader B) → SamePlace r r' → InBounds r → InBounds r'
moved-InBounds r r' (same_position, same_size, _) h = record {
  not_negative = rw same_position (h.not_negative);
  not_behind = rw (same_position, same_size) (h.not_behind);
}

if-SamePlace :
    {A B : Type 0} (r : RangeReader B) (b : Bool) (x y : A × RangeReader B)
    → SamePlace r (x.1)
    → SamePlace r (y.1)
    → SamePlace r ((if b then x else y).1)
if-SamePlace r true x y hx hy = hx
if-SamePlace r false x y hx hy = hy

if-InBounds :
    {A B : Type 0} (b : Bool) (x y : A × RangeReader B)
    → InBounds (x.1)
    → InBounds (y.1)
    → InBounds ((if b then x else y).1)
if-InBounds true x y hx hy = hx
if-InBounds false x y hx hy = hy

size_not_negative : {B : Type 0} (r : RangeReader B) → InBounds r → lt_int r.size (pos 0) ≡ false
size_not_negative r h = ground (arith, h.not_negative, h.not_behind)

-- the position that a seek to a target that is not negative chooses
clamp-InBounds :
    {B : Type 0} (target : ℤ) (r : RangeReader B)
    → lt_int r.size (pos 0) ≡ false
    → lt_int target (pos 0) ≡ false
    → InBounds
        (record r { position = if lt_int r.size target then r.size else target; body = none })
clamp-InBounds target r sized fine = record {
  not_negative = ground arith;
  not_behind = ground arith;
}

module _ {B : Type 0} (server : RangeServer B) where
  when_made-SamePlace :
      (made : Result (Unit {0})) (r : RangeReader B) (response : Result (ℕ × B))
      → SamePlace r ((when_made server made r response).1)
  unfolding accept_response
  when_made-SamePlace (err e) r response = (refl, refl, refl)
  when_made-SamePlace (ok _) r (err e) = (refl, refl, refl)
  when_made-SamePlace (ok _) r (ok (status, b)) = (ground arith, ground arith, ground arith)

  -- A request changes no position.
  fetch_range-SamePlace :
      (start stop : ℤ) (r : RangeReader B) → SamePlace r ((fetch_range server start stop r).1)
  unfolding fetch_range
  fetch_range-SamePlace start stop r =
      if-SamePlace r r.closed _ _ (refl, refl, refl)
        (when_made-SamePlace server.make_request (record r { body = none }) _)

  returned-InBounds :
      (x : Result (Unit {0}) × RangeReader B)
      → InBounds (x.1)
      → InBounds ((returned_position server x).1)
  returned-InBounds (err e, r) h = h
  returned-InBounds (ok _, r) h = h

  move_to-InBounds :
      (target : ℤ) (r : RangeReader B) → InBounds r → InBounds ((move_to server target r).1)
  unfolding move_to
  move_to-InBounds target r h = elim (Bool-cases (lt_int target (pos 0))) [
    | inl negative ↦ rw (move_to, negative) h
    | inr fine ↦
        rw (move_to, fine)
          (returned-InBounds _ (
            moved-InBounds _ _ (fetch_range-SamePlace _ _ _)
              (clamp-InBounds target r (size_not_negative r h) fine)))
  ]

  -- A seek, whatever its offset and origin and whether it succeeds, leaves the position between the
  -- start and the end of the file, also when the sum of position and offset wraps around.
  pub seek-InBounds :
      (offset : ℤ) (whence : Whence) (r : RangeReader B)
      → InBounds r
      → InBounds ((seek server offset whence r).1)
  unfolding seek
  seek-InBounds offset seek_start r h = if-InBounds r.closed _ _ h (move_to-InBounds offset r h)
  seek-InBounds offset seek_current r h =
      if-InBounds r.closed _ _ h (move_to-InBounds (add_int r.position offset) r h)
  seek-InBounds offset seek_end r h =
      if-InBounds r.closed _ _ h (move_to-InBounds (add_int r.size offset) r h)
  seek-InBounds offset seek_invalid r h = if-InBounds r.closed _ _ h h

  closed-read :
      (r : RangeReader B) (wanted : ℕ)
      → r.closed ≡ true
      → read server wanted r ≡ ([], (other_error error_closed, r))
  unfolding read
  closed-read r wanted shut = rw (read, shut) refl

  closed-seek :
      (r : RangeReader B) (offset : ℤ) (whence : Whence)
      → r.closed ≡ true
      → seek server offset whence r ≡ (err error_closed, r)
  unfolding seek
  closed-seek r offset whence shut = rw (seek, shut) refl

  close_twice : (r : RangeReader B) → r.closed ≡ true → close server r ≡ (ok tt, r)
  unfolding close
  close_twice r shut = rw (close, shut) refl

  close_shuts : (r : RangeReader B) → ((close server r).1).closed ≡ true
  unfolding close
  close_shuts r = elim (Bool-cases r.closed) [
    | inl shut ↦ rw (close, shut) refl
    | inr open_ ↦ rw (close, open_) refl
  ]

  -- A closed reader stays closed: reading and seeking fail with the error of a closed pipe, closing
  -- again succeeds, and none changes the reader.
  pub close-closed :
      (r : RangeReader B) (wanted : ℕ) (offset : ℤ) (whence : Whence)
      → (read server wanted ((close server r).1)
          ≡ ([], (other_error error_closed, (close server r).1)))
        × (seek server offset whence ((close server r).1) ≡ (err error_closed, (close server r).1))
        × (close server ((close server r).1) ≡ (ok tt, (close server r).1))
  close-closed r wanted offset whence =
      let shut = close_shuts r in
      (
        closed-read ((close server r).1) wanted shut,
        closed-seek ((close server r).1) offset whence shut,
        close_twice ((close server r).1) shut,
      )
