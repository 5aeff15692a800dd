-- ===== src/Maven/Reader/Faults.antt =====
-- What a reader takes for the end of a file, or for its bytes.
use openspmregistry.Prelude.{ℕ, ◌≤◌, ◌≡◌, false, true, some, arith, ok, err, length}
use openspmregistry.Int.{pos, negsuc, lt_int, add_int}
use openspmregistry.Strings.{Bytes}
use openspmregistry.Maven.Reader.{
  RangeServer, RangeReader, no_error, end_of_file, range_header, seek_start, accept_response,
  fetch_range, read_on, read_open, read, move_to, seek,
}

module _ {B : Type 0} (server : RangeServer B) where
  -- When a body ends before the end of the file and the request for the rest fails, the read reports
  -- the end of the file, and no error.
  pub read-cut :
      (wanted : ℕ) (r : RangeReader B) (b rest : B) (got e : Bytes)
      → r.closed ≡ false
      → r.body ≡ some b
      → server.read_body b wanted ≡ (got, (end_of_file, rest))
      → lt_int (add_int r.position (pos (length got))) r.size ≡ true
      → server.make_request ≡ ok tt
      → server.request (range_header (add_int r.position (pos (length got))) (negsuc 0)) ≡ err e
      → ((read server wanted r).0 ≡ got) × (((read server wanted r).1).0 ≡ end_of_file)
  unfolding read read_open read_on fetch_range accept_response
  read-cut wanted r b rest got e opened held ended early made failed = ground arith

  -- When the server ignores the range and answers with status 200, a seek into the file succeeds at
  -- the position k, and the next read yields what the body of that answer begins with, which is the
  -- start of the file.
  pub seek-ignored :
      (wanted k size : ℕ) (r : RangeReader B) (b rest : B) (got : Bytes)
      → r.closed ≡ false
      → r.size ≡ pos size
      → k ≤ size
      → server.make_request ≡ ok tt
      → server.request (range_header (pos k) (negsuc 0)) ≡ ok (200, b)
      → server.read_body b wanted ≡ (got, (no_error, rest))
      → ((seek server (pos k) seek_start r).0 ≡ ok (pos k))
        × ((read server wanted ((seek server (pos k) seek_start r).1)).0 ≡ got)
  unfolding seek move_to read read_open read_on fetch_range accept_response
  seek-ignored wanted k size r b rest got opened sized inside made answered starts = ground arith
