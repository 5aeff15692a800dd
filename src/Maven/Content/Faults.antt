-- ===== src/Maven/Content/Faults.antt =====
-- What io.ReadAll makes of a range reader whose response is cut.
use openspmregistry.Prelude.{ℕ, suc, ◌≡◌, refl, false, true, some, ◌++◌, ok, err, length}
use openspmregistry.Int.{pos, negsuc, lt_int, add_int}
use openspmregistry.Strings.{Bytes}
use openspmregistry.Config.{MavenConfig}
use openspmregistry.Models.Element.{Platform}
use openspmregistry.Repo.{Context}
use openspmregistry.Maven.Client.{HttpClient, Formats}
use openspmregistry.Maven.Reader.{RangeReader, end_of_file, range_header}
use openspmregistry.Maven.Reader.Faults.{read-cut}
use openspmregistry.Maven.Content.{Bodies, range_server, read_all}

module _ {S B : Type 0} (http : HttpClient S) (bodies : Bodies S B) (p : Platform)
    (cfg : MavenConfig) (formats : Formats) (ctx : Context) (fuel : ℕ) (path : Bytes) (s : S) where
  -- When a body ends before the end of the file and the request for the rest fails, io.ReadAll
  -- yields the bytes so far as if they were the whole file, and no error.
  pub read_all-cut :
      (more : ℕ) (before got e : Bytes) (r : RangeReader B) (b rest : B)
      → r.closed ≡ false
      → r.body ≡ some b
      → bodies.read_body b (bodies.room (length before)) ≡ (got, (end_of_file, rest))
      → lt_int (add_int r.position (pos (length got))) r.size ≡ true
      → (range_server http bodies p cfg formats ctx fuel path s).make_request ≡ ok tt
      → (range_server http bodies p cfg formats ctx fuel path s).request
          (range_header (add_int r.position (pos (length got))) (negsuc 0))
        ≡ err e
      → read_all http bodies p cfg formats ctx fuel (suc more) path s before r ≡ ok (before ++ got)
  unfolding read_all
  read_all-cut more before got e r b rest opened held ended early made failed =
      let (bytes, error) =
        read-cut (range_server http bodies p cfg formats ctx fuel path s)
          (bodies.room (length before)) r b rest got e opened held ended early made failed in
      rw (read_all, error, bytes) refl
