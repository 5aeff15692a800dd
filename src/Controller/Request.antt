-- ===== src/Controller/Request.antt =====
-- What the handlers read from a request, and the error responses of controller/utils.go.
use openspmregistry.Prelude.{ℕ, Bool, Option, none, some, List, if◌then◌else◌}
use openspmregistry.Strings.{Bytes, codes, is_empty, has_suffix, trim_suffix}
use openspmregistry.Repo.{Context}
use openspmregistry.Http.{ResponseWriter, problem, set_header, write_header, write}

-- A part of a multipart form. `content` is what can be read of it; `unreadable` and `unclosable`
-- say whether reading and closing it end in an error.
pub record Part : Type 0 where
  pub form_name : Bytes
  pub content_type : Bytes
  pub content : Bytes
  pub unreadable : Bool
  pub unclosable : Bool

-- The parts that reader.NextPart returns one by one, and how they end: with io.EOF, or with no
-- part and another error.
pub data Parts : Type 0 where
  eof broken : Parts
  next : Part → Parts → Parts

pub record Request : Type 0 where
  -- r.Header.Values("Accept") and r.Header.Get("Authorization")
  pub accept : List Bytes
  pub authorization : Bytes
  -- r.PathValue of "scope", "package" and "version"
  pub scope : Bytes
  pub package_name : Bytes
  pub version : Bytes
  -- r.URL.Query().Get
  pub query : Bytes → Bytes
  -- r.MultipartReader; `none` is an error
  pub multipart : Option Parts

-- `requestContext`: the Authorization header, for the repositories that pass it on
unfoldable pub request_context : Request → Context
request_context r = if is_empty r.authorization then none else some r.authorization

-- utils.StripExtension
unfoldable pub strip_extension : Bytes → Bytes → Bytes
strip_extension s ext = if has_suffix s ext then trim_suffix s ext else s

unfoldable pub write_error_with_status_code : Bytes → ℕ → ResponseWriter → ResponseWriter
write_error_with_status_code message status w =
    let typed = set_header (codes "Content-Type") (codes "application/problem+json") w in
    let in_english = set_header (codes "Content-Language") (codes "en") typed in
    let versioned = set_header (codes "Content-Version") (codes "1") in_english in
    write (problem message) (write_header status versioned)

unfoldable pub write_error : Bytes → ResponseWriter → ResponseWriter
unfolding write_error_with_status_code
write_error message = write_error_with_status_code message 500
