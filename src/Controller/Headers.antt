-- ===== src/Controller/Headers.antt =====
-- The check of the Accept header in controller/utils.go.
pub mod Accepted
use openspmregistry.Prelude.{
  ℕ, Bool, true, false, not, Option, none, some, List, [], ◌∷◌, ◌++◌, if◌then◌else◌, length, drop,
}
use openspmregistry.Int.{ℤ, pos, eq_int}
use openspmregistry.Strings.{Bytes, codes, eq_bytes, is_empty, has_prefix, split, contains}
use openspmregistry.Strings.Numbers.{atoi}
use openspmregistry.Http.{ResponseWriter, problem, set_header, write_header, write}
use openspmregistry.Controller.Request.{Request}

pub record HeaderError : Type 0 where
  pub error_message : Bytes
  pub http_status_code : ℕ

abbrev pub accept_header_prefix : Bytes
accept_header_prefix = codes "application/vnd.swift.registry.v"

abbrev pub supported_media_type : List Bytes
supported_media_type = codes "json" ∷ codes "swift" ∷ codes "zip" ∷ []

unfoldable pub new_header_error : Bytes → HeaderError
new_header_error message = record { error_message = message; http_status_code = 400 }

abbrev unsupported : Bytes → HeaderError
unsupported message = record { error_message = message; http_status_code = 415 }

unfoldable pub write_response : HeaderError → ResponseWriter → ResponseWriter
write_response e w =
    let typed = set_header (codes "Content-Type") (codes "application/problem+json") w in
    let in_english = set_header (codes "Content-Language") (codes "en") typed in
    write (problem e.error_message) (write_header e.http_status_code in_english)

-- An empty `enforced` stands for any supported media type. `none` is a nil error.
unfoldable pub check_media_type : Bytes → Bytes → Option HeaderError
check_media_type enforced media_type =
    if not (is_empty enforced)
    then (if not (eq_bytes media_type enforced)
        then some (unsupported (codes "unsupported media type: " ++ media_type))
        else none)
    else if not (contains supported_media_type media_type)
    then some (unsupported (codes "unsupported media type: " ++ media_type))
    else none

-- the version and the media type of one value
unfoldable pub check_version : Bytes → Bytes → Bytes → Option HeaderError
unfolding check_media_type new_header_error
check_version enforced version media_type =
    let (value, good) = atoi version in
    if not good
    then some (new_header_error (codes "invalid API version: " ++ version))
    else if not (eq_int value (pos 1))
    then some (unsupported (codes "unsupported API version: " ++ version))
    else check_media_type enforced media_type

-- One round of the loop: `none` goes on with the next value.
unfoldable pub check_parts : Bytes → List Bytes → Option (Option HeaderError)
check_parts enforced (version ∷ media_type ∷ []) = some (check_version enforced version media_type)
check_parts enforced _ = none

unfoldable pub check_value : Bytes → Bytes → Option (Option HeaderError)
check_value enforced value =
    if has_prefix value accept_header_prefix
    then check_parts enforced (split (drop (length accept_header_prefix) value) b'+')
    else none

unfoldable pub check_values : Bytes → List Bytes → Option HeaderError
check_values enforced [] = some (unsupported (codes "wrong accept header"))
check_values enforced (value ∷ values) = elim (check_value enforced value) [
  | none ↦ check_values enforced values
  | some result ↦ result
]

unfoldable pub check_headers_enforce : List Bytes → Bytes → Option HeaderError
unfolding new_header_error
check_headers_enforce [] enforced = some (new_header_error (codes "missing Accept header"))
check_headers_enforce (value ∷ values) enforced = check_values enforced (value ∷ values)

-- `checkHeaders`
unfoldable pub check_headers : List Bytes → Option HeaderError
check_headers accept = check_headers_enforce accept []
