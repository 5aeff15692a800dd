-- ===== src/Controller/CallInfo.antt =====
-- `printCallInfo` of controller/utils.go: what the log of a request shows of its credentials.
pub mod Masked
use openspmregistry.Prelude.{ℕ, ◌+◌, Option, none, some, ◌++◌, if◌then◌else◌, take, drop}
use openspmregistry.Strings.{Bytes, codes, eq_bytes, has_prefix, index}

-- The value that is logged for a header.
unfoldable pub logged_header : Bytes → Bytes → Bytes
unfolding eq_bytes has_prefix
logged_header name value =
    if eq_bytes name (codes "Authorization")
    then (if has_prefix value (codes "Bearer ")
        then codes "Bearer ****"
        else if has_prefix value (codes "Basic ")
        then codes "Basic ****"
        else value)
    else value

abbrev masked_to : Bytes → ℕ → Option ℕ → Bytes
masked_to uri idx none = take (idx + 5) uri ++ codes "***"
masked_to uri idx (some end) = take (idx + 5) uri ++ (codes "***" ++ drop (idx + end) uri)

abbrev masked_from : Bytes → Option ℕ → Bytes
masked_from uri none = uri
masked_from uri (some idx) = masked_to uri idx (index (drop idx uri) (codes "&"))

-- The URI that is logged.
unfoldable pub log_uri : Bytes → Bytes
log_uri uri = masked_from uri (index uri (codes "auth="))
