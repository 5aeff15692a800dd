-- ===== src/Auth/Oidc.antt =====
-- authenticator/oidcauthenticator.go, and `writeTokenOutput` of authenticator/authenticator.go.
pub mod Code
pub mod Callback
pub mod Password
pub mod Csrf
use openspmregistry.Prelude.{
  ℕ, Bool, true, false, Option, none, some, List, [], ◌∷◌, Result, ok, err, ◌>>=◌, if◌then◌else◌,
  drop, length,
}
use openspmregistry.Strings.{Bytes, codes, is_empty, has_prefix}
use openspmregistry.Http.{ResponseWriter, content, set_header, write, http_error}

-- What the authenticators read from a request: the headers Authorization and X-Csrf-Token, whether
-- it came over TLS, the value of a cookie, and a parameter of the query.
pub record LoginRequest : Type 0 where
  pub authorization : Bytes
  pub csrf_token : Bytes
  pub tls : Bool
  pub cookie : Bytes → Option Bytes
  pub query : Bytes → Bytes

-- The calls of the OIDC provider. A token's "id_token" is none when it is no string.
pub record Provider : Type 0 where
  -- verifier.Verify
  pub verify : Bytes → Result (Unit {0})
  -- config.AuthCodeURL(state, oidc.Nonce(nonce))
  pub auth_code_url : Bytes → Bytes → Bytes
  -- config.Exchange
  pub exchange : Bytes → Result (Option Bytes)
  -- config.PasswordCredentialsToken
  pub password_credentials_token : Bytes → Bytes → Result (Option Bytes)

-- What ParseFiles and Execute do to a response.
pub data Rendering : Type 0 where
  unparsed : Rendering
  executed broken : ResponseWriter → Rendering

-- controller.TemplateParser: a file, rendered with a string into a response
abbrev pub TemplateParser : Type 0
TemplateParser = Bytes → Bytes → ResponseWriter → Rendering

-- the end of a handler that renders a template
unfoldable pub rendered : Rendering → ResponseWriter → ResponseWriter
unfolding http_error
rendered unparsed w = http_error (codes "Error parsing template") 500 w
rendered (executed written) w = written
rendered (broken written) w = http_error (codes "Error executing template") 500 written

abbrev token_file : Bytes
token_file = codes "static/token.gohtml"

abbrev pub write_plain : Bytes → ResponseWriter → ResponseWriter
write_plain token w =
    write (content token) (set_header (codes "Content-Type") (codes "text/plain") w)

-- a nil parser is none
unfoldable pub write_token_output : Bytes → Option TemplateParser → ResponseWriter → ResponseWriter
unfolding write set_header rendered
write_token_output token none w = write_plain token w
write_token_output token (some parser) w = rendered (parser token_file token w) w

unfoldable pub get_bearer_token : Bytes → Result Bytes
unfolding has_prefix
get_bearer_token auth_header =
    let prefix = codes "Bearer " in
    if has_prefix auth_header prefix
    then ok (drop (length prefix) auth_header)
    else err (codes "invalid authorization header")

-- `OidcAuthenticatorImpl.Authenticate`
unfoldable pub authenticate_oidc : Provider → Bytes → Result Bytes
unfolding get_bearer_token
authenticate_oidc provider authorization =
    if is_empty authorization
    then err (codes "authorization header not found")
    else do token ← get_bearer_token authorization; _ ← provider.verify token; ok token

-- The response when the header is present, and none when it is not.
unfoldable pub check_auth_header_present :
    Option TemplateParser → LoginRequest → ResponseWriter → Option ResponseWriter
unfolding write_token_output
check_auth_header_present parser r w =
    if is_empty r.authorization then none else some (write_token_output r.authorization parser w)
