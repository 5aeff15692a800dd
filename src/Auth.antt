-- ===== src/Auth.antt =====
-- authenticator/ and middleware/authenticator.go: who may call a handler.
pub mod Gate
pub mod Oidc
use openspmregistry.Prelude.{
  Bool, true, false, not, ◌&&◌, ◌||◌, Option, none, some, List, [], ◌∷◌, ◌++◌, Result, ok, err,
  if◌then◌else◌,
}
use openspmregistry.Strings.{Bytes, codes, eq_bytes, is_empty, has_prefix, trim_space}
use openspmregistry.Config.{User, ServerConfig}
use openspmregistry.Http.{ResponseWriter, http_error}
use openspmregistry.Controller.Request.{Request}

-- Functions of the packages crypto, encoding and net/http. `none` is an error or no ok.
pub record Credentials : Type 0 where
  -- the hexadecimal text of sha256.Sum256
  pub hash_password : Bytes → Bytes
  -- the user name and the password of r.BasicAuth, by the Authorization header
  pub basic_auth : Bytes → Option (Bytes × Bytes)
  -- base64.StdEncoding.DecodeString
  pub decode_base64 : Bytes → Option Bytes

-- the authenticator that `CreateAuthenticator` chooses
pub data Authenticator : Type 0 where
  no_op_authenticator oidc_authenticator_code oidc_authenticator_password : Authenticator
  basic_authenticator : List User → Authenticator

unfoldable pub create_authenticator : ServerConfig → Authenticator
create_authenticator c =
    if not c.auth.enabled
    then no_op_authenticator
    else if eq_bytes c.auth.kind (codes "oidc")
    then (if eq_bytes c.auth.grant_type (codes "code")
        then oidc_authenticator_code
        else oidc_authenticator_password)
    else if eq_bytes c.auth.kind (codes "basic")
    then basic_authenticator c.auth.users
    else no_op_authenticator

module _ (credentials : Credentials) where
  -- the loop over the users
  unfoldable pub find_user : List User → Bytes → Bytes → Result Bytes
  find_user [] username password = err (codes "invalid username or password")
  find_user (user ∷ users) username password =
      let hashed = credentials.hash_password password in
      let rest = find_user users username password in
      if eq_bytes user.password hashed && eq_bytes user.username username then ok hashed else rest

  -- `BasicAuthenticator.Authenticate`, of the Authorization header
  unfoldable pub authenticate_basic : List User → Bytes → Result Bytes
  unfolding find_user
  authenticate_basic users authorization =
      if is_empty authorization
      then err (codes "authorization header not found")
      else elim (credentials.basic_auth authorization) [
        | none ↦ err (codes "missing credentials")
        | some (username, password) ↦ find_user users username password
      ]

  -- a decoded ?auth= that names a scheme
  abbrev scheme_or : Bytes → Option Bytes → Bytes
  scheme_or authorization none = authorization
  scheme_or authorization (some s) =
      if has_prefix s (codes "Basic ") || has_prefix s (codes "Bearer ") then s else authorization

  -- the Authorization header that the authenticator and the handler see
  unfoldable pub effective_authorization : Bool → Request → Bytes
  effective_authorization allow_auth_query_param r =
      let auth_param = trim_space (r.query (codes "auth")) in
      if allow_auth_query_param && is_empty r.authorization && not (is_empty auth_param)
      then scheme_or r.authorization (credentials.decode_base64 auth_param)
      else r.authorization

-- `writeAuthorizationHeaderError`, the same in middleware/authenticator.go and in utils/utils.go
unfoldable pub write_authorization_header_error : Bytes → ResponseWriter → ResponseWriter
unfolding http_error
write_authorization_header_error e w = http_error (codes "Authentication failed: " ++ e) 401 w

-- `auth` is the authenticator's Authenticate, of the request and the response writer, and `S` the
-- state of the storage behind the handler.
module _ {S : Type 0} (credentials : Credentials)
    (auth : Request → ResponseWriter → Result Bytes × ResponseWriter) where
  abbrev admit :
      Result Bytes × ResponseWriter
      → (Request → ResponseWriter → S → ResponseWriter × S)
      → Request
      → S
      → ResponseWriter × S
  admit (err e, w) next r s = (write_authorization_header_error e w, s)
  admit (ok _, w) next r s = next r w s

  -- `authenticate`
  unfoldable pub authenticate :
      (Request → ResponseWriter → S → ResponseWriter × S)
      → Bool
      → Request
      → ResponseWriter
      → S
      → ResponseWriter × S
  unfolding write_authorization_header_error effective_authorization
  authenticate next allow_auth_query_param r w s =
      let authorized = record r {
        authorization = effective_authorization credentials allow_auth_query_param r;
      } in
      admit (auth authorized w) next authorized s
