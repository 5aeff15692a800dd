-- ===== src/Auth/Oidc/Password.antt =====
-- authenticator/oidcauthenticatorpassword.go
use openspmregistry.Prelude.{
  ℕ, ◌+◌, ◌*◌, ◌/◌, not, Option, none, some, [], ◌∷◌, Result, ok, err, ◌>>=◌, if◌then◌else◌, ltb,
}
use openspmregistry.Strings.{Bytes, codes, is_empty, eq_bytes}
use openspmregistry.Http.{ResponseWriter, http_error}
use openspmregistry.Auth.{Credentials}
use openspmregistry.Auth.Oidc.{
  LoginRequest, Provider, TemplateParser, rendered, write_token_output, check_auth_header_present,
  authenticate_oidc,
}

-- The claims of a token, the private one included. A numeric date is in seconds.
pub record Claims : Type 0 where
  pub subject : Bytes
  pub issuer : Bytes
  pub expiry : ℕ
  pub value : Bytes

-- The packages jose and jwt with the algorithms "dir" and A128GCM.
pub record Jose : Type 0 where
  -- NewEncrypter, Encrypted, Claims and Serialize
  pub encrypt : Bytes → Claims → Result Bytes
  -- ParseEncrypted and Claims
  pub decrypt : Bytes → Bytes → Result Claims

abbrev pub csrf_token_value : Bytes
csrf_token_value = codes "csrf-token"

abbrev pub login_nonce : Bytes
login_nonce = codes "oidc login nonce"

-- make([]byte, 16)
abbrev pub shared_encryption_key : Bytes
shared_encryption_key = 0 ∷ 0 ∷ 0 ∷ 0 ∷ 0 ∷ 0 ∷ 0 ∷ 0 ∷ 0 ∷ 0 ∷ 0 ∷ 0 ∷ 0 ∷ 0 ∷ 0 ∷ 0 ∷ []

-- nanoseconds in a second
abbrev pub second : ℕ
second = 1000000000

-- the claims of a token that is made at a time, in nanoseconds
unfoldable pub login_claims : ℕ → Bytes → Claims
login_claims now value = record {
  subject = login_nonce;
  issuer = codes "OpenSPMRegistry";
  expiry = (now + 300 * second) / second;
  value = value;
}

-- the checks of the decrypted claims
unfoldable pub check_claims : ℕ → Bytes → Claims → Result (Unit {0})
unfolding eq_bytes
check_claims now value claims =
    if not (eq_bytes claims.subject login_nonce)
    then err (codes "invalid subject")
    else if ltb (claims.expiry * second) now
    then err (codes "token expired")
    else if is_empty claims.value
    then err (codes "missing value")
    else if not (eq_bytes claims.value value)
    then err (codes "invalid value")
    else ok tt

module _ (jose : Jose) where
  unfoldable pub encrypt_token : ℕ → Bytes → Result Bytes
  unfolding login_claims
  encrypt_token now value = jose.encrypt shared_encryption_key (login_claims now value)

  unfoldable pub verify_token : ℕ → Bytes → Bytes → Result (Unit {0})
  unfolding check_claims
  verify_token now token value = do
    claims ← jose.decrypt shared_encryption_key token
    check_claims now value claims

abbrev pub id_token_of : Option Bytes → Result Bytes
id_token_of none = err (codes "missing id token")
id_token_of (some id_token) = ok id_token

unfoldable pub request_token : Provider → Bytes → Bytes → Result Bytes
request_token provider username password = do
  id_token ← provider.password_credentials_token username password
  id_token_of id_token

module _ (jose : Jose) (credentials : Credentials) (provider : Provider)
    (parser : Option TemplateParser) where
  -- behind the check that there is a CSRF token
  unfoldable pub password_token : ℕ → LoginRequest → Bytes → Bytes → Result Bytes
  unfolding verify_token request_token
  password_token now r username password =
      if is_empty r.csrf_token then err (codes "missing CSRF token") else do
        _ ← verify_token jose now r.csrf_token csrf_token_value
        request_token provider username password

  abbrev pub with_output : Result Bytes → ResponseWriter → Result Bytes × ResponseWriter
  with_output (err e) w = (err e, w)
  with_output (ok id_token) w = (ok id_token, write_token_output id_token parser w)

  -- `Authenticate`: the token or an error, and the response
  unfoldable pub authenticate_password :
      ℕ → LoginRequest → ResponseWriter → Result Bytes × ResponseWriter
  unfolding password_token authenticate_oidc write_token_output
  authenticate_password now r w = elim (credentials.basic_auth r.authorization) [
    | none ↦ (authenticate_oidc provider r.authorization, w)
    | some (username, password) ↦ with_output (password_token now r username password) w
  ]

-- `Callback`
unfoldable pub callback_unsupported : ResponseWriter → ResponseWriter
unfolding http_error
callback_unsupported w = http_error (codes "callback not supported") 401 w

module _ (jose : Jose) (parser : TemplateParser) where
  abbrev login_page : Result Bytes → ResponseWriter → ResponseWriter
  login_page (err _) w = http_error (codes "Error encrypting token") 500 w
  login_page (ok csrf_token) w = rendered (parser (codes "static/login.gohtml") csrf_token w) w

  -- `Login`
  unfoldable pub login_password : ℕ → LoginRequest → ResponseWriter → ResponseWriter
  unfolding encrypt_token check_auth_header_present rendered http_error
  login_password now r w = elim (check_auth_header_present (some parser) r w) [
    | some present ↦ present
    | none ↦ login_page (encrypt_token jose now csrf_token_value) w
  ]
