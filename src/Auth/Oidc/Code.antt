-- ===== src/Auth/Oidc/Code.antt =====
-- authenticator/oidcauthenticatorcode.go
use openspmregistry.Prelude.{ℕ, Bool, not, Option, none, some, Result, ok, err, if◌then◌else◌}
use openspmregistry.Strings.{Bytes, codes, is_empty, eq_bytes}
use openspmregistry.Http.{ResponseWriter, add_header, http_error}
use openspmregistry.Auth.{write_authorization_header_error}
use openspmregistry.Auth.Oidc.{
  LoginRequest, Provider, TemplateParser, write_token_output, check_auth_header_present,
}

-- The fields of the cookie that `setCallbackCookie` sets; HttpOnly and the strict same-site mode are
-- the same for all. MaxAge is in seconds.
pub record Cookie : Type 0 where
  pub name : Bytes
  pub value : Bytes
  pub max_age : ℕ
  pub secure : Bool

unfoldable pub unauthorized : Bytes → ResponseWriter → ResponseWriter
unfolding http_error
unauthorized message w = http_error message 401 w

module _ (provider : Provider) (parser : Option TemplateParser) where
  -- behind the exchange of the code
  unfoldable pub exchanged : Result (Option Bytes) → ResponseWriter → ResponseWriter
  unfolding unauthorized write_token_output
  exchanged (err _) w = unauthorized (codes "Failed to exchange code for token") w
  exchanged (ok none) w = unauthorized (codes "Failed to get id token") w
  exchanged (ok (some id_token)) w = write_token_output id_token parser w

  -- behind the cookie
  unfoldable pub checked_state : LoginRequest → Option Bytes → ResponseWriter → ResponseWriter
  unfolding exchanged eq_bytes
  checked_state r none w = unauthorized (codes "state not found") w
  checked_state r (some state) w =
      if not (eq_bytes (r.query (codes "state")) state)
      then unauthorized (codes "state did not match") w
      else if is_empty (r.query (codes "code"))
      then unauthorized (codes "code not found") w
      else exchanged (provider.exchange (r.query (codes "code"))) w

  unfoldable pub callback : LoginRequest → ResponseWriter → ResponseWriter
  unfolding checked_state
  callback r w =
      if is_empty (r.query (codes "state"))
      then unauthorized (codes "state not found") w
      else checked_state r (r.cookie (codes "state")) w

-- `cookie_text` is the text of a cookie in http.SetCookie, `redirect` is http.Redirect with the status
-- 302, and the random strings are what two calls of RandomString(16) return.
module _ (provider : Provider) (parser : Option TemplateParser) (cookie_text : Cookie → Bytes)
    (redirect : Bytes → ResponseWriter → ResponseWriter) where
  unfoldable pub set_callback_cookie :
      LoginRequest → Bytes → Bytes → ResponseWriter → ResponseWriter
  unfolding add_header
  set_callback_cookie r name value w =
      add_header (codes "Set-Cookie")
        (cookie_text (record { name = name; value = value; max_age = 3600; secure = r.tls })) w

  -- behind the random strings
  unfoldable pub send_to_provider :
      LoginRequest → Result Bytes → Result Bytes → ResponseWriter → ResponseWriter
  unfolding set_callback_cookie write_authorization_header_error
  send_to_provider r (err e) nonce w = write_authorization_header_error e w
  send_to_provider r (ok state) (err e) w = write_authorization_header_error e w
  send_to_provider r (ok state) (ok nonce) w =
      let with_state = set_callback_cookie r (codes "state") state w in
      let with_nonce = set_callback_cookie r (codes "nonce") nonce with_state in
      redirect (provider.auth_code_url state nonce) with_nonce

  unfoldable pub login :
      LoginRequest → Result Bytes → Result Bytes → ResponseWriter → ResponseWriter
  unfolding send_to_provider check_auth_header_present
  login r state nonce w = elim (check_auth_header_present parser r w) [
    | some present ↦ present
    | none ↦ send_to_provider r state nonce w
  ]
