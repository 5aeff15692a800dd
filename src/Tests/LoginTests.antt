-- ===== src/Tests/LoginTests.antt =====
-- authenticator/: the theorems on the logins with OpenID Connect at concrete inputs.
use openspmregistry.Prelude.{
  ◌≡◌, refl, ◌+◌, ◌*◌, ◌≤◌, ◌<◌, true, none, some, [], ◌∷◌, ◌++◌, length, take, drop, drop-append,
  Result, ok, err,
}
use openspmregistry.Strings.{Bytes, codes, eq_bytes}
use openspmregistry.Strings.Equality.{take-append}
use openspmregistry.Http.{fresh}
use openspmregistry.Auth.Oidc.{LoginRequest, Provider, write_token_output}
use openspmregistry.Auth.Oidc.Code.{callback}
use openspmregistry.Auth.Oidc.Callback.{Decided, callback-Decided}
use openspmregistry.Auth.Oidc.Password.{
  Claims, Jose, csrf_token_value, second, login_claims, encrypt_token, verify_token,
  authenticate_password, password_token, check_claims, request_token,
}
use openspmregistry.Auth.Oidc.Csrf.{Decrypts, verify_token-encrypt_token}
use openspmregistry.Tests.ServerTests.{credentials}

abbrev provider : Provider
provider = record {
  verify = λ token. ok tt;
  auth_code_url = λ state nonce. state;
  exchange = λ code. ok (some code);
  password_credentials_token = λ username password. ok (some (codes "t"));
}

abbrev redirected : LoginRequest
redirected = record {
  authorization = [];
  csrf_token = [];
  tls = true;
  cookie = λ name. some (codes "x");
  query = λ name. codes "x";
}

callback-Decided_example :
    Decided provider none redirected fresh (callback provider none redirected fresh)
callback-Decided_example = callback-Decided provider none redirected fresh

-- tokens that are the claims themselves, behind their expiry and the lengths of two of them
abbrev plain_token : Claims → Bytes
plain_token c = c.expiry ∷ length c.subject ∷ length c.issuer ∷ (c.subject ++ (c.issuer ++ c.value))

abbrev read_token : Bytes → Result Claims
read_token (expiry ∷ m ∷ n ∷ text) = ok (record {
  subject = take m text;
  issuer = take n (drop m text);
  expiry = expiry;
  value = drop n (drop m text);
})
read_token _ = err []

abbrev jose : Jose
jose = record {
  encrypt = λ key claims. ok (plain_token claims);
  decrypt = λ key token. read_token token;
}

jose-Decrypts : Decrypts jose
jose-Decrypts claims token made = rw (← ok_token made) (
    rw
      (
        take-append claims.subject (claims.issuer ++ claims.value),
        drop-append claims.subject (claims.issuer ++ claims.value),
        take-append claims.issuer claims.value,
        drop-append claims.issuer claims.value,
      )
      refl)
  where
    ok_token : ok (plain_token claims) ≡ ok token → plain_token claims ≡ token
    ok_token e = cc e

abbrev token : Bytes
token = plain_token (login_claims 0 csrf_token_value)

verify_token-encrypt_token_example :
    (5 ≤ 0 + 299 * second → verify_token jose 5 token csrf_token_value ≡ ok tt)
    × (0 + 300 * second < 5
        → verify_token jose 5 token csrf_token_value ≡ err (codes "token expired"))
unfolding encrypt_token
verify_token-encrypt_token_example = verify_token-encrypt_token jose jose-Decrypts 0 5 token refl

-- a login from the form
abbrev logging_in : LoginRequest
logging_in = record {
  authorization = codes "Basic x";
  csrf_token = token;
  tls = true;
  cookie = λ name. none;
  query = λ name. [];
}

granted :
    authenticate_password jose credentials provider none 5 logging_in fresh
    ≡ (ok (codes "t"), write_token_output (codes "t") none fresh)
unfolding authenticate_password password_token verify_token check_claims request_token eq_bytes
    login_claims
granted = refl
