-- ===== src/Auth/Oidc/Csrf.antt =====
-- Which tokens of the login form are accepted, and what a login with a password needs.
use openspmregistry.Prelude.{
  ℕ, ◌+◌, ◌*◌, ◌≤◌, ◌<◌, ◌≡◌, refl, false, ◌↔◌, Option, some, ok, err, >>=-eq-ok, arith,
}
use openspmregistry.Strings.{Bytes, codes, is_empty}
use openspmregistry.Strings.Equality.{eq_bytes_iff, eq_bytes_refl}
use openspmregistry.Auth.{Credentials}
use openspmregistry.Auth.Oidc.{LoginRequest, Provider, TemplateParser}
use openspmregistry.Auth.Oidc.Password.{
  Claims, Jose, csrf_token_value, login_nonce, shared_encryption_key, second, login_claims,
  encrypt_token, check_claims, verify_token,
}

-- The claims of a token that is accepted at a time.
abbrev pub Current : ℕ → Bytes → Claims → Type 0
Current now value claims =
    (claims.subject ≡ login_nonce)
    × (now ≤ claims.expiry * second)
    × (is_empty value ≡ false)
    × (claims.value ≡ value)

check_claims_iff :
    (now : ℕ) (value : Bytes) (claims : Claims)
    → (check_claims now value claims ≡ ok tt) ↔ Current now value claims
unfolding check_claims
check_claims_iff now value claims =
    ground (arith, eq_bytes_iff claims.subject login_nonce, eq_bytes_iff claims.value value)

module _ (jose : Jose) where
  -- A token is accepted at a time exactly if the key of sixteen zero bytes decrypts it to claims with
  -- the subject of a login, the value, and an expiry that is not over.
  pub verify_token_iff :
      (now : ℕ) (token value : Bytes)
      → (verify_token jose now token value ≡ ok tt) ↔ (
          (claims : Claims) × (jose.decrypt shared_encryption_key token ≡ ok claims)
          × Current now value claims)
  unfolding verify_token
  verify_token_iff now token value = (
    λ success.
        let (claims, decrypted, checked) =
          >>=-eq-ok (jose.decrypt shared_encryption_key token) (check_claims now value) success in
        (claims, decrypted, (check_claims_iff now value claims).0 checked),
    λ (claims, decrypted, current). rw decrypted ((check_claims_iff now value claims).1 current),
  )

  -- Decryption undoes encryption.
  abbrev pub Decrypts : Type 0
  Decrypts =
      (claims : Claims) (token : Bytes)
      → jose.encrypt shared_encryption_key claims ≡ ok token
      → jose.decrypt shared_encryption_key token ≡ ok claims

  expired :
      (now later : ℕ)
      → now + 300 * second < later
      → check_claims later csrf_token_value (login_claims now csrf_token_value)
        ≡ err (codes "token expired")
  unfolding check_claims login_claims
  expired now later h = ground (arith, eq_bytes_refl login_nonce)

  -- The token of a login form that is made at a time is accepted until 299 seconds later at least,
  -- and is refused as expired when more than 300 seconds have passed.
  pub verify_token-encrypt_token :
      (decrypts : Decrypts) (now later : ℕ) (token : Bytes)
      → encrypt_token jose now csrf_token_value ≡ ok token
      → (later ≤ now + 299 * second → verify_token jose later token csrf_token_value ≡ ok tt)
        × (now + 300 * second < later
            → verify_token jose later token csrf_token_value ≡ err (codes "token expired"))
  unfolding encrypt_token verify_token login_claims
  verify_token-encrypt_token decrypts now later token made =
      let decrypted = decrypts (login_claims now csrf_token_value) token made in
      (
        λ early. (verify_token_iff later token csrf_token_value).1 (
          login_claims now csrf_token_value,
          decrypted,
          (refl, omega (arith, early), refl, refl),
        ),
        λ late. rw (verify_token, decrypted) (expired now later late),
      )

module _ (jose : Jose) (credentials : Credentials) (provider : Provider)
    (parser : Option TemplateParser) where
  -- A login with a user name and a password that the provider accepts, from a form whose token is
  -- accepted.
  abbrev pub LoggedIn : ℕ → LoginRequest → Bytes → Type 0
  LoggedIn now r id_token =
      (username : Bytes) × (password : Bytes) × (credentials.basic_auth r.authorization
        ≡ some (username, password))
      × (is_empty r.csrf_token ≡ false)
      × (verify_token jose now r.csrf_token csrf_token_value ≡ ok tt)
      × (provider.password_credentials_token username password ≡ ok (some id_token))
