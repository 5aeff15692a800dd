-- ===== src/Auth/Gate.antt =====
-- Who passes the authentication.
use openspmregistry.Prelude.{
  ◌≡◌, refl, ◌↔◌, ◌⊎◌, inl, inr, Bool, false, ◌&&◌, some, List, [], ◌∷◌, Result, ok, err, arith,
  Bool-cases, Option-cases, sym, ap, ◌∙◌,
}
use openspmregistry.Strings.{Bytes, eq_bytes, is_empty}
use openspmregistry.Strings.Equality.{eq_bytes_iff}
use openspmregistry.Config.{User}
use openspmregistry.Http.{
  ResponseWriter, fresh, status_of, http_error, write, write_header, set_header,
}
use openspmregistry.Controller.Request.{Request}
use openspmregistry.Auth.{
  Credentials, find_user, authenticate_basic, effective_authorization, authenticate,
  write_authorization_header_error,
}

-- A configured user with this name and the hash of this password.
pub data Configured (credentials : Credentials) (username password : Bytes)
    : List User → Type 0 where
  first :
      {user : User} {users : List User}
      → user.username ≡ username
      → user.password ≡ credentials.hash_password password
      → Configured credentials username password (user ∷ users)
  further :
      {user : User} {users : List User}
      → Configured credentials username password users
      → Configured credentials username password (user ∷ users)

module _ (credentials : Credentials) where
  found_sound :
      (users : List User) (username password token : Bytes)
      → find_user credentials users username password ≡ ok token
      → Configured credentials username password users
        × (token ≡ credentials.hash_password password)
  unfolding find_user
  found_sound [] username password token h = cc
  found_sound (user ∷ users) username password token h =
      elim (Bool-cases (
        eq_bytes user.password (credentials.hash_password password)
        && eq_bytes user.username username)) [
          | inl match_ ↦ (
            first (ground (arith, eq_bytes_iff user.username username))
                (ground (arith, eq_bytes_iff user.password (credentials.hash_password password))),
            ground (arith, h),
          )
          | inr other ↦
              let (c, e) = found_sound users username password token (rw other at h) in
              (further c, e)
        ]

  found_complete :
      (users : List User) (username password : Bytes)
      → Configured credentials username password users
      → find_user credentials users username password ≡ ok (credentials.hash_password password)
  unfolding find_user
  found_complete [] username password c = elim c [ ]
  found_complete (user ∷ users) username password (first name pass) = ground (
    arith,
    eq_bytes_iff user.username username,
    eq_bytes_iff user.password (credentials.hash_password password),
  )
  found_complete (user ∷ users) username password (further c) =
      ground (arith, found_complete users username password c)

  -- Basic authentication accepts exactly an Authorization header that is not empty and has the name
  -- and the password of a configured user, the password by its hash, which is the token.
  pub authenticate_basic_iff :
      (users : List User) (authorization token : Bytes)
      → (authenticate_basic credentials users authorization ≡ ok token) ↔ (
          (is_empty authorization ≡ false)
          × ((username : Bytes) × (password : Bytes) × (credentials.basic_auth authorization
                ≡ some (username, password))
              × (token ≡ credentials.hash_password password)
              × Configured credentials username password users))
  unfolding authenticate_basic
  authenticate_basic_iff users authorization token = (
    λ h. elim (Bool-cases (is_empty authorization)) [
      | inl empty ↦ absurd (cc (rw (authenticate_basic, empty) at h))
      | inr full ↦ elim (Option-cases (credentials.basic_auth authorization)) [
        | inl none_read ↦ absurd (cc (rw (authenticate_basic, full, none_read) at h))
        | inr ((username, password), read) ↦
            let (c, e) =
              found_sound users username password token
                (rw (authenticate_basic, full, read) at h) in
            (full, (username, password, read, e, c))
      ]
    ],
    λ (full, (username, password, read, e, c)).
        rw (authenticate_basic, full, read)
          (found_complete users username password c ∙ ap (λ t. ok t) (sym e)),
  )

refused_status : (e : Bytes) → status_of (write_authorization_header_error e fresh) ≡ some 401
unfolding write_authorization_header_error http_error write write_header set_header
refused_status e = refl

-- The query parameter counts only where it is allowed and the request has no Authorization header.
pub effective_authorization-kept :
    (credentials : Credentials) (allow : Bool) (r : Request)
    → (allow ≡ false) ⊎ (is_empty r.authorization ≡ false)
    → effective_authorization credentials allow r ≡ r.authorization
unfolding effective_authorization
effective_authorization-kept credentials allow r (inl forbidden) = ground arith
effective_authorization-kept credentials allow r (inr full) = ground arith

module _ {S : Type 0} (credentials : Credentials)
    (auth : Request → ResponseWriter → Result Bytes × ResponseWriter) where
  -- Whatever the handler is: a request that the authenticator refuses without a response of its own
  -- reaches no handler, is answered with 401 and changes nothing.
  pub authenticate-refused :
      (next : Request → ResponseWriter → S → ResponseWriter × S) (allow : Bool) (r : Request)
      (s : S) (e : Bytes)
      → auth (record r { authorization = effective_authorization credentials allow r }) fresh
        ≡ (err e, fresh)
      → ((authenticate credentials auth next allow r fresh s).1 ≡ s)
        × (status_of ((authenticate credentials auth next allow r fresh s).0) ≡ some 401)
  unfolding authenticate
  authenticate-refused next allow r s e refused =
      (rw (authenticate, refused) refl, rw (authenticate, refused) (refused_status e))
