-- ===== src/Auth/Oidc/Callback.antt =====
-- When the provider's redirect is answered with a token.
use openspmregistry.Prelude.{
  ◌≡◌, arith, refl, sym, ap, ◌∙◌, Bool, true, false, not, Result, ◌⊎◌, inl, inr, Option, none, some,
  ok, err, if◌then◌else◌,
}
use openspmregistry.Strings.{Bytes, codes, is_empty, eq_bytes}
use openspmregistry.Strings.Equality.{eq_bytes_iff, eq_bytes_complete}
use openspmregistry.Http.{ResponseWriter}
use openspmregistry.Auth.Oidc.{LoginRequest, Provider, TemplateParser, write_token_output}
use openspmregistry.Auth.Oidc.Code.{unauthorized, exchanged, checked_state, callback}

module _ (provider : Provider) (parser : Option TemplateParser) (r : LoginRequest)
    (w : ResponseWriter) where
  abbrev pub code : Bytes
  code = r.query (codes "code")

  abbrev pub state : Bytes
  state = r.query (codes "state")

  -- The redirect carries the state of the cookie, and its code yields the token.
  abbrev pub Accepted : Bytes → Type 0
  Accepted id_token =
      (is_empty state ≡ false)
      × (r.cookie (codes "state") ≡ some state)
      × (is_empty code ≡ false)
      × (provider.exchange code ≡ ok (some id_token))

  -- A response that shows the token of an accepted redirect, or that refuses one that is none.
  abbrev pub Decided : ResponseWriter → Type 0
  Decided response =
      ((id_token : Bytes) × Accepted id_token × (response ≡ write_token_output id_token parser w))
      ⊎ ((message : Bytes) × ((id_token : Bytes) → ¬ Accepted id_token)
          × (response ≡ unauthorized message w))

  -- A guard that refuses only what is not accepted.
  guard-Decided :
      (guard : Bool) (message : Bytes) (otherwise : ResponseWriter)
      → ((id_token : Bytes) → guard ≡ true → ¬ Accepted id_token)
      → (guard ≡ false → Decided otherwise)
      → Decided (if guard then unauthorized message w else otherwise)
  guard-Decided true message otherwise h k = inr (message, (λ id_token. h id_token refl), refl)
  guard-Decided false message otherwise h k = k refl

  refused :
      (message : Bytes)
      → ((id_token : Bytes) → ¬ Accepted id_token)
      → Decided (unauthorized message w)
  refused message h = inr (message, h, refl)

  exchanged-Decided :
      is_empty state ≡ false
      → r.cookie (codes "state") ≡ some state
      → is_empty code ≡ false
      → (result : Result (Option Bytes)) → provider.exchange code ≡ result
      → Decided (exchanged provider parser result w)
  unfolding exchanged
  exchanged-Decided named same coded (err message) e =
      refused _ (λ id_token (_, _, _, success). cc (e, success))
  exchanged-Decided named same coded (ok none) e =
      refused _ (λ id_token (_, _, _, success). cc (e, success))
  exchanged-Decided named same coded (ok (some id_token)) e =
      inl (id_token, (named, same, coded, e), refl)

  checked_state-Decided :
      is_empty state ≡ false
      → (cookie : Option Bytes) → r.cookie (codes "state") ≡ cookie
      → Decided (checked_state provider parser r cookie w)
  unfolding checked_state
  checked_state-Decided named none e = refused _ (λ id_token (_, same, _, _). cc (e, same))
  checked_state-Decided named (some value) e =
      guard-Decided (not (eq_bytes state value)) _ _
        (λ id_token other (_, same, _, _).
          ground (arith, eq_bytes_complete {s = state} {t = value} (cc (e, same))))
        (λ equal.
          let same : state ≡ value = ground (arith, eq_bytes_iff state value) in
          guard-Decided (is_empty code) _ _
            (λ id_token uncoded (_, _, coded, _). cc (uncoded, coded))
            (λ coded.
              exchanged-Decided named (e ∙ ap (λ s. some s) (sym same)) coded
                (provider.exchange code) refl))

  -- The redirect from the provider is answered with a token exactly if its state is not empty and is
  -- that of the cookie and the provider exchanges its code, which is not empty, for that token. Every
  -- other redirect is answered with 401.
  pub callback-Decided : Decided (callback provider parser r w)
  unfolding callback
  callback-Decided =
      guard-Decided (is_empty state) _ _ (λ id_token unnamed (named, _, _, _). cc (unnamed, named))
        (λ named. checked_state-Decided named (r.cookie (codes "state")) refl)
