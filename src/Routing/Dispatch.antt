-- ===== src/Routing/Dispatch.antt =====
-- Which routes are behind the authentication, and which paths do not reach the registry.
use openspmregistry.Prelude.{
  ◌≡◌, refl, ◌⊎◌, inl, inr, Bool, true, false, List, [], ◌++◌, All, All-append, if◌then◌else◌,
}
use openspmregistry.Strings.{Bytes, codes, has_prefix}
use openspmregistry.Strings.Equality.{has_prefix-append}
use openspmregistry.Config.{ServerConfig}
use openspmregistry.Auth.{
  Authenticator, no_op_authenticator, basic_authenticator, oidc_authenticator_code,
  oidc_authenticator_password, create_authenticator,
}
use openspmregistry.Routing.{
  Handler, login_action, main_action, static_action, open_api_spec_action, docs_action,
  callback_handler, login_handler, authentication_routes, controller_routes, Route,
  collection_routes, registry_routes, dispatch,
}

-- The handlers that call the storage.
abbrev pub uses_storage : Handler → Bool
uses_storage login_action = false
uses_storage main_action = false
uses_storage static_action = false
uses_storage open_api_spec_action = false
uses_storage docs_action = false
uses_storage callback_handler = false
uses_storage login_handler = false
uses_storage _ = true

-- A route to the storage is behind the authentication, unless the configuration lets everyone read
-- collections.
abbrev pub Guarded : ServerConfig → Route → Type 0
Guarded c route =
    uses_storage route.handler ≡ true
    → (route.authenticated ≡ true) ⊎ (c.package_collections.public_read ≡ true)

either :
    (guard : Bool) (opened guarded : Route)
    → guarded.authenticated ≡ true
    → ((if guard then opened else guarded).authenticated ≡ true) ⊎ (guard ≡ true)
either true opened guarded h = inr refl
either false opened guarded h = inl h

if-All :
    (P : Route → Type 0) (b : Bool) (xs ys : List Route)
    → All P xs
    → All P ys
    → All P (if b then xs else ys)
if-All P true xs ys hx hy = hx
if-All P false xs ys hx hy = hy

collection_routes-Guarded : (c : ServerConfig) → All (Guarded c) (collection_routes c)
unfolding collection_routes
collection_routes-Guarded c =
    let public = c.package_collections.public_read in
    if-All _ c.package_collections.enabled _ []
      (λ used. either public _ _ refl, (λ used. either public _ _ refl, tt)) tt

controller_routes-Guarded : (c : ServerConfig) → All (Guarded c) controller_routes
unfolding controller_routes
controller_routes-Guarded c = (
  λ used. inl refl,
  (
    λ used. inl refl,
    (
      λ used. inl refl,
      (
        λ used. inl refl,
        (
          λ used. inl refl,
          (
            λ used. inl refl,
            (
              λ used. cc used,
              (
                λ used. cc used,
                (λ used. cc used, (λ used. cc used, (λ used. cc used, (λ used. cc used, tt)))),
              ),
            ),
          ),
        ),
      ),
    ),
  ),
)

authentication_routes-Guarded :
    (c : ServerConfig) (a : Authenticator) → All (Guarded c) (authentication_routes a)
unfolding authentication_routes
authentication_routes-Guarded c no_op_authenticator = tt
authentication_routes-Guarded c (basic_authenticator users) = tt
authentication_routes-Guarded c oidc_authenticator_code = (λ used. cc used, (λ used. cc used, tt))
authentication_routes-Guarded c oidc_authenticator_password = (λ used. cc used, tt)

registry_routes-Guarded : (c : ServerConfig) → All (Guarded c) (registry_routes c)
unfolding registry_routes
registry_routes-Guarded c =
    All-append (Guarded c) (authentication_routes (create_authenticator c)) controller_routes
      (authentication_routes-Guarded c (create_authenticator c)) (controller_routes-Guarded c)

-- Whatever the path, the dispatcher chooses among routes of which those that use the storage are
-- behind the authentication, unless the configuration makes collections public. A path that begins
-- with "/collection", also one of a package whose scope begins so, reaches no route of the registry.
pub dispatch-Guarded :
    (c : ServerConfig) (path : Bytes)
    → All (Guarded c) (dispatch c path)
      × (dispatch c (codes "/collection" ++ path) ≡ collection_routes c)
unfolding dispatch
dispatch-Guarded c path = (
  if-All _ (has_prefix path (codes "/collection")) _ _ (collection_routes-Guarded c)
      (registry_routes-Guarded c),
  rw (has_prefix-append (codes "/collection") path) refl,
)
