-- ===== src/Routing.antt =====
-- main.go: the choice of the storage, the routes and the dispatcher; the routes of
-- middleware/authenticator.go.
pub mod Dispatch
pub mod Start
use openspmregistry.Prelude.{
  ℕ, Bool, true, false, not, ◌&&◌, Option, none, some, List, [], ◌∷◌, ◌++◌, if◌then◌else◌, ◌==◌,
}
use openspmregistry.Strings.{Bytes, codes, eq_bytes, has_prefix, has_suffix}
use openspmregistry.Config.{ServerConfig}
use openspmregistry.Auth.{
  Authenticator, no_op_authenticator, basic_authenticator, oidc_authenticator_code,
  oidc_authenticator_password, create_authenticator,
}

-- The type of the repository in the configuration.
pub data RepoType : Type 0 where
  file_repository maven_repository s3_repository unsupported_repository : RepoType

unfoldable pub repo_type : Bytes → RepoType
unfolding eq_bytes
repo_type kind =
    if eq_bytes kind (codes "file")
    then file_repository
    else if eq_bytes kind (codes "maven")
    then maven_repository
    else if eq_bytes kind (codes "s3")
    then s3_repository
    else unsupported_repository

-- The methods of package controller that are registered, and Callback and Login of an authenticator.
pub data Handler : Type 0 where
  global_collection_action scope_collection_action login_action list_action download_or_info
        fetch_manifest_action lookup_action publish_action main_action static_action
        open_api_spec_action docs_action callback_handler login_handler :
      Handler

-- A pattern of http.ServeMux with its handler, which is behind the authentication or not. The
-- authentication takes the credentials from the query or not.
pub record Route : Type 0 where
  pub pattern : Bytes
  pub handler : Handler
  pub authenticated : Bool
  pub allow_auth_query_param : Bool

abbrev public_route : Bytes → Handler → Route
public_route pattern handler = record {
  pattern = pattern;
  handler = handler;
  authenticated = false;
  allow_auth_query_param = false;
}

abbrev authorized_route : Bytes → Handler → Route
authorized_route pattern handler = record {
  pattern = pattern;
  handler = handler;
  authenticated = true;
  allow_auth_query_param = false;
}

abbrev collection_route : ServerConfig → Bytes → Handler → Route
collection_route c pattern handler =
    if c.package_collections.public_read then public_route pattern handler else record {
      pattern = pattern;
      handler = handler;
      authenticated = true;
      allow_auth_query_param = c.package_collections.allow_auth_query_param;
    }

-- the routes of collectionMux
unfoldable pub collection_routes : ServerConfig → List Route
collection_routes c =
    if c.package_collections.enabled
    then collection_route c (codes "GET /collection") global_collection_action
      ∷ collection_route c (codes "GET /collection/{scope}") scope_collection_action
      ∷ []
    else []

-- `NewAuthentication`: the routes of an authenticator with OpenID Connect. The one by password has no
-- AuthCodeURL, which the route of the callback asks for.
unfoldable pub authentication_routes : Authenticator → List Route
authentication_routes no_op_authenticator = []
authentication_routes (basic_authenticator users) = []
authentication_routes oidc_authenticator_code =
    public_route (codes "GET /callback") callback_handler
    ∷ public_route (codes "GET /login") login_handler
    ∷ []
authentication_routes oidc_authenticator_password =
    public_route (codes "GET /login") login_handler ∷ []

-- the routes that are the same for all configurations
unfoldable pub controller_routes : List Route
controller_routes =
    authorized_route (codes "POST /login") login_action
    ∷ authorized_route (codes "GET /{scope}/{package}") list_action
    ∷ authorized_route (codes "GET /{scope}/{package}/{version}") download_or_info
    ∷ authorized_route (codes "GET /{scope}/{package}/{version}/Package.swift")
        fetch_manifest_action
    ∷ authorized_route (codes "GET /identifiers") lookup_action
    ∷ authorized_route (codes "PUT /{scope}/{package}/{version}") publish_action
    ∷ public_route (codes "GET /") main_action
    ∷ public_route (codes "GET /favicon.ico") static_action
    ∷ public_route (codes "GET /favicon.svg") static_action
    ∷ public_route (codes "GET /output.css") static_action
    ∷ public_route (codes "GET /openapi.yaml") open_api_spec_action
    ∷ public_route (codes "GET /docs") docs_action
    ∷ []

-- the routes of registryMux
unfoldable pub registry_routes : ServerConfig → List Route
unfolding authentication_routes controller_routes create_authenticator
registry_routes c = authentication_routes (create_authenticator c) ++ controller_routes

-- The function that is registered for a version.
unfoldable pub downloads : Bytes → Bool
unfolding has_suffix
downloads path = has_suffix path (codes ".zip")

-- The routes that the dispatcher chooses among, by the path.
unfoldable pub dispatch : ServerConfig → Bytes → List Route
unfolding has_prefix collection_routes registry_routes
dispatch c path =
    if has_prefix path (codes "/collection") then collection_routes c else registry_routes c
