-- ===== src/Config.antt =====
-- config/server.go, and `BaseUrl` of utils/utils.go.
use openspmregistry.Prelude.{Bool, List, ◌++◌, if◌then◌else◌}
use openspmregistry.Int.{ℤ, pos, eq_int}
use openspmregistry.Strings.{Bytes, codes}
use openspmregistry.Strings.Numbers.{itoa}

pub record User : Type 0 where
  pub username : Bytes
  pub password : Bytes

pub record AuthConfig : Type 0 where
  pub name : Bytes
  pub kind : Bytes
  pub enabled : Bool
  pub client_id : Bytes
  pub client_secret : Bytes
  pub issuer : Bytes
  pub grant_type : Bytes
  pub users : List User

pub record MavenConfig : Type 0 where
  pub base_url : Bytes
  pub group_id_prefix : Bytes
  pub auth_mode : Bytes
  pub username : Bytes
  pub password : Bytes
  pub timeout : ℤ

pub record S3Config : Type 0 where
  pub bucket : Bytes
  pub region : Bytes
  pub prefix : Bytes
  pub profile : Bytes
  pub endpoint : Bytes
  pub use_path_style : Bool

pub record PackageCollectionsConfig : Type 0 where
  pub enabled : Bool
  pub require_package_json : Bool
  pub public_read : Bool
  pub allow_auth_query_param : Bool

pub record Certs : Type 0 where
  pub cert_file : Bytes
  pub key_file : Bytes

pub record PublishConfig : Type 0 where
  pub max_size : ℤ

-- `Repo`
pub record RepoConfig : Type 0 where
  pub path : Bytes
  pub kind : Bytes
  pub maven : MavenConfig
  pub s3 : S3Config

pub record ServerConfig : Type 0 where
  pub hostname : Bytes
  pub port : ℤ
  pub certs : Certs
  pub repo : RepoConfig
  pub list_page_size : ℤ
  pub publish : PublishConfig
  pub auth : AuthConfig
  pub tls_enabled : Bool
  pub package_collections : PackageCollectionsConfig

pub record ServerRoot : Type 0 where
  pub server : ServerConfig

-- utils.BaseUrl
unfoldable pub base_url : ServerConfig → Bytes
base_url c =
    if c.tls_enabled
    then (if eq_int c.port (pos 443)
        then codes "https://" ++ c.hostname
        else codes "https://" ++ (c.hostname ++ (codes ":" ++ itoa c.port)))
    else if eq_int c.port (pos 80)
    then codes "http://" ++ c.hostname
    else codes "http://" ++ (c.hostname ++ (codes ":" ++ itoa c.port))
