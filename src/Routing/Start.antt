-- ===== src/Routing/Start.antt =====
-- main.go: the configuration that the server starts with, and the address that it listens on.
use openspmregistry.Prelude.{
  Bool, true, false, [], ◌++◌, ◌≡◌, refl, Result, ok, ◌>>=◌, if◌then◌else◌,
}
use openspmregistry.Int.{pos}
use openspmregistry.Strings.{Bytes, codes, is_empty, eq_bytes}
use openspmregistry.Strings.Numbers.{itoa}
use openspmregistry.Config.{ServerRoot, ServerConfig}
use openspmregistry.Auth.{no_op_authenticator, create_authenticator}

-- Functions of the packages os and yaml.
pub record Loader : Type 0 where
  -- os.Stat succeeds
  pub there : Bytes → Bool
  pub read_file : Bytes → Result Bytes
  -- yaml.Unmarshal of a text into a configuration
  pub unmarshal : ServerRoot → Bytes → Result ServerRoot

-- the configuration before the file is read: authentication is enabled, all else is empty
abbrev pub default_root : ServerRoot
default_root = record {
  server = record {
    hostname = [];
    port = pos 0;
    certs = record { cert_file = []; key_file = [] };
    repo = record {
      path = [];
      kind = [];
      maven = record {
        base_url = [];
        group_id_prefix = [];
        auth_mode = [];
        username = [];
        password = [];
        timeout = pos 0;
      };
      s3 = record {
        bucket = [];
        region = [];
        prefix = [];
        profile = [];
        endpoint = [];
        use_path_style = false;
      };
    };
    list_page_size = pos 0;
    publish = record { max_size = pos 0 };
    auth = record {
      name = [];
      kind = [];
      enabled = true;
      client_id = [];
      client_secret = [];
      issuer = [];
      grant_type = [];
      users = [];
    };
    tls_enabled = false;
    package_collections = record {
      enabled = false;
      require_package_json = false;
      public_read = false;
      allow_auth_query_param = false;
    };
  };
}

-- the file that is read, by the flag
unfoldable pub config_file : Loader → Bytes → Bytes
config_file loader config_path =
    if is_empty config_path
    then (if loader.there (codes "config.local.yml")
        then codes "config.local.yml"
        else codes "config.yml")
    else config_path

unfoldable pub load_server_config : Loader → Bytes → Result ServerRoot
unfolding config_file
load_server_config loader config_path =
    loader.read_file (config_file loader config_path) >>= loader.unmarshal default_root

-- the address that the server listens on
unfoldable pub listen_address : ServerConfig → Bytes
listen_address c =
    if is_empty c.hostname
    then codes ":" ++ itoa c.port
    else c.hostname ++ (codes ":" ++ itoa c.port)

-- A server whose configuration file says nothing of authentication starts with the authenticator
-- that admits every request, although authentication is enabled in its configuration. What is
-- relied on is that yaml.Unmarshal keeps the fields of a part that the text does not mention.
pub load_server_config-open :
    (loader : Loader) (config_path text : Bytes) (root : ServerRoot) (IsSilent : Bytes → Type 0)
    → ((before after : ServerRoot) (t : Bytes)
        → IsSilent t
        → loader.unmarshal before t ≡ ok after
        → after.server.auth ≡ before.server.auth)
    → loader.read_file (config_file loader config_path) ≡ ok text
    → IsSilent text
    → load_server_config loader config_path ≡ ok root
    → (root.server.auth.enabled ≡ true) × (create_authenticator root.server ≡ no_op_authenticator)
unfolding load_server_config create_authenticator eq_bytes
load_server_config-open loader config_path text root IsSilent keeps reads silent loads =
    let read : loader.unmarshal default_root text ≡ ok root = rw reads at loads in
    rw (keeps default_root root text silent read) (refl, refl)
