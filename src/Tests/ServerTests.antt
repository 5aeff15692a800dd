-- ===== src/Tests/ServerTests.antt =====
-- Handlers that read, the authentication and the Maven backend: the theorems at concrete inputs.
use mathlib.Core.List.{Permᴰ}
use openspmregistry.Prelude.{
  ◌≡◌, refl, ◌↔◌, true, false, Option, none, some, List, [], ◌∷◌, Result, ok, err, All,
}
use openspmregistry.Int.{pos}
use openspmregistry.Strings.{Bytes, is_empty, codes, eq_bytes, has_prefix, split}
use openspmregistry.Strings.Numbers.{atoi}
use openspmregistry.Config.{MavenConfig, User}
use openspmregistry.Http.{ResponseWriter, fresh, status_of}
use openspmregistry.Sort.{Ranked}
use openspmregistry.Sort.Insertion.{by_insertion}
use openspmregistry.Models.Version.{parse_version}
use openspmregistry.Models.Element.{ListElement}
use openspmregistry.Models.Release.{Release}
use openspmregistry.Repo.{Repo}
use openspmregistry.Controller.Request.{Request}
use openspmregistry.Controller.Headers.{
  check_headers_enforce, check_values, check_value, check_parts, check_version, check_media_type,
}
use openspmregistry.Controller.Listing.{listed, list_elements}
use openspmregistry.Controller.Listing.Listed.{
  VersionParses, NotOlderElement, element_of, list_elements-Ranked,
}
use openspmregistry.Controller.Reading.{Serving}
use openspmregistry.Auth.{Credentials, authenticate_basic, authenticate}
use openspmregistry.Auth.Gate.{Configured, authenticate_basic_iff, authenticate-refused}
use openspmregistry.Maven.Reader.{RangeServer, RangeReader, no_error}
use openspmregistry.Tests.Memory.{Keys, memory, platform}
use openspmregistry.Tests.ControllerTests.{config}

abbrev older : ListElement
older = element_of (codes "s") (codes "n") (codes "1.0.0")

abbrev newer : ListElement
newer = element_of (codes "s") (codes "n") (codes "2.0.0")

-- a storage with one package and the content of every archive
abbrev storage : Repo Keys Bytes
storage = record memory {
  exists = λ ctx e s. true;
  get_reader = λ ctx e s. ok (codes "PK");
  list = λ ctx scope name s. ok (older ∷ newer ∷ []);
}

abbrev marshal_url : Release → Option Bytes
marshal_url r = some r.url

abbrev request : Request
request = record {
  accept = codes "application/vnd.swift.registry.v1+zip" ∷ [];
  authorization = codes "Basic eA==";
  scope = codes "s";
  package_name = codes "n";
  version = codes "1.0.0.zip";
  query = λ name. [];
  multipart = none;
}

versions-Parse : All VersionParses (older ∷ newer ∷ [])
unfolding parse_version
versions-Parse = (
  (record { major = pos 1; minor = pos 0; patch = pos 0; suffix = [] }, refl),
  ((record { major = pos 2; minor = pos 0; patch = pos 0; suffix = [] }, refl), tt),
)

list_elements-Ranked_example :
    (sorted : List ListElement) × (list_elements storage platform config by_insertion marshal_url
        request
        (codes "s")
        (codes "n")
        fresh
        []
      ≡ listed sorted)
    × Permᴰ sorted (older ∷ newer ∷ [])
    × Ranked NotOlderElement sorted
list_elements-Ranked_example =
    list_elements-Ranked storage platform config by_insertion marshal_url request (codes "s")
      (codes "n") fresh [] older (newer ∷ []) refl versions-Parse

abbrev versions : List Bytes
versions = codes "1.0.0" ∷ codes "2.0.0" ∷ []

abbrev serving : Serving
serving = record { now = 0; format_time = λ t. []; serve_content = λ r name date content w. w }

zip_accepted : check_headers_enforce request.accept (codes "zip") ≡ none
unfolding check_headers_enforce check_values check_value check_parts check_version has_prefix split
    atoi check_media_type eq_bytes
zip_accepted = refl

abbrev pub credentials : Credentials
credentials = record {
  hash_password = λ password. password;
  basic_auth = λ authorization. some (codes "u", codes "p");
  decode_base64 = λ text. none;
}

abbrev users : List User
users = record { username = codes "u"; password = codes "p" } ∷ []

authenticate_basic_iff_example :
    (authenticate_basic credentials users (codes "Basic x") ≡ ok (codes "p")) ↔ (
      (is_empty (codes "Basic x") ≡ false)
      × ((username : Bytes) × (password : Bytes) × (credentials.basic_auth (codes "Basic x")
            ≡ some (username, password))
          × (codes "p" ≡ credentials.hash_password password)
          × Configured credentials username password users))
authenticate_basic_iff_example =
    authenticate_basic_iff credentials users (codes "Basic x") (codes "p")

abbrev nobody : Request → ResponseWriter → Result Bytes × ResponseWriter
nobody r w = (err (codes "no"), w)

abbrev handler : Request → ResponseWriter → Keys → ResponseWriter × Keys
handler r w s = (w, codes "x" ∷ s)

authenticate-refused_example :
    ((authenticate credentials nobody handler false request fresh []).1 ≡ [])
    × (status_of ((authenticate credentials nobody handler false request fresh []).0) ≡ some 401)
authenticate-refused_example =
    authenticate-refused credentials nobody handler false request [] (codes "no") refl

abbrev pub maven : MavenConfig
maven = record {
  base_url = [];
  group_id_prefix = codes "com.example";
  auth_mode = [];
  username = [];
  password = [];
  timeout = pos 0;
}

abbrev server : RangeServer Bytes
server = record {
  make_request = ok tt;
  request = λ range. ok (206, codes "body");
  read_body = λ b wanted. (b, (no_error, []));
  close_body = λ b. ok tt;
}

abbrev reader : RangeReader Bytes
reader = record { position = pos 1; size = pos 4; body = some (codes "ody"); closed = false }
