-- ===== src/Tests/BackendTests.antt =====
-- The storages in a Maven repository and in a directory, the routes, and the end of a publish: the
-- theorems at concrete inputs.
use openspmregistry.Prelude.{
  ℕ, ◌≡◌, ◌≢◌, arith, refl, ◌++◌, true, false, none, some, [], ◌∷◌, ok, All,
}
use openspmregistry.Strings.{Bytes, codes, eq_bytes, join, has_prefix}
use openspmregistry.Strings.Paths.{but_last}
use openspmregistry.Strings.Paths.Plain.{Plain}
use openspmregistry.Models.Element.{UploadElement}
use openspmregistry.Files.Escape.{climbing, path_folder-climbing}
use openspmregistry.Http.{fresh}
use openspmregistry.Sort.Insertion.{by_insertion}
use openspmregistry.Maven.Client
use openspmregistry.Maven.Client.{HttpClient, Formats, Response, Index, fetched, packages_of_index}
use openspmregistry.Maven.Metadata.{XmlFormat, get_metadata_path, update_metadata}
use openspmregistry.Maven.Metadata.Kept.{Updated, update_metadata-Updated}
use openspmregistry.Maven.Access.{Packages, update_spm_registry_index}
use openspmregistry.Maven.Access.Indexed.{
  Extends, Replaces, answer, update_spm_registry_index-Extends,
}
use openspmregistry.Files.Access.{path_folder}
use openspmregistry.Routing.{dispatch, collection_routes}
use openspmregistry.Routing.Dispatch.{Guarded, dispatch-Guarded}
use openspmregistry.Routing.Start.{
  Loader, default_root, load_server_config, load_server_config-open,
}
use openspmregistry.Config.{ServerRoot}
use openspmregistry.Auth.{no_op_authenticator, create_authenticator}
use openspmregistry.Controller.CallInfo.{log_uri}
use openspmregistry.Controller.CallInfo.Masked.{next, log_uri-masks}
use openspmregistry.Controller.Publish.{publish_action}
use openspmregistry.Controller.Publish.Answered.{IsAnswered, publish_action-IsAnswered}
use openspmregistry.Tests.Memory.{memory, platform}
use openspmregistry.Tests.ControllerTests.{config, bad_request}
use openspmregistry.Tests.ServerTests.{maven}

-- a Maven server that holds what was uploaded last
abbrev pub answering : Bytes → Response
answering text = record { status = 200; header = λ name. []; body = ok text }

abbrev pub server : HttpClient Bytes
server = record {
  new_request = λ url. ok tt;
  head = λ call s. ok (answering s);
  get = λ call s. ok (answering s);
  put = λ call s. (ok (answering []), call.body);
  delete = λ call s. (ok (answering []), []);
}

abbrev pub formats : Formats
formats = record {
  base64 = λ text. text;
  decode_index =
      λ text. ok (record { scopes = []; packages = some ((codes "s", codes "n" ∷ []) ∷ []) });
  marshal_packages = λ packages. ok (codes "{}");
}

abbrev pub xml : XmlFormat
xml = record {
  parse_metadata = λ text. ok (record {
    group_id = codes "s";
    artifact_id = codes "n";
    latest = codes "1.0.0";
    release = codes "1.0.0";
    versions = codes "1.0.0" ∷ [];
    last_updated = [];
  });
  encode = λ metadata. ok metadata.latest;
}

update_metadata-Updated_example :
    Updated server platform maven formats xml by_insertion [] none
      (codes "s")
      (codes "n")
      (codes "2.0.0")
      (codes "x")
      (Client.get server platform maven formats none
        (get_metadata_path (codes "s") (codes "n"))
        (codes "x"))
      (update_metadata server platform maven formats xml by_insertion [] none
        (codes "s")
        (codes "n")
        (codes "2.0.0")
        (codes "x"))
update_metadata-Updated_example =
    update_metadata-Updated server platform maven formats xml by_insertion [] none (codes "s")
      (codes "n") (codes "2.0.0") (codes "x")

index_answered :
    answer server platform maven formats by_insertion none (codes "s") (codes "m") (codes "x")
    ≡ fetched (answering (codes "x"))
unfolding Client.get
index_answered = refl

abbrev index : Index
index = record { scopes = []; packages = some ((codes "s", codes "n" ∷ []) ∷ []) }

update_spm_registry_index-Extends_example :
    (new : Packages) × Extends (packages_of_index index) (codes "s") (codes "m") new
    × Replaces server platform maven formats by_insertion none
        (codes "s")
        (codes "m")
        (codes "x")
        new
        (update_spm_registry_index server platform maven formats by_insertion none
          (codes "s")
          (codes "m")
          (codes "x"))
update_spm_registry_index-Extends_example =
    update_spm_registry_index-Extends server platform maven formats by_insertion none (codes "s")
      (codes "m") (codes "x") (answering (codes "x")) (codes "x") index index_answered refl refl
      refl

-- a name of one letter
letter-Plain : (c : ℕ) → c ≢ b'/' → c ≢ b'.' → Plain (c ∷ [])
unfolding eq_bytes
letter-Plain c no_slash no_dot = record {
  full = refl;
  not_dot = ground arith;
  not_dots = ground arith;
  no_slash = (no_slash, tt);
}

abbrev climber : UploadElement
climber = record {
  scope = codes "s";
  name = codes "n";
  version = climbing (codes "x");
  mime_type = [];
  filename_overwrite = [];
  ext_overwrite = [];
}

path_folder-climbing_example :
    path_folder platform (join (codes "a" ∷ codes "b" ∷ []) (codes "/")) climber
    ≡ join (but_last (codes "a" ∷ codes "b" ∷ []) ++ (codes "x" ∷ [])) (codes "/")
path_folder-climbing_example =
    path_folder-climbing platform (codes "a") (codes "b" ∷ []) climber (codes "x")
      (
        letter-Plain b'a' (λ e. omega arith) (λ e. omega arith),
        (letter-Plain b'b' (λ e. omega arith) (λ e. omega arith), tt),
      )
      (letter-Plain b's' (λ e. omega arith) (λ e. omega arith))
      (letter-Plain b'n' (λ e. omega arith) (λ e. omega arith))
      (letter-Plain b'x' (λ e. omega arith) (λ e. omega arith)) refl

dispatch-Guarded_example :
    All (Guarded config) (dispatch config (codes "/identifiers"))
    × (dispatch config (codes "/collection" ++ codes "/identifiers") ≡ collection_routes config)
dispatch-Guarded_example = dispatch-Guarded config (codes "/identifiers")

publish_action-IsAnswered_example :
    IsAnswered ((publish_action memory platform config bad_request fresh []).0)
publish_action-IsAnswered_example =
    publish_action-IsAnswered memory platform config bad_request fresh []

-- a configuration file that only names the storage
abbrev loader : Loader
loader = record {
  there = λ path. false;
  read_file = λ path. ok (codes "server:\n  repo:\n    type: file\n");
  unmarshal = λ root text. ok (record root {
    server = record root.server { repo = record root.server.repo { kind = codes "file" } };
  });
}

loaded : ServerRoot
loaded = record default_root {
  server = record default_root.server {
    repo = record default_root.server.repo { kind = codes "file" };
  };
}

load_server_config-open_example :
    (loaded.server.auth.enabled ≡ true) × (create_authenticator loaded.server ≡ no_op_authenticator)
unfolding loaded load_server_config
load_server_config-open_example =
    load_server_config-open loader [] (codes "server:\n  repo:\n    type: file\n") loaded
      (λ t. Unit {0}) (λ before after t silent read. ground arith) refl tt refl

-- a request of a collection with credentials, and with another parameter behind them
log_uri-masks_example :
    log_uri (codes "/collection?auth=QmVhcmVy&x=1") ≡ codes "/collection?auth=***&x=1"
unfolding has_prefix
log_uri-masks_example =
    log_uri-masks (codes "/collection?") (codes "QmVhcmVy") (next (codes "x=1")) (ground arith)
      (omega arith)
