-- ===== src/Tests/ControllerTests.antt =====
-- controller/: the theorems at concrete inputs.
use openspmregistry.Prelude.{
  Option, ℕ, ◌+◌, ◌*◌, ◌≡◌, ◌≢◌, refl, ◌↔◌, inr, arith, true, false, ◌&&◌, none, some, List, [],
  ◌∷◌, take, drop,
}
use openspmregistry.Int.{pos}
use openspmregistry.Strings.{Bytes, codes, eq_bytes}
use openspmregistry.Strings.Equality.{eq_bytes_refl}
use openspmregistry.Config.{ServerConfig}
use openspmregistry.Http.{ResponseWriter, status_of, fresh}
use openspmregistry.Models.Element.{UploadElement, ListElement, new_upload_element}
use openspmregistry.Controller.Request.{Request, Part, Parts, eof, next}
use openspmregistry.Controller.Headers.{HeaderError, check_headers_enforce}
use openspmregistry.Controller.Headers.Accepted.{Accepted, check_headers_enforce_iff}
use openspmregistry.Controller.Pages.{paginate_elements, done, panic}
use openspmregistry.Controller.Pages.Windows.{paginate_elements-window, paginate_elements-panic}
use openspmregistry.Controller.Names.{
  scope_matches, package_matches, dash, dash_or_underscore, name_matches, alphanumeric,
}
use openspmregistry.Controller.Names.Language.{NameOf, names_iff}
use openspmregistry.Controller.Publish.{
  Target, Received, returned, received, manifest_element, package_json_element, receive_parts,
  finish, publish_action, store_elements, validate_upload_type,
}
use openspmregistry.Controller.Publish.Cleanup.{AbsentFrom, StoredBy, here}
use openspmregistry.Controller.Publish.Outcomes.{archive_of, publish_again, publish_action-refused}
use openspmregistry.Controller.Publish.Unarchived.{NoArchive, publish_without_archive}
use openspmregistry.Controller.Request.{write_error}
use openspmregistry.Routing.Start.{default_root}
use openspmregistry.Tests.Memory.{Keys, key_of, has, memory, memory-RemoveLaws, platform}

abbrev pub config : ServerConfig
config = record default_root.server {
  hostname = codes "h";
  port = pos 443;
  list_page_size = pos 2;
  auth = record default_root.server.auth { enabled = false };
  tls_enabled = true;
}

abbrev accept_json : List Bytes
accept_json = codes "application/vnd.swift.registry.v1+json" ∷ []

check_headers_enforce_iff_example :
    (check_headers_enforce accept_json (codes "json") ≡ none) ↔ Accepted (codes "json") accept_json
check_headers_enforce_iff_example = check_headers_enforce_iff accept_json (codes "json")

abbrev missing_header : HeaderError
missing_header = record { error_message = codes "missing Accept header"; http_status_code = 400 }

abbrev numbers : List ℕ
numbers = 10 ∷ 20 ∷ 30 ∷ []

paginate_elements-window_example :
    paginate_elements numbers (pos (1 + 1)) (pos 2) ≡ done (take 2 (drop (1 * 2) numbers))
paginate_elements-window_example =
    paginate_elements-window numbers 1 2 (omega arith) (omega arith) (omega arith)

paginate_elements-panic_example :
    paginate_elements numbers (pos (4611686018427387904 + 1)) (pos 2) ≡ panic
paginate_elements-panic_example =
    paginate_elements-panic numbers 4611686018427387904 2 (omega arith) (omega arith) (omega arith)
      (omega arith)

apart : {a b : Bytes} → eq_bytes a b ≡ false → a ≢ b
apart {a} h e = cc (h, e, eq_bytes_refl a)

abbrev element : Bytes → ListElement
element v = record { scope = codes "s"; package_name = codes "n"; version = v }

abbrev newer : ListElement
newer = element (codes "2.0.0")

abbrev middle : ListElement
middle = element (codes "1.5.0")

abbrev older : ListElement
older = element (codes "1.0.0")

names_iff_example :
    ((scope_matches (codes "a-b") ≡ true) ↔ NameOf dash 38 (codes "a-b"))
    × ((package_matches (codes "a-b") ≡ true) ↔ NameOf dash_or_underscore 99 (codes "a-b"))
names_iff_example = names_iff (codes "a-b")

abbrev target : Target
target = record { scope = codes "s"; package_name = codes "n"; version = codes "1.0.0" }

abbrev part_named : Bytes → Part
part_named form_name = record {
  form_name = form_name;
  content_type = codes "application/zip";
  content = codes "PK";
  unreadable = false;
  unclosable = false;
}

abbrev archive_part : Part
archive_part = part_named (codes "source-archive")

abbrev stored_archive : UploadElement
stored_archive = archive_of memory platform none target archive_part

-- a second source archive in one form
abbrev twice : Parts
twice = next archive_part (next archive_part eof)

abbrev end_of_twice : Received Keys
end_of_twice = receive_parts memory platform none target twice none [] fresh []

abbrev response_of : Received Keys → ResponseWriter
response_of (returned w s) = w
response_of (received _ _ w s) = w

abbrev state_of : Received Keys → Keys
state_of (returned w s) = s
state_of (received _ _ w s) = s

-- the first archive is stored
twice_stores : StoredBy memory platform none target twice fresh [] stored_archive
unfolding store_elements validate_upload_type eq_bytes has key_of new_upload_element
twice_stores = here refl

abbrev published : Keys
published = key_of stored_archive ∷ []

published_exists : memory.exists none stored_archive published ≡ true
unfolding has
published_exists = rw (eq_bytes_refl (key_of stored_archive)) refl

publish_again_example :
    (w' : ResponseWriter) × (s' : Keys) × (receive_parts memory platform none target
        (next archive_part eof)
        none
        []
        fresh
        published
      ≡ returned w' s')
    × (status_of w' ≡ some 409)
    × AbsentFrom memory none s' (manifest_element target)
    × AbsentFrom memory none s' (package_json_element target)
publish_again_example =
    publish_again memory platform none memory-RemoveLaws target archive_part eof published refl
      published_exists

abbrev pub bad_request : Request
bad_request = record {
  accept = accept_json;
  authorization = [];
  scope = codes "-s";
  package_name = codes "n";
  version = codes "1.0.0";
  query = λ name. [];
  multipart = some (next archive_part eof);
}

bad_scope : (scope_matches bad_request.scope && package_matches bad_request.package_name) ≡ false
unfolding scope_matches name_matches alphanumeric
bad_scope = refl

publish_action-refused_example :
    ((publish_action memory platform config bad_request fresh []).1 ≡ [])
    × (status_of ((publish_action memory platform config bad_request fresh []).0) ≢ some 201)
publish_action-refused_example =
    publish_action-refused memory platform config bad_request [] (inr bad_scope)

-- a form of metadata alone
abbrev metadata_alone : Parts
metadata_alone = next (part_named (codes "metadata")) eof

abbrev end_of_metadata : Received Keys
end_of_metadata = receive_parts memory platform none target metadata_alone none [] fresh []

abbrev found_of : Received Keys → Option UploadElement
found_of (returned _ _) = none
found_of (received found _ _ _) = found

abbrev stored_of : Received Keys → List UploadElement
stored_of (returned _ _) = []
stored_of (received _ stored _ _) = stored

metadata_received :
    end_of_metadata
    ≡ received
        (found_of end_of_metadata)
        (stored_of end_of_metadata)
        (response_of end_of_metadata)
        (state_of end_of_metadata)
unfolding receive_parts store_elements validate_upload_type eq_bytes has key_of new_upload_element
metadata_received = refl

metadata-NoArchive : NoArchive metadata_alone
unfolding eq_bytes
metadata-NoArchive = (refl, tt)

publish_without_archive_example : finish memory platform none target config end_of_metadata ≡ (
  write_error (codes "upload failed, nothing found to store") (response_of end_of_metadata),
  state_of end_of_metadata,
)
publish_without_archive_example =
    publish_without_archive memory platform none target config metadata_alone
      (found_of end_of_metadata) (stored_of end_of_metadata) fresh (response_of end_of_metadata) []
      (state_of end_of_metadata) metadata-NoArchive metadata_received
