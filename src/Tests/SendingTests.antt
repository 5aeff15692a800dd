-- ===== src/Tests/SendingTests.antt =====
-- A publish into a storage that keeps contents by their key.
use openspmregistry.Prelude.{
  ◌≡◌, ◌≢◌, refl, sym, Bool, true, false, Bool-cases, inl, inr, Option, none, some, [], ◌++◌, ok,
  err, Result, if◌then◌else◌,
}
use openspmregistry.Strings.Equality.{eq_bytes_sound, eq_bytes_refl}
use openspmregistry.Repo.{Repo, Context}
use openspmregistry.Repo.Laws.{WriterLaws}
use openspmregistry.Controller.Request.{Request, request_context}
use openspmregistry.Controller.Publish.Sent.{KeepsSent, publish_action-KeepsSent}
use openspmregistry.Controller.Headers.{
  check_headers_enforce, check_values, check_value, check_parts, check_version, check_media_type,
  new_header_error,
}
use openspmregistry.Controller.Names.{
  scope_matches, name_matches, alphanumeric, units, package_matches,
}
use openspmregistry.Controller.Publish.{
  publish_action, receive_parts, store_elements, store_closed, store_copied, store_opened,
  store_typed, validate_upload_type, finish, publish_named, publish_parts,
}
use openspmregistry.Config.{base_url}
use openspmregistry.Strings.{Bytes, codes, eq_bytes, has_prefix, split, contains}
use openspmregistry.Strings.Numbers.{atoi, itoa, negative, positive, scan, unsigned}
use openspmregistry.Http.{status_of, fresh, set, set_header, write, write_header}
use openspmregistry.Models.Element.{
  UploadElement, file_name, filename_without_extension, new_upload_element, overwrites, overwritten,
}
use openspmregistry.Files.Access.{Stat, not_exist, stat_ok, OsAdapter}
use openspmregistry.Files.Backend.{Formats}
use openspmregistry.Tests.Memory.{key_of, platform}
use openspmregistry.Tests.ControllerTests.{config, bad_request}

abbrev Contents : Type 0
Contents = Bytes → Option Bytes

unfoldable put_content : Bytes → Bytes → Contents → Contents
put_content k content s = λ j. if eq_bytes k j then some content else s j

abbrev is_there : Option Bytes → Bool
is_there none = false
is_there (some _) = true

abbrev read : Option Bytes → Result Bytes
read none = err []
read (some content) = ok content

-- A writer is the key with what was written to it; the file appears when the writer is closed.
abbrev kept_memory : Repo Contents (Bytes × Bytes)
kept_memory = record {
  exists = λ ctx e s. is_there (s (key_of e));
  get_reader = λ ctx e s. read (s (key_of e));
  get_writer = λ ctx e s. (ok (key_of e, []), s);
  write = λ w text s. (ok (w.0, w.1 ++ text), s);
  close = λ w s. (ok tt, put_content w.0 w.1 s);
  extract_manifest_files = λ ctx e s. (ok tt, s);
  list = λ ctx scope name s. ok [];
  encode_base64 = λ ctx e s. err [];
  publish_date = λ ctx e s. err [];
  checksum = λ ctx e s. err [];
  load_metadata = λ ctx scope name version s. err [];
  get_alternative_manifests = λ ctx e s. err [];
  get_swift_tool_version = λ ctx e s. err [];
  lookup = λ ctx url s. none;
  remove = λ ctx e s. (ok tt, λ j. if eq_bytes (key_of e) j then none else s j);
  list_scopes = λ ctx s. ok [];
  list_in_scope = λ ctx scope s. ok [];
  list_all = λ ctx s. ok [];
  load_package_json = λ ctx scope name version s. err [];
}

abbrev WritesTo : Bytes × Bytes → UploadElement → Bytes → Contents → Type 0
WritesTo w f got s = w ≡ (key_of f, got)

abbrev KeysDiffer : UploadElement → UploadElement → Type 0
KeysDiffer e f = key_of e ≢ key_of f

put_content-same : (k content : Bytes) (s : Contents) → put_content k content s k ≡ some content
unfolding put_content
put_content-same k content s = rw (eq_bytes_refl k) refl

put_content-other : (j k content : Bytes) (s : Contents) → j ≢ k → put_content k content s j ≡ s j
unfolding put_content
put_content-other j k content s apart = elim (Bool-cases (eq_bytes k j)) [
  | inl same ↦ absurd (apart (sym (eq_bytes_sound k j same)))
  | inr other ↦ rw other refl
]

kept_memory-WriterLaws : (ctx : Context) → WriterLaws kept_memory ctx WritesTo KeysDiffer
kept_memory-WriterLaws ctx = record {
  apart = λ e f s there missing same. let no : true ≡ false = cc (there, missing, same) in cc;
  opened = λ f w s h. cc (h);
  written = λ f w w' got text s writes h.
      let w'_is : ok (key_of f, got ++ text) ≡ ok w' = rw writes at h in cc (w'_is);
  closed = λ f w got s writes h. (
    rw (writes, put_content-same (key_of f) got s) refl,
    rw (writes, put_content-same (key_of f) got s) refl,
  );
  get_writer_keeps = λ e f content s apart kept. kept;
  write_keeps = λ e f w content got text s apart writes kept. kept;
  close_keeps = λ e f w content got s apart writes kept. (
    rw (writes, put_content-other (key_of e) (key_of f) got s apart) kept.0,
    rw (writes, put_content-other (key_of e) (key_of f) got s apart) kept.1,
  );
}

abbrev request : Request
request = record bad_request { scope = codes "s" }

answered_201 :
    status_of ((publish_action kept_memory platform config request fresh (λ k. none)).0) ≡ some 201
unfolding publish_action request_context eq_bytes put_content check_headers_enforce check_values
    check_value check_parts check_version check_media_type new_header_error scope_matches
    name_matches alphanumeric units package_matches receive_parts store_elements store_closed
    store_copied store_opened store_typed validate_upload_type finish publish_named publish_parts
    base_url has_prefix split contains atoi itoa negative positive scan unsigned set set_header
    write write_header file_name filename_without_extension new_upload_element overwrites
    overwritten
answered_201 = refl

publish_action-KeepsSent_example :
    KeepsSent kept_memory platform config request
      (λ k. none)
      ((publish_action kept_memory platform config request fresh (λ k. none)).1)
publish_action-KeepsSent_example =
    publish_action-KeepsSent kept_memory platform config request (λ k. none)
      (kept_memory-WriterLaws (request_context request)) (λ mime_type content s kept. kept)
      answered_201

abbrev stat_of : Option Bytes → Stat
stat_of none = not_exist
stat_of (some _) = stat_ok 0

abbrev old : Option Bytes → Bytes
old none = []
old (some content) = content

abbrev opened : Option Bytes → Result (Result Bytes)
opened none = err []
opened (some content) = ok (ok content)

-- A file system of files, with a folder wherever one is needed.
abbrev disk : OsAdapter Contents
disk = record {
  stat = λ path s. stat_of (s path);
  mkdir_all = λ path s. (ok tt, s);
  open_file = λ path s. opened (s path);
  create = λ path s. (ok tt, put_content path [] s);
  write_file = λ path text s. (ok tt, put_content path (old (s path) ++ text) s);
  close_file = λ path s. (ok tt, s);
  walk_dir = λ path s. [];
  read_dir = λ path s. ok [];
  remove_file = λ path s. (ok tt, λ j. if eq_bytes path j then none else s j);
}

stat_of-none : (o : Option Bytes) → stat_of o ≡ not_exist → o ≡ none
stat_of-none none h = refl
stat_of-none (some content) h = cc h

abbrev file_formats : Formats Contents
file_formats = record {
  open_zip = λ path s. ok [];
  unmarshal = λ text. err [];
  decode = λ text. err [];
  base64 = λ text. text;
  digest = λ text. text;
}
