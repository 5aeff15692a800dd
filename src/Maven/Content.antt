-- ===== src/Maven/Content.antt =====
-- The content of elements in repo/maven: the readers of repo/maven/readseek.go, GetReader of
-- repo/maven/access.go, and the operations of repo/maven/mavenrepo.go that read a reader to its end.
pub mod Served
pub mod Faults
pub mod Stored
use openspmregistry.Prelude.{
  ℕ, zero, suc, Bool, false, not, ◌&&◌, Option, none, some, List, [], ◌++◌, Result, ok, err, ◌>>=◌,
  if◌then◌else◌, length,
}
use openspmregistry.Int.{ℤ, pos, negsuc, lt_int}
use openspmregistry.Strings.{Bytes, codes, eq_bytes, has_prefix, to_lower, trim_suffix}
use openspmregistry.Strings.Paths.{path_ext}
use openspmregistry.Json.{Fields}
use openspmregistry.Config.{MavenConfig}
use openspmregistry.Sort.{SortFunc}
use openspmregistry.Models.Element.{
  Platform, UploadElement, new_upload_element, set_filename_overwrite, metadata, manifest,
  package_manifest_json, text_x_swift, application_json, application_zip,
}
use openspmregistry.Repo.{Context}
use openspmregistry.Repo.Shared.{first_line, version_of_line}
use openspmregistry.Files.Archive.{ZipFile, extract_manifest_files_from_zip_reader}
use openspmregistry.Maven.Coordinates.{build_maven_path_for_element}
use openspmregistry.Maven.Client.{
  HttpClient, Call, Response, Formats, Fetched, fetched, status_error, request_error, make_request,
  get, head,
}
use openspmregistry.Maven.Reader.{
  RangeServer, RangeReader, ReadError, no_error, end_of_file, other_error, fetch_range, read,
}
use openspmregistry.Maven.Metadata.{XmlFormat}
use openspmregistry.Maven.Access.{check_range_support, exists, get_writer, write, close}

-- What reading needs of net/http, with bodies of the type B.
pub record Bodies (S B : Type 0) : Type 0 where
  -- resp.ContentLength
  pub content_length : Response → ℤ
  -- httpClient.Do of a GET with a Range header: the status and the body
  pub get_range : Call → Bytes → S → Result (ℕ × B)
  -- at most so many bytes, an error, and the body behind them
  pub read_body : B → ℕ → Bytes × (ReadError × B)
  pub close_body : B → Result (Unit {0})
  -- the room that io.ReadAll has for the next read when so many bytes are read
  pub room : ℕ → ℕ

-- Functions of the packages archive/zip, encoding/json and crypto.
pub record ContentFormats : Type 0 where
  -- zip.NewReader
  pub open_zip : Bytes → Result (List ZipFile)
  -- json.Unmarshal and the first value of a json.Decoder, into a map
  pub unmarshal : Bytes → Result Fields
  pub decode : Bytes → Result Fields
  -- the hexadecimal text of sha256.Sum256
  pub digest : Bytes → Bytes

-- The two readers that GetReader returns; one that buffers is its bytes.
pub data ContentReader (B : Type 0) : Type 0 where
  buffered : Bytes → ContentReader B
  ranged : RangeReader B → ContentReader B

-- The fuel bounds the reads of one io.ReadAll.
module _ {S B : Type 0} (http : HttpClient S) (bodies : Bodies S B) (p : Platform)
    (cfg : MavenConfig) (formats : Formats) (ctx : Context) (fuel : ℕ) where
  -- the requests of a range reader for a path
  abbrev pub range_server : Bytes → S → RangeServer B
  range_server path s = record {
    make_request = make_request http p cfg formats ctx path [] [] >>= λ call. ok tt;
    request = λ range.
        make_request http p cfg formats ctx path [] [] >>= λ call. bodies.get_range call range s;
    read_body = bodies.read_body;
    close_body = bodies.close_body;
  }

  abbrev opened : Result (Unit {0}) × RangeReader B → Result (RangeReader B)
  opened (err e, r) = err e
  opened (ok _, r) = ok r

  -- `newRangeReadSeekCloser`
  unfoldable pub new_range_reader : Bytes → S → Result (RangeReader B)
  unfolding head make_request fetch_range
  new_range_reader path s = head http p cfg formats ctx path s >>= λ response.
      let size = bodies.content_length response in
      if lt_int size (pos 0)
      then err (codes "Content-Length not available")
      else opened (
          fetch_range (range_server path s) (pos 0) (negsuc 0)
            (record { position = pos 0; size = size; body = none; closed = false }))

  abbrev buffer_of : Fetched → Result (ContentReader B)
  buffer_of (request_error e) = err e
  buffer_of (status_error status) = err (codes "request failed with status")
  buffer_of (fetched response) = response.body >>= λ content. ok (buffered content)

  -- `newBufferedReadSeekCloser`
  unfoldable pub new_buffered_reader : Bytes → S → Result (ContentReader B)
  unfolding get
  new_buffered_reader path s = buffer_of (get http p cfg formats ctx path s)

  abbrev ranged_or : Result (RangeReader B) → Result (ContentReader B) → Result (ContentReader B)
  ranged_or (err _) otherwise = otherwise
  ranged_or (ok r) otherwise = ok (ranged r)

  -- `GetReader`, with what access.supportsRanges holds before and behind it
  unfoldable pub get_reader :
      Option Bool → UploadElement → S → Result (ContentReader B) × Option Bool
  unfolding check_range_support new_range_reader new_buffered_reader build_maven_path_for_element
  get_reader known e s =
      let path = build_maven_path_for_element p e cfg in
      let (supports, known') = check_range_support http p cfg formats ctx known path s in
      let otherwise = new_buffered_reader path s in
      (if supports then ranged_or (new_range_reader path s) otherwise else otherwise, known')

  -- io.ReadAll of a range reader
  unfoldable pub read_all : ℕ → Bytes → S → Bytes → RangeReader B → Result Bytes
  unfolding read
  read_all zero path s got r = err (codes "reading not finished")
  read_all (suc more) path s got r =
      let step = read (range_server path s) (bodies.room (length got)) r in
      let rest = read_all more path s (got ++ step.0) (step.1.1) in
      elim (step.1.0) [ no_error ↦ rest | end_of_file ↦ ok (got ++ step.0) | other_error e ↦ err e ]

  abbrev all_of : Bytes → S → Result (ContentReader B) → Result Bytes
  all_of path s (err e) = err e
  all_of path s (ok (buffered content)) = ok content
  all_of path s (ok (ranged r)) = read_all fuel path s [] r

  -- the content that the operations read through GetReader
  unfoldable pub content : Option Bool → UploadElement → S → Result Bytes
  unfolding get_reader read_all
  content known e s = all_of (build_maven_path_for_element p e cfg) s ((get_reader known e s).0)

-- `known` is what access.supportsRanges holds when an operation begins.
module _ {S B : Type 0} (http : HttpClient S) (bodies : Bodies S B) (p : Platform)
    (cfg : MavenConfig) (formats : Formats) (contents : ContentFormats) (ctx : Context) (fuel : ℕ)
    (known : Option Bool) where
  -- the content of an element that must exist
  abbrev existing : UploadElement → Bytes → S → Result Bytes
  existing e message s =
      if not (exists http p cfg formats ctx e s)
      then err message
      else content http bodies p cfg formats ctx fuel known e s

  unfoldable pub encode_base64 : UploadElement → S → Result Bytes
  unfolding exists content
  encode_base64 e s =
      existing e (codes "file does not exist") s >>= λ text. ok (formats.base64 text)

  unfoldable pub load_metadata : Bytes → Bytes → Bytes → S → Result Fields
  unfolding exists content new_upload_element
  load_metadata scope name version s =
      existing (new_upload_element scope name version application_json metadata)
        (codes "metadata not found") s
      >>= contents.unmarshal

  unfoldable pub load_package_json : Bytes → Bytes → Bytes → S → Result Fields
  unfolding exists content new_upload_element
  load_package_json scope name version s =
      existing (new_upload_element scope name version application_json package_manifest_json)
        (codes "package.json not found") s
      >>= contents.decode

  unfoldable pub get_swift_tool_version : UploadElement → S → Result Bytes
  unfolding exists content
  get_swift_tool_version e s =
      existing e (codes "manifest does not exist") s >>= λ text. version_of_line (first_line text)

  -- the element that a file of the archive is stored as
  unfoldable pub extracted_element : UploadElement → Bytes → Option UploadElement
  unfolding path_ext new_upload_element set_filename_overwrite eq_bytes
  extracted_element e name =
      let ext = path_ext name in
      if has_prefix (to_lower name) (codes "package") && eq_bytes (to_lower ext) (codes ".swift")
      then some (
          set_filename_overwrite (trim_suffix name ext)
            (new_upload_element e.scope e.name e.version text_x_swift manifest))
      else if eq_bytes (to_lower name) (codes "package.json")
      then some (new_upload_element e.scope e.name e.version application_json package_manifest_json)
      else none

  module _ (xml : XmlFormat) (slices : SortFunc) (timestamp : Bytes) where
    -- the callback: an error of the upload is only logged
    unfoldable pub file_extractor : UploadElement → Bytes → Result Bytes → S → Result (Unit {0}) × S
    unfolding extracted_element get_writer write close
    file_extractor e name (err message) s = (err message, s)
    file_extractor e name (ok text) s = elim (extracted_element e name) [
      | none ↦ (ok tt, s)
      | some element ↦ (
        ok tt,
        (close http p cfg formats xml slices timestamp contents.digest
            (write (get_writer p cfg ctx element) text) s).1,
      )
    ]

    abbrev extract_from : UploadElement → Result (List ZipFile) → S → Result (Unit {0}) × S
    extract_from e (err message) s = (err message, s)
    extract_from e (ok files) s =
        extract_manifest_files_from_zip_reader (file_extractor e) e files s

    abbrev is_zip : Option Bytes → Bool
    is_zip none = false
    is_zip (some media_type) = eq_bytes media_type application_zip

    unfoldable pub extract_manifest_files : UploadElement → S → Result (Unit {0}) × S
    unfolding file_extractor content
    extract_manifest_files e s =
        if not (is_zip (p.parse_media_type e.mime_type))
        then (err (codes "unsupported mime type"), s)
        else extract_from e
            (content http bodies p cfg formats ctx fuel known e s >>= contents.open_zip) s
