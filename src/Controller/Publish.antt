-- ===== src/Controller/Publish.antt =====
-- controller/publish.go. A step returns the response and the storage's state.
pub mod Answered
pub mod Cleanup
pub mod Outcomes
pub mod Storing
pub mod Archived
pub mod Sent
pub mod Unarchived
use openspmregistry.Prelude.{
  ℕ, Bool, true, false, not, ◌&&◌, ◌||◌, Option, none, some, List, [], ◌∷◌, ◌++◌, Result, ok, err,
  if◌then◌else◌, is_ok,
}
use openspmregistry.Strings.{Bytes, codes, eq_bytes}
use openspmregistry.Config.{ServerConfig, base_url}
use openspmregistry.Http.{ResponseWriter, set_header, write_header}
use openspmregistry.Models.Element.{
  Platform, UploadElement, UploadElementType, source_archive, source_archive_signature, metadata,
  metadata_signature, manifest, package_manifest_json, new_upload_element, file_name, text_x_swift,
  application_json,
}
use openspmregistry.Repo.{Repo, Context}
use openspmregistry.Controller.Request.{
  Request, Part, Parts, eof, broken, next, request_context, write_error,
  write_error_with_status_code,
}
use openspmregistry.Controller.Headers.{check_headers_enforce, write_response}
use openspmregistry.Controller.Names.{scope_matches, package_matches}

-- `validateUploadType`; `none` is its error
unfoldable pub validate_upload_type : Bytes → Option UploadElementType
validate_upload_type name =
    if eq_bytes name (codes "source-archive")
    then some source_archive
    else if eq_bytes name (codes "source-archive-signature")
    then some source_archive_signature
    else if eq_bytes name (codes "metadata")
    then some metadata
    else if eq_bytes name (codes "metadata-signature")
    then some metadata_signature
    else none

-- The package version that a request names.
pub record Target : Type 0 where
  pub scope : Bytes
  pub package_name : Bytes
  pub version : Bytes

abbrev pub manifest_element : Target → UploadElement
manifest_element t = new_upload_element t.scope t.package_name t.version text_x_swift manifest

abbrev pub package_json_element : Target → UploadElement
package_json_element t =
    new_upload_element t.scope t.package_name t.version application_json package_manifest_json

-- What `storeElements` returns, with what it leaves behind.
pub record Stored (S : Type 0) : Type 0 where
  pub element : Option UploadElement
  pub failed : Bool
  pub response : ResponseWriter
  pub state : S

module _ {S W : Type 0} (repo : Repo S W) (ctx : Context) where
  -- c.repo.Remove for each element; an error is logged
  unfoldable pub remove_all : List UploadElement → S → S
  remove_all [] s = s
  remove_all (e ∷ es) s = remove_all es ((repo.remove ctx e s).1)

  unfoldable pub remove_existing : UploadElement → S → S
  remove_existing e s = if repo.exists ctx e s then (repo.remove ctx e s).1 else s

  -- the alternatives, where they can be listed
  unfoldable pub remove_alternatives : Result (List UploadElement) → S → S
  unfolding remove_all
  remove_alternatives (ok alternatives) s = remove_all alternatives s
  remove_alternatives (err _) s = s

  unfoldable pub cleanup_stored_elements : Target → List UploadElement → S → S
  cleanup_stored_elements t stored s =
      let s1 = remove_all stored s in
      let s2 =
        remove_alternatives (repo.get_alternative_manifests ctx (manifest_element t) s1) s1 in
      let s3 = remove_existing (manifest_element t) s2 in
      remove_existing (package_json_element t) s3

module _ {S W : Type 0} (repo : Repo S W) (p : Platform) (ctx : Context) (w : ResponseWriter) where
  abbrev storing_failed : UploadElement → S → Stored S
  storing_failed element s = record {
    element = some element;
    failed = true;
    response = write_error (codes "upload failed, error storing file") w;
    state = s;
  }

  abbrev extract_if_archive : UploadElementType → UploadElement → S → S
  extract_if_archive source_archive element s = (repo.extract_manifest_files ctx element s).1
  extract_if_archive _ element s = s

  -- behind the second close of the writer
  unfoldable pub store_closed : UploadElementType → UploadElement → Result (Unit {0}) × S → Stored S
  store_closed upload_type element (err _, s) = storing_failed element s
  store_closed upload_type element (ok _, s) = record {
    element = some element;
    failed = false;
    response = w;
    state = extract_if_archive upload_type element s;
  }

  -- behind io.Copy: its error and that of part.Close are looked at together
  unfoldable pub store_copied :
      UploadElementType → UploadElement → Part → W → Result W × S → Stored S
  unfolding store_closed
  store_copied upload_type element part writer (err _, s) =
      storing_failed element ((repo.close writer s).1)
  store_copied upload_type element part writer (ok copied, s) =
      if part.unreadable || part.unclosable
      then storing_failed element ((repo.close copied s).1)
      else store_closed upload_type element (repo.close copied s)

  unfoldable pub store_opened : UploadElementType → UploadElement → Part → Result W × S → Stored S
  unfolding store_copied
  store_opened upload_type element part (err _, s) = storing_failed element s
  store_opened upload_type element part (ok writer, s) =
      store_copied upload_type element part writer (repo.write writer part.content s)

  unfoldable pub store_typed : UploadElementType → UploadElement → Part → S → Stored S
  unfolding store_opened
  store_typed upload_type element part s =
      if repo.exists ctx element s
      then record {
        element = none;
        failed = true;
        response =
            write_error_with_status_code
              (codes "upload failed, package exists:" ++ file_name p element) 409 w;
        state = s;
      }
      else store_opened upload_type element part (repo.get_writer ctx element s)

  unfoldable pub store_elements : Target → Bytes → Bytes → Part → S → Stored S
  unfolding store_typed
  store_elements t name mime_type part s = elim (validate_upload_type name) [
    | none ↦ record {
      element = none;
      failed = true;
      response =
          write_error_with_status_code (codes "upload failed: unsupported upload type: " ++ name)
            400 w;
      state = s;
    }
    | some upload_type ↦
        store_typed upload_type
          (new_upload_element t.scope t.package_name t.version mime_type upload_type) part s
  ]

-- How the loop over the parts ends: with the handler's return, or behind io.EOF with the element of
-- the source archive and all that was stored.
pub data Received (S : Type 0) : Type 0 where
  returned : ResponseWriter → S → Received S
  received : Option UploadElement → List UploadElement → ResponseWriter → S → Received S

abbrev append_element : List UploadElement → Option UploadElement → List UploadElement
append_element stored none = stored
append_element stored (some e) = stored ++ (e ∷ [])

abbrev parsed_or : Bytes → Option Bytes → Bytes
parsed_or mime_type none = mime_type
parsed_or mime_type (some parsed) = parsed

abbrev or_failed : Option Bytes → ResponseWriter → ResponseWriter
or_failed none w = write_error (codes "upload failed") w
or_failed (some _) w = w

abbrev pub created : Option Bytes → ResponseWriter → ResponseWriter
created location w =
    let w1 = set_header (codes "Content-Version") (codes "1") (or_failed location w) in
    let w2 = set_header (codes "Location") (parsed_or [] location) w1 in write_header 201 w2

module _ {S W : Type 0} (repo : Repo S W) (p : Platform) (ctx : Context) (t : Target) where
  -- The loop of `PublishAction`. The response is not written to before a return.
  unfoldable pub receive_parts :
      Parts → Option UploadElement → List UploadElement → ResponseWriter → S → Received S
  receive_parts eof package_element stored w s = received package_element stored w s
  receive_parts broken package_element stored w s =
      returned (write_error_with_status_code (codes "upload failed: invalid multipart form") 400 w)
        s
  receive_parts (next part parts) package_element stored w s =
      let mime_type = parsed_or part.content_type (p.parse_media_type part.content_type) in
      let step = store_elements repo p ctx w t part.form_name mime_type part s in
      let stored' = append_element stored step.element in
      let package_element' =
        if eq_bytes part.form_name (codes "source-archive")
        then step.element
        else package_element in
      let rest = receive_parts parts package_element' stored' step.response step.state in
      if step.failed
      then returned step.response (cleanup_stored_elements repo ctx t stored' step.state)
      else rest

  abbrev pub location : ServerConfig → UploadElement → Option Bytes
  location c e = p.join_path (base_url c) (t.scope ∷ t.package_name ∷ file_name p e ∷ [])

  -- what follows the loop
  unfoldable pub finish : ServerConfig → Received S → ResponseWriter × S
  finish c (returned w s) = (w, s)
  finish c (received none stored w s) =
      (write_error (codes "upload failed, nothing found to store") w, s)
  finish c (received (some e) stored w s) =
      if c.package_collections.require_package_json
        && not (repo.exists ctx (package_json_element t) s)
      then (
        write_error_with_status_code
            (codes "upload failed: Package.json is required but not found in archive") 422 w,
        cleanup_stored_elements repo ctx t stored s,
      )
      else (created (location c e) w, s)

abbrev target_of : Request → Target
target_of r = record { scope = r.scope; package_name = r.package_name; version = r.version }

module _ {S W : Type 0} (repo : Repo S W) (p : Platform) (c : ServerConfig) where
  unfoldable pub publish_parts : Request → Option Parts → ResponseWriter → S → ResponseWriter × S
  unfolding finish
  publish_parts r none w s =
      (write_error_with_status_code (codes "upload failed: invalid multipart form") 400 w, s)
  publish_parts r (some parts) w s =
      let ctx = request_context r in
      finish repo p ctx (target_of r) c (receive_parts repo p ctx (target_of r) parts none [] w s)

  unfoldable pub publish_named : Request → ResponseWriter → S → ResponseWriter × S
  unfolding publish_parts
  publish_named r w s =
      if not (scope_matches r.scope)
      then (
        write_error_with_status_code (codes "upload failed, incorrect scope:" ++ r.scope) 400 w,
        s,
      )
      else if not (package_matches r.package_name)
      then (
        write_error_with_status_code (codes "upload failed, incorrect package:" ++ r.package_name)
            400 w,
        s,
      )
      else publish_parts r r.multipart w s

  -- `PublishAction`
  unfoldable pub publish_action : Request → ResponseWriter → S → ResponseWriter × S
  unfolding publish_named
  publish_action r w s = elim (check_headers_enforce r.accept (codes "json")) [
    | some e ↦ (write_response e w, s)
    | none ↦ publish_named r w s
  ]
