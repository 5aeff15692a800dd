-- ===== src/Controller/Reading.antt =====
-- controller/info.go and controller/downloadsourcearchive.go
pub mod Archives
use openspmregistry.Prelude.{
  ℕ, Bool, true, false, not, Option, none, some, List, [], ◌∷◌, ◌++◌, Result, ok, err,
  if◌then◌else◌,
}
use openspmregistry.Strings.{Bytes, codes, is_empty, trim_suffix}
use openspmregistry.Strings.Paths.{path_ext}
use openspmregistry.Json.{Json, Fields, null, nil, cons, string, object, array, field, end}
use openspmregistry.Config.{ServerConfig}
use openspmregistry.Http.{ResponseWriter, document, set_header, write_header, write}
use openspmregistry.Sort.{SortFunc}
use openspmregistry.Models.Element.{
  Platform, UploadElement, source_archive, source_archive_signature, new_upload_element, file_name,
  set_ext_overwrite, application_zip, application_json, application_octet_stream,
}
use openspmregistry.Models.Release.{Release}
use openspmregistry.Repo.{Repo}
use openspmregistry.Controller.Request.{
  Request, request_context, strip_extension, write_error, write_error_with_status_code,
}
use openspmregistry.Controller.Headers.{check_headers_enforce, write_response}
use openspmregistry.Controller.Links.{add_link_headers}
use openspmregistry.Controller.Listing.{Listing, listed, failed, list_elements, with_header}

-- The clock, package time and http.ServeContent. `serve_content` gets the request, the name, the
-- modification time and the content.
pub record Serving : Type 0 where
  pub now : ℕ
  pub format_time : ℕ → Bytes
  pub serve_content : Request → Bytes → ℕ → Bytes → ResponseWriter → ResponseWriter

module _ {S W : Type 0} (repo : Repo S W) (p : Platform) (c : ServerConfig) (slices : SortFunc)
    (marshal : Release → Option Bytes) (serving : Serving) where
  abbrev or_empty_fields : Result Fields → Fields
  or_empty_fields (err _) = end
  or_empty_fields (ok fields) = fields

  abbrev or_empty_text : Result Bytes → Bytes
  or_empty_text (err _) = []
  or_empty_text (ok text) = text

  abbrev or_now : Result ℕ → ℕ
  or_now (err _) = serving.now
  or_now (ok date) = date

  -- A nil map is encoded as null.
  unfoldable pub signature_json : Bytes → Json
  signature_json [] = null
  signature_json (b ∷ signature) = object (
      field (codes "signatureBase64Encoded") (string (b ∷ signature))
        (field (codes "signatureFormat") (string (codes "cms-1.0.0")) end))

  -- the value that is encoded
  unfoldable pub info_result : Request → Bytes → UploadElement → S → Json
  unfolding signature_json
  info_result r version archive s =
      let ctx = request_context r in
      let signature =
        or_empty_text (repo.encode_base64 ctx (set_ext_overwrite (codes ".sig") archive) s) in
      object (
        field (codes "id") (string (r.scope ++ (codes "." ++ r.package_name))) (
          field (codes "version") (string version) (
            field (codes "resources")
              (array (
                cons
                  (object (
                    field (codes "name") (string (codes "source-archive")) (
                      field (codes "type") (string application_zip) (
                        field (codes "checksum")
                          (string (or_empty_text (repo.checksum ctx archive s)))
                          (field (codes "signing") (signature_json signature) end)))))
                  nil))
              (field (codes "metadata")
                (object (or_empty_fields (repo.load_metadata ctx r.scope r.package_name version s)))
                (field (codes "publishedAt")
                  (string (serving.format_time (or_now (repo.publish_date ctx archive s)))) end)))))

  abbrev info_found :
      Request → Bytes → UploadElement → Listing → ResponseWriter → S → ResponseWriter
  info_found r version archive (failed w') w s = w'
  info_found r version archive (listed elements) w s =
      let w1 = with_header (add_link_headers p c elements version w.header) w in
      let w2 = set_header (codes "Content-Version") (codes "1") w1 in
      let w3 = set_header (codes "Content-Type") application_json w2 in
      write (document (info_result r version archive s)) (write_header 200 w3)

  -- behind the header check
  unfoldable pub info_accepted : Request → ResponseWriter → S → ResponseWriter
  unfolding info_result
  info_accepted r w s =
      let version = strip_extension r.version (codes ".json") in
      let archive =
        new_upload_element r.scope r.package_name version application_zip source_archive in
      if not (repo.exists (request_context r) archive s)
      then write_error_with_status_code
          (codes "source archive " ++ (file_name p archive ++ codes " does not exist")) 404 w
      else info_found r version archive
          (list_elements repo p c slices marshal r r.scope r.package_name w s) w s

  -- `InfoAction`
  unfoldable pub info_action : Request → ResponseWriter → S → ResponseWriter
  unfolding info_accepted
  info_action r w s = elim (check_headers_enforce r.accept (codes "json")) [
    | some e ↦ write_response e w
    | none ↦ info_accepted r w s
  ]

  abbrev set_digest : Result Bytes → ResponseWriter → ResponseWriter
  set_digest (err _) w = w
  set_digest (ok checksum) w = set_header (codes "Digest") (codes "sha-256=" ++ checksum) w

  abbrev set_signature : Result Bytes → ResponseWriter → ResponseWriter
  set_signature (err _) w = w
  set_signature (ok signature) w =
      set_header (codes "X-Swift-Package-Signature") signature
        (set_header (codes "X-Swift-Package-Signature-Format") (codes "cms-1.0.0") w)

  abbrev served : Request → UploadElement → Result Bytes → ResponseWriter → ResponseWriter
  served r e (err _) w = write_error (codes "error reading source archive " ++ file_name p e) w
  served r e (ok content) w = serving.serve_content r (file_name p e) serving.now content w

  -- the headers of the archive
  unfoldable pub download_headers :
      Request → UploadElement → UploadElement → ResponseWriter → S → ResponseWriter
  download_headers r e signature w s =
      let ctx = request_context r in
      let w1 = set_header (codes "Content-Type") application_zip w in
      let w2 =
        set_header (codes "Content-Disposition")
          (codes "attachment; filename=\"" ++ (file_name p e ++ codes "\"")) w1 in
      let w3 = set_header (codes "Content-Version") (codes "1") w2 in
      let w4 = set_header (codes "Cache-Control") (codes "public, immutable") w3 in
      let w5 = set_digest (repo.checksum ctx e s) w4 in
      let w6 =
        if repo.exists ctx signature s
        then set_signature (repo.encode_base64 ctx signature s) w5
        else w5 in
      set_header (codes "Accept-Ranges") (codes "bytes") w6

  -- behind the header check
  unfoldable pub download_accepted : Request → ResponseWriter → S → ResponseWriter
  unfolding download_headers
  download_accepted r w s =
      let ctx = request_context r in
      let version = trim_suffix r.version (path_ext r.version) in
      let e = new_upload_element r.scope r.package_name version application_zip source_archive in
      let signature =
        new_upload_element r.scope r.package_name version application_octet_stream
          source_archive_signature in
      if not (repo.exists ctx e s)
      then write_error_with_status_code
          (codes "source archive " ++ (file_name p e ++ codes " does not exist")) 404 w
      else served r e (repo.get_reader ctx e s) (download_headers r e signature w s)

  -- `DownloadSourceArchiveAction`
  unfoldable pub download_source_archive_action : Request → ResponseWriter → S → ResponseWriter
  unfolding download_accepted
  download_source_archive_action r w s = elim (check_headers_enforce r.accept (codes "zip")) [
    | some e ↦ write_response e w
    | none ↦ download_accepted r w s
  ]
