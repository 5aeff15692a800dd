-- ===== src/Controller/Manifest.antt =====
-- controller/fetchmanifest.go
use openspmregistry.Prelude.{
  ℕ, Bool, true, false, none, some, List, [], ◌∷◌, ◌++◌, Result, ok, err, if◌then◌else◌,
}
use openspmregistry.Strings.{Bytes, codes, is_empty, trim_prefix, trim_suffix, trim_space}
use openspmregistry.Json.{object, field, end, string}
use openspmregistry.Config.{ServerConfig, base_url}
use openspmregistry.Http.{ResponseWriter, document, set_header, write_header, write}
use openspmregistry.Models.Element.{
  Platform, UploadElement, manifest, new_upload_element, file_name, set_filename_overwrite,
  text_x_swift,
}
use openspmregistry.Repo.{Repo}
use openspmregistry.Controller.Request.{Request, request_context, write_error_with_status_code}
use openspmregistry.Controller.Headers.{check_headers_enforce, write_response}
use openspmregistry.Controller.Reading.{Serving}

-- `seekable` says whether the reader seeks to its start without an error.
module _ {S W : Type 0} (repo : Repo S W) (p : Platform) (c : ServerConfig) (serving : Serving)
    (seekable : Bool) where
  abbrev tools_version : Result Bytes → Bytes
  tools_version (err _) = []
  tools_version (ok version) =
      codes "; swift-tools-version=\"" ++ (trim_space version ++ codes "\"")

  -- what one manifest adds to the text, none when its location cannot be joined
  unfoldable pub manifest_link : Request → Bool → UploadElement → S → Bytes
  manifest_link r first m s =
      let filename = file_name p m in
      let version = trim_suffix (trim_prefix filename (codes "Package@swift-")) (codes ".swift") in
      elim (p.join_path (base_url c) (m.scope ∷ m.name ∷ m.version ∷ codes "Package.swift" ∷ [])) [
        | none ↦ []
        | some location ↦
            (if first then [] else codes ", ")
            ++ (codes "<"
                ++ (location
                    ++ (codes "?swift-version="
                        ++ (version
                            ++ (codes ">; rel=\"alternate\"; filename=\""
                                ++ (filename
                                    ++ (codes "\""
                                        ++ tools_version (
                                            repo.get_swift_tool_version (request_context r) m
                                              s))))))))
      ]

  -- the loop of `manifestsToString`
  unfoldable pub manifests_to_string : Request → Bool → List UploadElement → S → Bytes
  unfolding manifest_link
  manifests_to_string r first [] s = []
  manifests_to_string r first (m ∷ manifests) s =
      manifest_link r first m s ++ manifests_to_string r false manifests s

  abbrev set_alternatives :
      Request → Result (List UploadElement) → ResponseWriter → S → ResponseWriter
  set_alternatives r (err _) w s = w
  set_alternatives r (ok []) w s = w
  set_alternatives r (ok (m ∷ manifests)) w s =
      set_header (codes "Link") (manifests_to_string r true (m ∷ manifests) s) w

  abbrev or_now : Result ℕ → ℕ
  or_now (err _) = serving.now
  or_now (ok date) = date

  -- behind the reader
  unfoldable pub serve_manifest :
      Request → UploadElement → Bytes → Bytes → ResponseWriter → S → ResponseWriter
  unfolding manifests_to_string
  serve_manifest r e swift_version content w s =
      let ctx = request_context r in
      let w1 =
        if is_empty swift_version
        then set_alternatives r (repo.get_alternative_manifests ctx e s) w s
        else w in
      let w2 = set_header (codes "Content-Version") (codes "1") w1 in
      let w3 = set_header (codes "Content-Type") text_x_swift w2 in
      let w4 =
        set_header (codes "Content-Disposition")
          (codes "attachment; filename=\"" ++ (file_name p e ++ codes "\"")) w3 in
      let w5 = set_header (codes "Cache-Control") (codes "public, immutable") w4 in
      if seekable
      then serving.serve_content r (file_name p e) (or_now (repo.publish_date ctx e s)) content w5
      else write
          (document (
            object (
              field (codes "detail")
                (string (codes "internal server error while preparing manifest")) end)))
          (write_header 500 (
            set_header (codes "Content-Version") (codes "1")
              (set_header (codes "Content-Type") (codes "application/problem+json") w5)))

  abbrev manifest_read :
      Request → UploadElement → Bytes → Result Bytes → ResponseWriter → S → ResponseWriter
  manifest_read r e swift_version (err _) w s =
      write_error_with_status_code (file_name p e ++ codes " not found") 404 w
  manifest_read r e swift_version (ok content) w s = serve_manifest r e swift_version content w s

  -- the element of the manifest, for the asked Swift version
  unfoldable pub asked_manifest : Request → Bytes → UploadElement
  asked_manifest r swift_version =
      let e = new_upload_element r.scope r.package_name r.version text_x_swift manifest in
      if is_empty swift_version
      then e
      else set_filename_overwrite (codes "Package@swift-" ++ swift_version) e

  -- `FetchManifestAction`
  unfoldable pub fetch_manifest_action : Request → ResponseWriter → S → ResponseWriter
  unfolding serve_manifest asked_manifest
  fetch_manifest_action r w s = elim (check_headers_enforce r.accept (codes "swift")) [
    | some e ↦ write_response e w
    | none ↦
        let swift_version = r.query (codes "swift-version") in
        let e = asked_manifest r swift_version in
        manifest_read r e swift_version (repo.get_reader (request_context r) e s) w s
  ]
