-- ===== src/Controller/Reading/Archives.antt =====
-- The download of a source archive.
use openspmregistry.Prelude.{
  ℕ, ◌≡◌, refl, ◌∙◌, ap, true, Option, none, List, [], ◌∷◌, ◌++◌, ok, arith, All-append, ◌==◌,
  Bool-cases, inl, inr,
}
use openspmregistry.Strings.{Bytes, codes, split, contains_byte, trim_suffix}
use openspmregistry.Strings.Equality.{trim_suffix-append}
use openspmregistry.Strings.Cutting.{Lacks, split-Lacks}
use openspmregistry.Strings.Paths.{path_ext, behind_slash, last_part}
use openspmregistry.Config.{ServerConfig}
use openspmregistry.Http.{ResponseWriter}
use openspmregistry.Sort.{SortFunc}
use openspmregistry.Models.Element.{
  Platform, UploadElement, source_archive, source_archive_signature, new_upload_element, file_name,
  application_zip, application_octet_stream,
}
use openspmregistry.Models.Release.{Release}
use openspmregistry.Repo.{Repo}
use openspmregistry.Controller.Request.{Request, request_context}
use openspmregistry.Controller.Headers.{check_headers_enforce}
use openspmregistry.Controller.Reading.{
  Serving, download_source_archive_action, download_accepted, download_headers,
}

-- A text that ends in a separator and a text without one has two parts, the last being the latter.
two_parts :
    (v rest : Bytes) (sep : ℕ)
    → Lacks sep rest
    → (p : Bytes) × (q : Bytes) × (ps : List Bytes) × (split (v ++ (sep ∷ rest)) sep ≡ p ∷ q ∷ ps)
      × (last_part (q ∷ ps) ≡ rest)
unfolding split
two_parts [] rest sep lacks = ([], rest, [], ground (arith, split-Lacks rest sep lacks), refl)
two_parts (c ∷ v) rest sep lacks =
    let (p, q, ps, cut, ends) = two_parts v rest sep lacks in
    elim (Bool-cases (c == sep)) [
      | inl same ↦ ([], p, q ∷ ps, rw (cut, same) refl, ends)
      | inr other ↦ (c ∷ p, q, ps, rw (cut, other) refl, ends)
    ]

last_part-split :
    (v rest : Bytes) (sep : ℕ) → Lacks sep rest → last_part (split (v ++ (sep ∷ rest)) sep) ≡ rest
last_part-split v rest sep lacks =
    let (p, q, ps, cut, ends) = two_parts v rest sep lacks in rw cut ends

ends_in : (v rest : Bytes) (sep : ℕ) → contains_byte sep (v ++ (sep ∷ rest)) ≡ true
unfolding contains_byte
ends_in [] rest sep = ground arith
ends_in (c ∷ v) rest sep = ground (arith, ends_in v rest sep)

abbrev zip_lacks_dot : Lacks b'.' (codes "zip")
zip_lacks_dot = (λ e. omega arith, (λ e. omega arith, (λ e. omega arith, tt)))

path_ext-zip : (v : Bytes) → Lacks b'/' v → path_ext (v ++ codes ".zip") ≡ codes ".zip"
unfolding path_ext behind_slash
path_ext-zip v no_slash =
    rw
      (
        split-Lacks (v ++ codes ".zip") b'/' whole,
        ends_in v (codes "zip") b'.',
        last_part-split v (codes "zip") b'.' zip_lacks_dot,
      )
      refl
  where
    whole : Lacks b'/' (v ++ codes ".zip")
    whole =
        All-append _ v (codes ".zip") no_slash
          (λ e. omega arith, (λ e. omega arith, (λ e. omega arith, (λ e. omega arith, tt))))

abbrev pub archive_of : Request → Bytes → UploadElement
archive_of r v = new_upload_element r.scope r.package_name v application_zip source_archive

abbrev pub signature_of : Request → Bytes → UploadElement
signature_of r v =
    new_upload_element r.scope r.package_name v application_octet_stream source_archive_signature

module _ {S W : Type 0} (repo : Repo S W) (p : Platform) (c : ServerConfig) (slices : SortFunc)
    (marshal : Release → Option Bytes) (serving : Serving) where
  served_accepted :
      (r : Request) (v content : Bytes) (w : ResponseWriter) (s : S)
      → r.version ≡ v ++ codes ".zip"
      → Lacks b'/' v
      → repo.exists (request_context r) (archive_of r v) s ≡ true
      → repo.get_reader (request_context r) (archive_of r v) s ≡ ok content
      → download_accepted repo p c slices marshal serving r w s
        ≡ serving.serve_content r (file_name p (archive_of r v)) serving.now content (
            download_headers repo p c slices marshal serving r
              (archive_of r v)
              (signature_of r v)
              w
              s)
  unfolding download_accepted
  served_accepted r v content w s asked no_slash there read =
      let version =
        ap (λ t. trim_suffix t (path_ext t)) asked
        ∙ (ap (λ t. trim_suffix (v ++ codes ".zip") t) (path_ext-zip v no_slash)
            ∙ trim_suffix-append v (codes ".zip")) in
      rw (download_accepted, version, there, read) refl

  -- An accepted request for a version and ".zip", the version without a slash, is answered with the
  -- content of exactly that version's source archive where the storage has and reads it.
  pub download-served :
      (r : Request) (v content : Bytes) (w : ResponseWriter) (s : S)
      → check_headers_enforce r.accept (codes "zip") ≡ none
      → r.version ≡ v ++ codes ".zip"
      → Lacks b'/' v
      → repo.exists (request_context r) (archive_of r v) s ≡ true
      → repo.get_reader (request_context r) (archive_of r v) s ≡ ok content
      → download_source_archive_action repo p c slices marshal serving r w s
        ≡ serving.serve_content r (file_name p (archive_of r v)) serving.now content (
            download_headers repo p c slices marshal serving r
              (archive_of r v)
              (signature_of r v)
              w
              s)
  unfolding download_source_archive_action
  download-served r v content w s accepted asked no_slash there read =
      rw (download_source_archive_action, accepted)
        (served_accepted r v content w s asked no_slash there read)
