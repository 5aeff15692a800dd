-- ===== src/Controller/Publish/Archived.antt =====
-- What a publish that succeeds leaves in the storage.
use openspmregistry.Prelude.{
  ◌≢◌, arith, ◌≡◌, refl, true, false, [], Bool-cases, Option-cases, inl, inr, some,
}
use openspmregistry.Strings.{Bytes, codes, eq_bytes}
use openspmregistry.Http.{ResponseWriter}
use openspmregistry.Models.Element.{
  Platform, UploadElement, UploadElementType, source_archive, source_archive_signature, metadata,
  metadata_signature, manifest, package_manifest_json, new_upload_element,
}
use openspmregistry.Repo.{Repo, Context}
use openspmregistry.Repo.Laws.{Kept, WriterLaws, ExtractionKeeps}
use openspmregistry.Controller.Request.{Part}
use openspmregistry.Controller.Publish.Storing.{opened-IsStored}
use openspmregistry.Controller.Publish.{
  Target, store_opened, store_typed, store_elements, validate_upload_type, extract_if_archive,
}

abbrev pub archive : Target → Bytes → UploadElement
archive t mime = new_upload_element t.scope t.package_name t.version mime source_archive

module _ {S W : Type 0} {Writes : W → UploadElement → Bytes → S → Type 0}
    {Apart : UploadElement → UploadElement → Type 0} (repo : Repo S W) (p : Platform)
    (ctx : Context) (laws : WriterLaws repo ctx Writes Apart) (w : ResponseWriter) where
  not_archive :
      (name : Bytes) (kind : UploadElementType)
      → eq_bytes name (codes "source-archive") ≡ false
      → validate_upload_type name ≡ some kind
      → kind ≢ source_archive
  unfolding validate_upload_type
  not_archive name kind other supported same = ground arith

  not_extracted :
      (kind : UploadElementType) (f : UploadElement) (s : S)
      → kind ≢ source_archive
      → extract_if_archive repo p ctx w kind f s ≡ s
  not_extracted source_archive f s other = absurd (other refl)
  not_extracted source_archive_signature f s other = refl
  not_extracted metadata f s other = refl
  not_extracted metadata_signature f s other = refl
  not_extracted manifest f s other = refl
  not_extracted package_manifest_json f s other = refl

  opened-Kept :
      (t : Target) (mime : Bytes) (part : Part) (s : S)
      → ExtractionKeeps repo ctx t.scope t.package_name t.version
      → (store_opened repo p ctx w source_archive
          (archive t mime)
          part
          (repo.get_writer ctx (archive t mime) s)).failed
        ≡ false
      → ((store_opened repo p ctx w source_archive
            (archive t mime)
            part
            (repo.get_writer ctx (archive t mime) s)).element
          ≡ some (archive t mime))
        × Kept repo ctx
            (archive t mime)
            part.content
            (store_opened repo p ctx w source_archive
              (archive t mime)
              part
              (repo.get_writer ctx (archive t mime) s)).state
  opened-Kept t mime part s extraction fine =
      let f = archive t mime in
      let s1 = (repo.get_writer ctx f s).1 in
      let (opened, copied, got, wrote, done, stored) =
        opened-IsStored repo p ctx w source_archive f part ((repo.get_writer ctx f s).0) s1 fine in
      let s2 = (repo.write opened part.content s1).1 in
      let writes =
        laws.written f opened copied [] part.content s1 (laws.opened f opened s got) wrote in
      (
        stored.element_is,
        rw stored.state_is
            (extraction mime part.content _ (laws.closed f copied part.content s2 writes done)),
      )

  opened_keeps :
      (t : Target) (mime content : Bytes) (kind : UploadElementType) (f : UploadElement)
      (part : Part) (s : S)
      → kind ≢ source_archive
      → (store_opened repo p ctx w kind f part (repo.get_writer ctx f s)).failed ≡ false
      → Apart (archive t mime) f
      → Kept repo ctx (archive t mime) content s
      → Kept repo ctx
          (archive t mime)
          content
          (store_opened repo p ctx w kind f part (repo.get_writer ctx f s)).state
  opened_keeps t mime content kind f part s other fine apart kept =
      let e = archive t mime in
      let s1 = (repo.get_writer ctx f s).1 in
      let (opened, copied, got, wrote, done, stored) =
        opened-IsStored repo p ctx w kind f part ((repo.get_writer ctx f s).0) s1 fine in
      let s2 = (repo.write opened part.content s1).1 in
      let writes = laws.opened f opened s got in
      let kept1 = laws.get_writer_keeps e f content s apart kept in
      let kept2 = laws.write_keeps e f opened content [] part.content s1 apart writes kept1 in
      let kept3 =
        laws.close_keeps e f copied content part.content s2 apart
          (laws.written f opened copied [] part.content s1 writes wrote) kept2 in
      rw (stored.state_is, not_extracted kind f _ other) kept3

  typed_missing :
      (kind : UploadElementType) (f : UploadElement) (part : Part) (s : S)
      → (store_typed repo p ctx w kind f part s).failed ≡ false
      → repo.exists ctx f s ≡ false
  unfolding store_typed
  typed_missing kind f part s fine = elim (Bool-cases (repo.exists ctx f s)) [
    | inl there ↦ absurd (let no : true ≡ false = rw there at fine in cc)
    | inr missing ↦ missing
  ]

  typed_opened :
      (kind : UploadElementType) (f : UploadElement) (part : Part) (s : S)
      → repo.exists ctx f s ≡ false
      → store_typed repo p ctx w kind f part s
        ≡ store_opened repo p ctx w kind f part (repo.get_writer ctx f s)
  unfolding store_typed
  typed_opened kind f part s missing = rw missing refl

  elements_typed :
      (kind : UploadElementType) (t : Target) (name mime : Bytes) (part : Part) (s : S)
      → validate_upload_type name ≡ some kind
      → store_elements repo p ctx w t name mime part s
        ≡ store_typed repo p ctx w kind
            (new_upload_element t.scope t.package_name t.version mime kind)
            part
            s
  unfolding store_elements
  elements_typed kind t name mime part s supported = rw (store_elements, supported) refl

  named_archive :
      (name : Bytes)
      → name ≡ codes "source-archive"
      → validate_upload_type name ≡ some source_archive
  unfolding validate_upload_type eq_bytes
  named_archive name named = rw named refl

  -- A source archive that was stored is kept by the extraction of its manifests.
  pub elements-Kept :
      (t : Target) (name mime : Bytes) (part : Part) (s : S)
      → name ≡ codes "source-archive"
      → ExtractionKeeps repo ctx t.scope t.package_name t.version
      → (store_elements repo p ctx w t name mime part s).failed ≡ false
      → ((store_elements repo p ctx w t name mime part s).element ≡ some (archive t mime))
        × Kept repo ctx
            (archive t mime)
            part.content
            (store_elements repo p ctx w t name mime part s).state
  elements-Kept t name mime part s named extraction fine =
      let same = elements_typed source_archive t name mime part s (named_archive name named) in
      let fine_typed = rw same at fine in
      let missing = typed_missing source_archive (archive t mime) part s fine_typed in
      let opened = typed_opened source_archive (archive t mime) part s missing in
      rw (same, opened) (opened-Kept t mime part s extraction (rw opened at fine_typed))

  typed_keeps :
      (t : Target) (mime content : Bytes) (kind : UploadElementType) (f : UploadElement)
      (part : Part) (s : S)
      → kind ≢ source_archive
      → (store_typed repo p ctx w kind f part s).failed ≡ false
      → Kept repo ctx (archive t mime) content s
      → Kept repo ctx (archive t mime) content (store_typed repo p ctx w kind f part s).state
  typed_keeps t mime content kind f part s other fine kept =
      let missing = typed_missing kind f part s fine in
      let opened = typed_opened kind f part s missing in
      rw opened (
        opened_keeps t mime content kind f part s other (rw opened at fine)
          (laws.apart (archive t mime) f s kept.0 missing) kept)

  typed_unanswered :
      (kind : UploadElementType) (f : UploadElement) (part : Part) (s : S)
      → (store_typed repo p ctx w kind f part s).failed ≡ false
      → (store_typed repo p ctx w kind f part s).response ≡ w
  typed_unanswered kind f part s fine =
      let opened = typed_opened kind f part s (typed_missing kind f part s fine) in
      let (_, _, _, _, _, stored) =
        opened-IsStored repo p ctx w kind f part ((repo.get_writer ctx f s).0)
          ((repo.get_writer ctx f s).1) (rw opened at fine) in
      rw opened stored.response_is

  elements_supported :
      (t : Target) (name mime : Bytes) (part : Part) (s : S)
      → (store_elements repo p ctx w t name mime part s).failed ≡ false
      → (kind : UploadElementType) × (validate_upload_type name ≡ some kind)
  unfolding store_elements
  elements_supported t name mime part s fine = elim (Option-cases (validate_upload_type name)) [
    | inl unsupported ↦
        absurd (let no : true ≡ false = rw (store_elements, unsupported) at fine in cc)
    | inr supported ↦ supported
  ]

  -- A storing writes no response, and one that is of no source archive keeps those that were kept.
  pub elements_keep :
      (t : Target) (name mime : Bytes) (part : Part) (s : S)
      → (store_elements repo p ctx w t name mime part s).failed ≡ false
      → ((store_elements repo p ctx w t name mime part s).response ≡ w)
        × (eq_bytes name (codes "source-archive") ≡ false
            → (t' : Target) (mime' content : Bytes) → Kept repo ctx (archive t' mime') content s
            → Kept repo ctx
                (archive t' mime')
                content
                (store_elements repo p ctx w t name mime part s).state)
  elements_keep t name mime part s fine =
      let (kind, supported) = elements_supported t name mime part s fine in
      let same = elements_typed kind t name mime part s supported in
      (
        rw same (typed_unanswered kind _ part s (rw same at fine)),
        λ other t' mime' content kept. rw same (
            typed_keeps t' mime' content kind _ part s (not_archive name kind other supported)
              (rw same at fine) kept),
      )
