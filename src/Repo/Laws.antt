-- ===== src/Repo/Laws.antt =====
-- What repo/repo.go promises of `Exists` and `Remove`, for a backend whose removals do not fail.
use openspmregistry.Prelude.{◌≡◌, true, false, [], ◌++◌, ok}
use openspmregistry.Strings.{Bytes}
use openspmregistry.Models.Element.{UploadElement, new_upload_element, source_archive}
use openspmregistry.Repo.{Repo, Context}

pub record RemoveLaws {S W : Type 0} (repo : Repo S W) (ctx : Context) : Type 0 where
  -- a removed element does not exist
  pub remove_self :
      (e : UploadElement) (s : S)
      → repo.exists ctx e s ≡ true
      → repo.exists ctx e ((repo.remove ctx e s).1) ≡ false
  -- a removal brings no element into existence
  pub remove_other :
      (e f : UploadElement) (s : S)
      → repo.exists ctx f s ≡ false
      → repo.exists ctx f ((repo.remove ctx e s).1) ≡ false

-- An element exists and is read as the content.
abbrev pub Kept : {S W : Type 0} → Repo S W → Context → UploadElement → Bytes → S → Type 0
Kept repo ctx e content s = (repo.exists ctx e s ≡ true) × (repo.get_reader ctx e s ≡ ok content)

-- What repo/repo.go promises of writers. `Writes w f got s` says that `got` was written to w,
-- the writer of f, and `Apart e f` that the elements are stored apart.
pub record WriterLaws {S W : Type 0} (repo : Repo S W) (ctx : Context)
    (Writes : W → UploadElement → Bytes → S → Type 0)
    (Apart : UploadElement → UploadElement → Type 0) : Type 0 where
  -- of two elements of which one exists
  pub apart :
      (e f : UploadElement) (s : S)
      → repo.exists ctx e s ≡ true
      → repo.exists ctx f s ≡ false
      → Apart e f
  pub opened :
      (f : UploadElement) (w : W) (s : S)
      → (repo.get_writer ctx f s).0 ≡ ok w
      → Writes w f [] ((repo.get_writer ctx f s).1)
  pub written :
      (f : UploadElement) (w w' : W) (got text : Bytes) (s : S)
      → Writes w f got s
      → (repo.write w text s).0 ≡ ok w'
      → Writes w' f (got ++ text) ((repo.write w text s).1)
  pub closed :
      (f : UploadElement) (w : W) (got : Bytes) (s : S)
      → Writes w f got s
      → (repo.close w s).0 ≡ ok tt
      → Kept repo ctx f got ((repo.close w s).1)
  -- An element is kept by what is done with a writer of another one.
  pub get_writer_keeps :
      (e f : UploadElement) (content : Bytes) (s : S)
      → Apart e f
      → Kept repo ctx e content s
      → Kept repo ctx e content ((repo.get_writer ctx f s).1)
  pub write_keeps :
      (e f : UploadElement) (w : W) (content got text : Bytes) (s : S)
      → Apart e f
      → Writes w f got s
      → Kept repo ctx e content s
      → Kept repo ctx e content ((repo.write w text s).1)
  pub close_keeps :
      (e f : UploadElement) (w : W) (content got : Bytes) (s : S)
      → Apart e f
      → Writes w f got s
      → Kept repo ctx e content s
      → Kept repo ctx e content ((repo.close w s).1)

-- What a backend promises of ExtractManifestFiles on a source archive of a version: the archive is
-- kept.
abbrev pub ExtractionKeeps : {S W : Type 0} → Repo S W → Context → Bytes → Bytes → Bytes → Type 0
ExtractionKeeps {S} repo ctx scope name version =
    (mime_type content : Bytes) (s : S)
    → Kept repo ctx (new_upload_element scope name version mime_type source_archive) content s
    → Kept repo ctx (new_upload_element scope name version mime_type source_archive) content (
        (repo.extract_manifest_files ctx
          (new_upload_element scope name version mime_type source_archive) s).1)
