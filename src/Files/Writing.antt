-- ===== src/Files/Writing.antt =====
-- The writers of repo/files/access.go.
use openspmregistry.Prelude.{ℕ, ◌≡◌, refl, true, false, [], ◌∷◌, ◌++◌, Result, ok, err}
use openspmregistry.Strings.{Bytes}
use openspmregistry.Strings.Paths.{path_join}
use openspmregistry.Models.Element.{Platform, UploadElement, file_name}
use openspmregistry.Files.Access.{
  is_not_exist, OsAdapter, FileWriter, path_folder, path_file, writer_of, write,
}
use openspmregistry.Files.Backend.{Formats}

-- A file is there and is read as the content.
abbrev pub Held : {S : Type 0} → OsAdapter S → Bytes → Bytes → S → Type 0
Held os path content s =
    (is_not_exist (os.stat path s) ≡ false) × (os.open_file path s ≡ ok (ok content))

-- Two paths do not name the same file: there is a state in which only the first names one.
pub record Separate {S : Type 0} (os : OsAdapter S) (path other : Bytes) : Type 0 where
  pub witness : S
  pub there : is_not_exist (os.stat path witness) ≡ false
  pub missing : is_not_exist (os.stat other witness) ≡ true

-- What the file system promises of files that are written.
pub record WriteLaws {S : Type 0} (os : OsAdapter S) : Type 0 where
  pub create_new :
      (path : Bytes) (s : S) → (os.create path s).0 ≡ ok tt → Held os path [] ((os.create path s).1)
  pub write_appends :
      (path got text : Bytes) (s : S)
      → Held os path got s
      → (os.write_file path text s).0 ≡ ok tt
      → Held os path (got ++ text) ((os.write_file path text s).1)
  -- A file stays as it is when a folder is made, a file is closed, or another one is written.
  pub mkdir_keeps :
      (path content folder : Bytes) (s : S)
      → Held os path content s
      → Held os path content ((os.mkdir_all folder s).1)
  pub close_keeps :
      (path content other : Bytes) (s : S)
      → Held os path content s
      → Held os path content ((os.close_file other s).1)
  pub create_keeps :
      (path content other : Bytes) (s : S)
      → Separate os path other
      → Held os path content s
      → Held os path content ((os.create other s).1)
  pub write_keeps :
      (path content other text : Bytes) (s : S)
      → Separate os path other
      → Held os path content s
      → Held os path content ((os.write_file other text s).1)

module _ {S : Type 0} (os : OsAdapter S) (p : Platform) (root : Bytes) (formats : Formats S)
    (now : ℕ) where
  writer_of_state :
      (path : Bytes) (r : Result (Unit {0}) × S) → (writer_of os p root path r).1 ≡ r.1
  writer_of_state path (err e, s) = refl
  writer_of_state path (ok _, s) = refl

  abbrev writer_file : UploadElement → Bytes
  writer_file f = path_join (path_folder p root f ∷ file_name p f ∷ [])

  -- The file of the element holds what was written.
  abbrev pub WritesFile : FileWriter → UploadElement → Bytes → S → Type 0
  WritesFile w f got s = (w ≡ path_file p root f) × Held os (path_file p root f) got s

  abbrev pub FilesSeparate : UploadElement → UploadElement → Type 0
  FilesSeparate e f = Separate os (path_file p root e) (path_file p root f)

  write_keeps :
      (laws : WriteLaws os) (path content text : Bytes) (w : FileWriter) (s : S)
      → Separate os path w
      → Held os path content s
      → Held os path content ((write os p root w text s).1)
  unfolding write
  write_keeps laws path content text w s apart held =
      rw (writer_of_state w (os.write_file w text s))
        (laws.write_keeps path content w text s apart held)
