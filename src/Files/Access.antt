-- ===== src/Files/Access.antt =====
-- repo/files/access.go, over the interface of repo/files/osadapter.go.
use openspmregistry.Prelude.{
  ℕ, Bool, true, false, not, Option, List, [], ◌∷◌, ◌++◌, Result, ok, err, if◌then◌else◌,
}
use openspmregistry.Strings.{Bytes, codes}
use openspmregistry.Strings.Paths.{path_join}
use openspmregistry.Models.Element.{Platform, UploadElement, file_name}

-- What Stat returns: an error that is os.ErrNotExist, another, or the time of the last change.
pub data Stat : Type 0 where
  not_exist : Stat
  stat_failed : Bytes → Stat
  stat_ok : ℕ → Stat

-- errors.Is(err, os.ErrNotExist)
abbrev pub is_not_exist : Stat → Bool
is_not_exist not_exist = true
is_not_exist (stat_failed _) = false
is_not_exist (stat_ok _) = false

-- An entry of a directory.
pub record Entry : Type 0 where
  pub name : Bytes
  pub is_dir : Bool

-- A call that WalkDir makes of its function: the path, the entry, and the error if there is one.
pub record Visit : Type 0 where
  pub path : Bytes
  pub entry : Entry
  pub failure : Option Bytes

-- `OsAdapter` over the state S of the file system, with what the program calls of package os.
pub record OsAdapter (S : Type 0) : Type 0 where
  pub stat : Bytes → S → Stat
  pub mkdir_all : Bytes → S → Result (Unit {0}) × S
  -- Open, and what reading the open file yields
  pub open_file : Bytes → S → Result (Result Bytes)
  pub create : Bytes → S → Result (Unit {0}) × S
  -- writing behind what was written to the file at a path since it was created, and closing it
  pub write_file : Bytes → Bytes → S → Result (Unit {0}) × S
  pub close_file : Bytes → S → Result (Unit {0}) × S
  -- the calls that WalkDir makes as long as its function returns nil
  pub walk_dir : Bytes → S → List Visit
  pub read_dir : Bytes → S → Result (List Entry)
  -- os.Remove
  pub remove_file : Bytes → S → Result (Unit {0}) × S

-- An open writer: the path of its file.
abbrev pub FileWriter : Type 0
FileWriter = Bytes

-- `root` is the path of the repository.
module _ (p : Platform) (root : Bytes) where
  unfoldable pub path_folder : UploadElement → Bytes
  unfolding path_join
  path_folder e = path_join (root ∷ e.scope ∷ e.name ∷ e.version ∷ [])

  unfoldable pub path_file : UploadElement → Bytes
  unfolding path_join file_name
  path_file e = path_join (root ∷ e.scope ∷ e.name ∷ e.version ∷ file_name p e ∷ [])

module _ {S : Type 0} (os : OsAdapter S) (p : Platform) (root : Bytes) where
  -- `Exists`: every error but one counts as existing
  unfoldable pub exists : UploadElement → S → Bool
  unfolding path_file
  exists e s = not (is_not_exist (os.stat (path_file p root e) s))

  -- `GetReader`, and what reading the file yields
  unfoldable pub get_reader : UploadElement → S → Result (Result Bytes)
  unfolding exists path_file
  get_reader e s =
      if not (exists e s)
      then err (codes "file not exists: " ++ file_name p e)
      else os.open_file (path_file p root e) s

  -- the folder of an element, made if it is missing
  unfoldable pub with_folder : Bytes → S → Result (Unit {0}) × S
  with_folder folder s = elim (os.stat folder s) [
    | not_exist ↦ os.mkdir_all folder s
    | stat_failed e ↦ (err e, s)
    | stat_ok _ ↦ (ok tt, s)
  ]

  abbrev pub writer_of : Bytes → Result (Unit {0}) × S → Result FileWriter × S
  writer_of path (err e, s) = (err e, s)
  writer_of path (ok _, s) = (ok path, s)

  abbrev pub created_in : Bytes → Result (Unit {0}) × S → Result FileWriter × S
  created_in path (err e, s) = (err e, s)
  created_in path (ok _, s) = writer_of path (os.create path s)

  -- `GetWriter`
  unfoldable pub get_writer : UploadElement → S → Result FileWriter × S
  unfolding with_folder path_folder path_join file_name
  get_writer e s =
      let folder = path_folder p root e in
      created_in (path_join (folder ∷ file_name p e ∷ [])) (with_folder folder s)

  unfoldable pub write : FileWriter → Bytes → S → Result FileWriter × S
  write w content s = writer_of w (os.write_file w content s)

  unfoldable pub close : FileWriter → S → Result (Unit {0}) × S
  close w s = os.close_file w s
