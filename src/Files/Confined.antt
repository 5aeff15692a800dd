-- ===== src/Files/Confined.antt =====
-- Where the files of an element stand, and what a removal leaves.
use openspmregistry.Prelude.{
  ℕ, ◌≡◌, refl, Bool-cases, inl, inr, true, false, not, ok, List, [], ◌∷◌, ◌++◌, All,
}
use openspmregistry.Strings.{Bytes, codes, join}
use openspmregistry.Strings.Paths.Plain.{Plain, path_join-prefix}
use openspmregistry.Models.Element.{Platform, UploadElement, file_name}
use openspmregistry.Repo.{Context}
use openspmregistry.Repo.Laws.{RemoveLaws}
use openspmregistry.Files.Access.{
  Stat, not_exist, stat_failed, stat_ok, is_not_exist, OsAdapter, path_file, exists,
}
use openspmregistry.Files.Backend.{Formats, remove}
use openspmregistry.Files.Extraction.{file_repo}

-- If the directory of the repository is a relative path of plain names, and the scope, the name, the
-- version and the file name of an element are plain, then the file of the element stands in the
-- directory of its version, of its name, of its scope, in that of the repository.
pub path_file-Plain :
    (p : Platform) (root : List Bytes) (e : UploadElement)
    → All Plain root
    → All Plain (e.scope ∷ e.name ∷ e.version ∷ file_name p e ∷ [])
    → path_file p (join root (codes "/")) e
      ≡ join (root ++ (e.scope ∷ e.name ∷ e.version ∷ file_name p e ∷ [])) (codes "/")
unfolding path_file
path_file-Plain p root e plain_root plain =
    path_join-prefix root e.scope (e.name ∷ e.version ∷ file_name p e ∷ []) plain_root plain

-- What the file system promises: a file whose removal succeeds is not there, and a removal makes no
-- file.
pub record FileLaws {S : Type 0} (os : OsAdapter S) : Type 0 where
  pub remove_self :
      (path : Bytes) (s : S)
      → (os.remove_file path s).0 ≡ ok tt
      → os.stat path ((os.remove_file path s).1) ≡ not_exist
  pub remove_other :
      (path other : Bytes) (s : S)
      → os.stat other s ≡ not_exist
      → os.stat other ((os.remove_file path s).1) ≡ not_exist

-- No removal of a file fails that Stat does not report missing.
abbrev pub Removes : {S : Type 0} → OsAdapter S → Type 0
Removes {S} os =
    (path : Bytes) (s : S)
    → is_not_exist (os.stat path s) ≡ false
    → (os.remove_file path s).0 ≡ ok tt

present_stat : (found : Stat) → not (is_not_exist found) ≡ true → is_not_exist found ≡ false
present_stat not_exist h = cc h
present_stat (stat_failed e) h = refl
present_stat (stat_ok date) h = refl

exists-present :
    {S : Type 0} (os : OsAdapter S) (p : Platform) (root : Bytes) (e : UploadElement) (s : S)
    → exists os p root e s ≡ true
    → is_not_exist (os.stat (path_file p root e) s) ≡ false
unfolding exists
exists-present os p root e s h = present_stat (os.stat (path_file p root e) s) h

missing_stat : (found : Stat) → not (is_not_exist found) ≡ false → found ≡ not_exist
missing_stat not_exist h = refl
missing_stat (stat_failed e) h = cc h
missing_stat (stat_ok date) h = cc h

exists-missing :
    {S : Type 0} (os : OsAdapter S) (p : Platform) (root : Bytes) (e : UploadElement) (s : S)
    → os.stat (path_file p root e) s ≡ not_exist
    → exists os p root e s ≡ false
unfolding exists
exists-missing os p root e s h = rw (exists, h) refl

missing-exists :
    {S : Type 0} (os : OsAdapter S) (p : Platform) (root : Bytes) (e : UploadElement) (s : S)
    → exists os p root e s ≡ false
    → os.stat (path_file p root e) s ≡ not_exist
unfolding exists
missing-exists os p root e s h = missing_stat (os.stat (path_file p root e) s) h

-- The directory keeps the laws of removal that a publish relies on for its rollback, as long as no
-- removal fails.
pub file_repo-RemoveLaws :
    {S : Type 0} (os : OsAdapter S) (p : Platform) (root : Bytes) (formats : Formats S) (now : ℕ)
    (laws : FileLaws os) (removes : Removes os) (ctx : Context)
    → RemoveLaws (file_repo os p root formats now) ctx
unfolding remove
file_repo-RemoveLaws os p root formats now laws removes ctx = record {
  remove_self = λ e s h.
      rw (remove, h)
        (exists-missing os p root e _ (
          laws.remove_self (path_file p root e) s
            (removes (path_file p root e) s (exists-present os p root e s h))));
  remove_other = λ e f s h. elim (Bool-cases (exists os p root e s)) [
    | inl there ↦
        rw (remove, there)
          (exists-missing os p root f _ (
            laws.remove_other (path_file p root e) (path_file p root f) s
              (missing-exists os p root f s h)))
    | inr missing ↦ rw (remove, missing) h
  ];
}
