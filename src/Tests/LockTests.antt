-- ===== src/Tests/LockTests.antt =====
-- Two uploads of versions of one package at once: the theorem on their updates, at concrete inputs.
use openspmregistry.Prelude.{
  ℕ, ◌≡◌, arith, refl, none, List, [], ◌∷◌, Result, ok, if◌then◌else◌, ◌==◌, Bool-cases, inl, inr,
}
use openspmregistry.Strings.{Bytes, codes, eq_bytes, join, contains_byte, replace_all}
use openspmregistry.Strings.Equality.{eq_bytes_iff}
use openspmregistry.Sort.Insertion.{by_insertion}
use openspmregistry.Maven.Client
use openspmregistry.Maven.Client.{HttpClient, get, put}
use openspmregistry.Maven.FilePaths.{
  IsFilePath, file_path, are_plain, is_empty-IsFilePath, path_join-IsFilePath,
}
use openspmregistry.Repo.{Context}
use openspmregistry.Maven.Metadata.{MavenMetadata, get_metadata_path}
use openspmregistry.Maven.Locking.{
  Shared, new_shared, advance, Reach, begin, step, holding, waiting,
}
use openspmregistry.Maven.Locking.Serial.{IsSerial}
use openspmregistry.Maven.Locking.Returning.{Returns, Reach-Returns}
use openspmregistry.Maven.Locking.Updates.{
  MetadataUpdate, IsPlain, FilesApart, lock_key, key_of, path_of, load_of, store_of, update_of,
  update_metadata_locked-IsSerial,
}
use openspmregistry.Tests.Memory.{cleaning}
use openspmregistry.Tests.ServerTests.{maven}
use openspmregistry.Tests.BackendTests.{answering, formats, xml}

abbrev Files : Type 0
Files = Bytes → Bytes

-- a server with a file for each url
abbrev files : HttpClient Files
files = record {
  new_request = λ url. ok tt;
  head = λ call s. ok (answering (s call.url));
  get = λ call s. ok (answering (s call.url));
  put = λ call s. (ok (answering []), λ url. if eq_bytes url call.url then call.body else s url);
  delete = λ call s. (ok (answering []), s);
}

request :
    (ctx : Context) (path body content_type : Bytes)
    → IsFilePath path
    → Client.make_request files cleaning maven formats ctx path body content_type
      ≡ ok (record { url = path; authorization = []; content_type = content_type; body = body })
unfolding Client.make_request
request ctx path body content_type at = rw (is_empty-IsFilePath at, path_join-IsFilePath at) refl

files-FilesApart : FilesApart files cleaning maven formats xml by_insertion
unfolding get put
files-FilesApart ctx ctx' path path' text content_type s at at' apart =
    rw (get, put, request ctx path [] [] at, request ctx' path' text content_type at')
      (ground (arith, eq_bytes_iff path path'))

abbrev update_to : Bytes → Bytes → MetadataUpdate
update_to artifact version = record {
  ctx = none;
  group_id = codes "s";
  artifact_id = artifact;
  version = version;
  timestamp = [];
}

-- two versions of one package, and then of another one
abbrev updates : ℕ → MetadataUpdate
updates i =
    if i == 0
    then update_to (codes "n") (codes "2.0.0")
    else if i == 1
    then update_to (codes "n") (codes "3.0.0")
    else update_to (codes "m") (codes "1.0.0")

updates-IsPlain : (i : ℕ) → IsPlain (updates i)
updates-IsPlain i = elim (Bool-cases (i == 0)) [
  | inl first ↦ rw first (record { plain_group = omega arith; plain_artifact = omega arith })
  | inr later ↦ rw later (elim (Bool-cases (i == 1)) [
    | inl second ↦ rw second (record { plain_group = omega arith; plain_artifact = omega arith })
    | inr third ↦ rw third (record { plain_group = omega arith; plain_artifact = omega arith })
  ])
]

updates-IsFilePath :
    (i : ℕ) → IsFilePath (path_of files cleaning maven formats xml by_insertion updates i)
unfolding get_metadata_path are_plain eq_bytes contains_byte join replace_all
updates-IsFilePath i = elim (Bool-cases (i == 0)) [
  | inl first ↦
      rw first
        (file_path _ (codes "s") (codes "n" ∷ codes "maven-metadata.xml" ∷ []) refl refl refl)
  | inr later ↦ rw later (elim (Bool-cases (i == 1)) [
    | inl second ↦
        rw second
          (file_path _ (codes "s") (codes "n" ∷ codes "maven-metadata.xml" ∷ []) refl refl refl)
    | inr third ↦
        rw third
          (file_path _ (codes "s") (codes "m" ∷ codes "maven-metadata.xml" ∷ []) refl refl refl)
  ])
]

abbrev State : Type 0
State = Shared Files (Result MavenMetadata) (Result (Unit {0}))

abbrev begun : Files
begun url = codes "x"

abbrev key : ℕ → Bytes
key = key_of files cleaning maven formats xml by_insertion updates

abbrev load : ℕ → Files → Result MavenMetadata
load = load_of files cleaning maven formats xml by_insertion updates

abbrev store : ℕ → Result MavenMetadata → Files → Result (Unit {0}) × Files
store = store_of files cleaning maven formats xml by_insertion updates

-- the state behind steps of the uploads of these numbers, the last one first
behind : List ℕ → State
behind [] = new_shared begun
behind (i ∷ steps) = advance key load store i ((behind steps).pc i) (behind steps)

behind-Reach : (steps : List ℕ) → Reach key load store begun (behind steps)
unfolding behind
behind-Reach [] = begin
behind-Reach (i ∷ steps) = step i (behind-Reach steps)

-- Both look for the mutex, the second waits for it, and runs when the first has released it.
abbrev both : List ℕ
both = 1 ∷ 1 ∷ 1 ∷ 1 ∷ 0 ∷ 1 ∷ 0 ∷ 0 ∷ 1 ∷ 0 ∷ 1 ∷ 1 ∷ 1 ∷ 0 ∷ 1 ∷ 0 ∷ 1 ∷ 0 ∷ 0 ∷ []

-- Both have found the one mutex, and only the first has taken it.
both_waited :
    let a = behind (1 ∷ 1 ∷ 1 ∷ 1 ∷ 1 ∷ 0 ∷ 0 ∷ 0 ∷ 0 ∷ 0 ∷ []) in
    (a.next_mutex ≡ 1) × (a.pc 0 ≡ holding 0) × (a.pc 1 ≡ waiting 0)
unfolding behind advance eq_bytes lock_key
both_waited = (refl, refl, refl)

update_metadata_locked-IsSerial_example :
    IsSerial key load store
      (update_of files cleaning maven formats xml by_insertion updates)
      begun
      (behind both)
update_metadata_locked-IsSerial_example =
    update_metadata_locked-IsSerial files cleaning maven formats xml by_insertion updates
      files-FilesApart updates-IsPlain updates-IsFilePath (behind-Reach both)

-- the second waits for the first, which holds their mutex
abbrev waits : List ℕ
waits = 1 ∷ 1 ∷ 1 ∷ 1 ∷ 0 ∷ 0 ∷ 0 ∷ 0 ∷ 0 ∷ []

Reach-Returns_example : Returns key load store (behind waits) 1
Reach-Returns_example = Reach-Returns key load store (behind-Reach waits) 1
