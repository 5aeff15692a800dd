-- ===== src/Maven/Metadata.antt =====
-- repo/maven/metadata.go
pub mod Kept
use openspmregistry.Prelude.{
  ℕ, Bool, true, false, Option, none, some, List, [], ◌∷◌, ◌++◌, ◌==◌, Result, ok, err, ◌>>=◌,
  if◌then◌else◌,
}
use openspmregistry.Strings.{Bytes, codes, contains, replace_all}
use openspmregistry.Config.{MavenConfig}
use openspmregistry.Sort.{SortFunc}
use openspmregistry.Models.Element.{Platform}
use openspmregistry.Models.Version.{sort_versions}
use openspmregistry.Repo.{Context}
use openspmregistry.Maven.Client.{
  HttpClient, Formats, Fetched, fetched, status_error, request_error, get, put,
}

-- `MavenMetadata` with the fields of `Versioning`
pub record MavenMetadata : Type 0 where
  pub group_id : Bytes
  pub artifact_id : Bytes
  pub latest : Bytes
  pub release : Bytes
  pub versions : List Bytes
  pub last_updated : Bytes

-- encoding/xml
pub record XmlFormat : Type 0 where
  -- xml.Unmarshal
  pub parse_metadata : Bytes → Result MavenMetadata
  -- the XML header and xml.Encoder with its indentation
  pub encode : MavenMetadata → Result Bytes

-- The metadata, ErrMetadataNotFound, or another error.
pub data Loaded : Type 0 where
  loaded : MavenMetadata → Loaded
  metadata_not_found : Loaded
  load_failed : Bytes → Loaded

unfoldable pub get_metadata_path : Bytes → Bytes → Bytes
unfolding replace_all
get_metadata_path group_id artifact_id =
    replace_all group_id b'.' b'/' ++ (codes "/" ++ (artifact_id ++ codes "/maven-metadata.xml"))

abbrev parsed : Result MavenMetadata → Loaded
parsed (err e) = load_failed e
parsed (ok metadata) = loaded metadata

-- the metadata of a new artifact
unfoldable pub first_metadata : Bytes → Bytes → Bytes → MavenMetadata
first_metadata group_id artifact_id version = record {
  group_id = group_id;
  artifact_id = artifact_id;
  latest = version;
  release = version;
  versions = version ∷ [];
  last_updated = [];
}

-- a version that is not there is appended
abbrev pub with_version : Bytes → List Bytes → List Bytes
with_version version versions =
    if contains versions version then versions else versions ++ (version ∷ [])

-- the latest and the release are the first of the sorted versions
abbrev pub with_latest : List Bytes → MavenMetadata → MavenMetadata
with_latest [] metadata = record metadata { versions = [] }
with_latest (latest ∷ versions) metadata = record metadata {
  latest = latest;
  release = latest;
  versions = latest ∷ versions;
}

unfoldable pub add_version : SortFunc → Bytes → MavenMetadata → MavenMetadata
unfolding contains sort_versions
add_version slices version metadata =
    with_latest (sort_versions slices (with_version version metadata.versions)) metadata

module _ {S : Type 0} (http : HttpClient S) (p : Platform) (cfg : MavenConfig) (formats : Formats)
    (xml : XmlFormat) (ctx : Context) where
  abbrev read_metadata : Fetched → Loaded
  read_metadata (request_error e) = load_failed e
  read_metadata (status_error status) =
      if status == 404 then metadata_not_found else load_failed (codes "request failed with status")
  read_metadata (fetched response) = parsed (response.body >>= xml.parse_metadata)

  unfoldable pub load_metadata : Bytes → Bytes → S → Loaded
  unfolding get get_metadata_path
  load_metadata group_id artifact_id s =
      read_metadata (get http p cfg formats ctx (get_metadata_path group_id artifact_id) s)

-- the metadata before it is stamped, or the error of the load
unfoldable pub next_metadata : SortFunc → Bytes → Bytes → Bytes → Loaded → Result MavenMetadata
unfolding first_metadata add_version
next_metadata slices group_id artifact_id version (load_failed e) = err e
next_metadata slices group_id artifact_id version metadata_not_found =
    ok (first_metadata group_id artifact_id version)
next_metadata slices group_id artifact_id version (loaded metadata) =
    ok (add_version slices version metadata)

-- `timestamp` is the time in the format of lastUpdated.
module _ {S : Type 0} (http : HttpClient S) (p : Platform) (cfg : MavenConfig) (formats : Formats)
    (xml : XmlFormat) (slices : SortFunc) (timestamp : Bytes) (ctx : Context) where
  abbrev uploaded : Bytes → Result Bytes → S → Result (Unit {0}) × S
  uploaded path (err e) s = (err e, s)
  uploaded path (ok text) s = put http p cfg formats ctx path text (codes "application/xml") s

  -- behind the load
  unfoldable pub store_metadata : Bytes → Result MavenMetadata → S → Result (Unit {0}) × S
  unfolding put
  store_metadata path (err e) s = (err e, s)
  store_metadata path (ok metadata) s =
      uploaded path (xml.encode (record metadata { last_updated = timestamp })) s

  unfoldable pub update_metadata : Bytes → Bytes → Bytes → S → Result (Unit {0}) × S
  unfolding load_metadata next_metadata store_metadata get_metadata_path
  update_metadata group_id artifact_id version s =
      store_metadata (get_metadata_path group_id artifact_id)
        (next_metadata slices group_id artifact_id version
          (load_metadata http p cfg formats xml ctx group_id artifact_id s))
        s
