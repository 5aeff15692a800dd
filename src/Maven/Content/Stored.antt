-- ===== src/Maven/Content/Stored.antt =====
-- What is read of an element behind its upload.
use openspmregistry.Prelude.{ℕ, ◌≤◌, ◌≡◌, ◌≢◌, Bool, Option, some, true, [], ◌∷◌, ◌++◌, ok, length}
use openspmregistry.Int.{int_max}
use openspmregistry.Strings.{Bytes, codes, replace_all}
use openspmregistry.Strings.Cutting.{Lacks}
use openspmregistry.Config.{MavenConfig}
use openspmregistry.Sort.{SortFunc}
use openspmregistry.Models.Element.{Platform, UploadElement}
use openspmregistry.Repo.{Context}
use openspmregistry.Maven.Coordinates.{
  build_maven_path_for_element, build_group_id, build_artifact_id, build_version,
  path_parts_for_element, maven_filename,
}
use openspmregistry.Maven.Client.{HttpClient, Formats, put, delete}
use openspmregistry.Maven.Metadata.{XmlFormat, get_metadata_path}
use openspmregistry.Maven.Access.{MavenWriter, check_range_support, get_writer, write}
use openspmregistry.Maven.Content.{Bodies}
use openspmregistry.Maven.Content.Served.{Holds, ServesRanges}
use openspmregistry.Maven.FilePaths.{IsFilePath}

module _ {S B : Type 0} (http : HttpClient S) (bodies : Bodies S B) (p : Platform)
    (cfg : MavenConfig) (formats : Formats) (ctx : Context) (fuel : ℕ) (unread : B → Bytes)
    (file : Bytes → S → Option Bytes) (known : Option Bool) where
  -- A server of files: it answers with a file that it has, and its ranges if it is taken to support
  -- them, a PUT that succeeds makes the file, and a PUT or DELETE changes no other file.
  pub record FileServer : Type 0 where
    pub holds :
        (path : Bytes) (s : S) (text : Bytes)
        → IsFilePath path
        → file path s ≡ some text
        → text ≢ []
        → length text ≤ int_max
        → Holds http bodies p cfg formats ctx fuel path s text unread
    pub serves :
        (path : Bytes) (s : S) (text : Bytes)
        → IsFilePath path
        → file path s ≡ some text
        → text ≢ []
        → length text ≤ int_max
        → (check_range_support http p cfg formats ctx known path s).0 ≡ true
        → ServesRanges http bodies p cfg formats ctx fuel path s text unread
    pub put_makes :
        (path text content_type : Bytes) (s : S)
        → IsFilePath path
        → (put http p cfg formats ctx path text content_type s).0 ≡ ok tt
        → file path ((put http p cfg formats ctx path text content_type s).1) ≡ some text
    pub put_apart :
        (path other text content_type : Bytes) (s : S)
        → IsFilePath path
        → IsFilePath other
        → path ≢ other
        → file path ((put http p cfg formats ctx other text content_type s).1) ≡ file path s
    pub delete_apart :
        (path other : Bytes) (s : S)
        → IsFilePath path
        → IsFilePath other
        → path ≢ other
        → file path ((delete http p cfg formats ctx other s).1) ≡ file path s

-- the name of the file of an element
abbrev pub stored_name : Platform → UploadElement → Bytes
stored_name p e =
    maven_filename (build_artifact_id e.name) (build_version e.version)
      (path_parts_for_element p e).0 (path_parts_for_element p e).1

-- the folder of the artifact of an element
abbrev artifact_folder : MavenConfig → UploadElement → Bytes
artifact_folder cfg e =
    replace_all (build_group_id e.scope cfg) b'.' b'/' ++ (b'/' ∷ build_artifact_id e.name)

module _ {S B : Type 0} (http : HttpClient S) (bodies : Bodies S B) (p : Platform)
    (cfg : MavenConfig) (formats : Formats) (ctx : Context) (fuel : ℕ) (unread : B → Bytes)
    (file : Bytes → S → Option Bytes) (xml : XmlFormat) (slices : SortFunc) (timestamp : Bytes)
    (digest : Bytes → Bytes) (known : Option Bool)
    (server : FileServer http bodies p cfg formats ctx fuel unread file known) (e : UploadElement)
    (text : Bytes) (plain : Lacks b'/' (stored_name p e))
    (named : stored_name p e ≢ codes "index-1.json")
    (at : IsFilePath (build_maven_path_for_element p e cfg))
    (at_sum : IsFilePath (build_maven_path_for_element p e cfg ++ codes ".sha256"))
    (at_metadata : IsFilePath
      (get_metadata_path (build_group_id e.scope cfg) (build_artifact_id e.name))) where
  abbrev path : Bytes
  path = build_maven_path_for_element p e cfg

  -- the writer behind the write of the text
  abbrev writer : MavenWriter
  writer = write (get_writer p cfg ctx e) text
