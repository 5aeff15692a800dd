-- ===== src/Maven/Locking/Updates.antt =====
-- The updates of maven-metadata.xml by concurrent uploads: updateMetadataLocked with updateMetadata.
use mathlib.Core.List.{append_cancel_right}
use openspmregistry.Prelude.{
  ℕ, ◌≡◌, ◌≢◌, refl, sym, ◌∙◌, [], ◌∷◌, ◌++◌, append_assoc, arith, Result, ok, err, Result-cases,
  inl, inr,
}
use openspmregistry.Strings.{Bytes, codes, replace_all}
use openspmregistry.Strings.Cutting.{Lacks, last_part}
use openspmregistry.Config.{MavenConfig}
use openspmregistry.Sort.{SortFunc}
use openspmregistry.Models.Element.{Platform}
use openspmregistry.Repo.{Context}
use openspmregistry.Maven.Client.{HttpClient, Formats, get, put}
use openspmregistry.Maven.Metadata.{
  MavenMetadata, XmlFormat, get_metadata_path, load_metadata, next_metadata, store_metadata,
  update_metadata,
}
use openspmregistry.Maven.FilePaths.{IsFilePath}
use openspmregistry.Maven.Locking.{Shared, Reach}
use openspmregistry.Maven.Locking.Exclusion.{Isolated}
use openspmregistry.Maven.Locking.Serial.{IsSerial, Reach-IsSerial}

-- The arguments of a call of updateMetadataLocked, and the time of its update.
pub record MetadataUpdate : Type 0 where
  pub ctx : Context
  pub group_id : Bytes
  pub artifact_id : Bytes
  pub version : Bytes
  pub timestamp : Bytes

-- the key of the map of mutexes
unfoldable pub lock_key : MetadataUpdate → Bytes
lock_key u = u.group_id ++ (codes "/" ++ u.artifact_id)

-- neither id holds a slash
pub record IsPlain (u : MetadataUpdate) : Type 0 where
  pub plain_group : Lacks b'/' u.group_id
  pub plain_artifact : Lacks b'/' u.artifact_id

replace_all_inj :
    (s t : Bytes)
    → Lacks b'/' s
    → Lacks b'/' t
    → replace_all s b'.' b'/' ≡ replace_all t b'.' b'/'
    → s ≡ t
unfolding replace_all
replace_all_inj [] [] hs ht e = refl
replace_all_inj [] (d ∷ t) hs ht e = cc
replace_all_inj (c ∷ s) [] hs ht e = cc
replace_all_inj (c ∷ s) (d ∷ t) (hc, hs) (hd, ht) e = ground (arith, replace_all_inj s t hs ht)

pub metadata_path_split :
    (g a : Bytes)
    → get_metadata_path g a ≡ (replace_all g b'.' b'/' ++ (b'/' ∷ a)) ++ codes "/maven-metadata.xml"
unfolding get_metadata_path
metadata_path_split g a =
    sym (append_assoc (replace_all g b'.' b'/') (b'/' ∷ a) (codes "/maven-metadata.xml"))

-- Updates of one file have one key.
same_file-same_key :
    (u v : MetadataUpdate)
    → IsPlain u
    → IsPlain v
    → get_metadata_path u.group_id u.artifact_id ≡ get_metadata_path v.group_id v.artifact_id
    → lock_key u ≡ lock_key v
unfolding lock_key
same_file-same_key u v hu hv e =
    let folders = append_cancel_right _ _ (codes "/maven-metadata.xml") (
      sym (metadata_path_split u.group_id u.artifact_id)
      ∙ e
      ∙ metadata_path_split v.group_id v.artifact_id) in
    let (groups, artifacts) = last_part b'/' _ _ hu.plain_artifact hv.plain_artifact folders in
    let group = replace_all_inj u.group_id v.group_id hu.plain_group hv.plain_group groups in
    rw (group, artifacts) refl

module _ {S : Type 0} (http : HttpClient S) (p : Platform) (cfg : MavenConfig) (formats : Formats)
    (xml : XmlFormat) (slices : SortFunc) where
  -- A PUT of one file leaves what a GET of another is answered, of paths that each name their own.
  abbrev pub FilesApart : Type 0
  FilesApart =
      (ctx ctx' : Context) (path path' text content_type : Bytes) (s : S)
      → IsFilePath path
      → IsFilePath path'
      → path ≢ path'
      → get http p cfg formats ctx path ((put http p cfg formats ctx' path' text content_type s).1)
        ≡ get http p cfg formats ctx path s

  module _ (updates : ℕ → MetadataUpdate) where
    abbrev pub key_of : ℕ → Bytes
    key_of i = lock_key (updates i)

    -- the file that a call updates
    abbrev pub path_of : ℕ → Bytes
    path_of i = get_metadata_path (updates i).group_id (updates i).artifact_id

    abbrev pub load_of : ℕ → S → Result MavenMetadata
    load_of i s =
        let u = updates i in
        next_metadata slices u.group_id u.artifact_id u.version
          (load_metadata http p cfg formats xml u.ctx u.group_id u.artifact_id s)

    abbrev pub store_of : ℕ → Result MavenMetadata → S → Result (Unit {0}) × S
    store_of i m s =
        let u = updates i in
        store_metadata http p cfg formats xml slices u.timestamp u.ctx
          (get_metadata_path u.group_id u.artifact_id) m s

    -- `updateMetadata`, whole
    abbrev pub update_of : ℕ → S → Result (Unit {0}) × S
    update_of i s =
        let u = updates i in
        update_metadata http p cfg formats xml slices u.timestamp u.ctx u.group_id u.artifact_id
          u.version s

    whole : (i : ℕ) (s : S) → store_of i (load_of i s) s ≡ update_of i s
    unfolding update_metadata
    whole i s = refl

    module _ (apart : FilesApart) (plain : (i : ℕ) → IsPlain (updates i))
        (files : (i : ℕ) → IsFilePath (path_of i)) where
      stored_apart :
          (i j : ℕ) (m : Result MavenMetadata) (s : S)
          → key_of i ≢ key_of j
          → get http p cfg formats
              (updates i).ctx
              (get_metadata_path (updates i).group_id (updates i).artifact_id)
              ((store_of j m s).1)
            ≡ get http p cfg formats
                (updates i).ctx
                (get_metadata_path (updates i).group_id (updates i).artifact_id)
                s
      unfolding store_metadata
      stored_apart i j (err e) s other = refl
      stored_apart i j (ok m) s other =
          elim (Result-cases (xml.encode (record m { last_updated = (updates j).timestamp }))) [
            | inr (text, encoded) ↦ rw encoded (
                apart _ (updates j).ctx _ _ text (codes "application/xml") s (files i) (files j)
                  (λ e. other (same_file-same_key (updates i) (updates j) (plain i) (plain j) e)))
            | inl (e, failed) ↦ rw failed refl
          ]

      updates-Isolated : Isolated key_of load_of store_of
      unfolding load_metadata
      updates-Isolated i j m s other = rw (stored_apart i j m s other) refl

      -- Concurrent calls of updateMetadataLocked act one behind the other. In whatever order their
      -- steps are made, also between other uploads that leave the metadata as it is, the server is at
      -- every moment one that the uploads so far would have left as whole updates, each begun when
      -- the one before was over, and each call whose upload is over got the result of its update.
      -- The group and artifact ids hold no slash, their paths are of plain names without escapes, and
      -- a PUT of such a path does not change the files of the others.
      pub update_metadata_locked-IsSerial :
          {s : S} {a : Shared S (Result MavenMetadata) (Result (Unit {0}))}
          → Reach key_of load_of store_of s a
          → IsSerial key_of load_of store_of update_of s a
      update_metadata_locked-IsSerial =
          Reach-IsSerial key_of load_of store_of update_of whole updates-Isolated
