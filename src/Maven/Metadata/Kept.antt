-- ===== src/Maven/Metadata/Kept.antt =====
-- What an update of the metadata keeps.
use mathlib.Core.List.{Memᴰ}
use mathlib.Core.List.Permᴰ
use mathlib.Core.List.Memᴰ
use openspmregistry.Prelude.{
  ◌≡◌, ◌≢◌, refl, true, false, ◌==◌, ◌>>=◌, arith, Bool-cases, inl, inr, List, [], ◌∷◌, ◌++◌,
  Result, ok, err, All, All-append,
}
use openspmregistry.Strings.{Bytes, codes, contains}
use openspmregistry.Strings.Equality.{contains_sound}
use openspmregistry.Config.{MavenConfig}
use openspmregistry.Sort.{SortFunc, Ranked}
use openspmregistry.Models.Element.{Platform}
use openspmregistry.Models.Version.{compare_newest, sort_versions}
use openspmregistry.Models.Version.Sorting.{Parses, NotOlder, sort_versions-Ranked}
use openspmregistry.Sort.Insertion.{Memᴰ-perm}
use openspmregistry.Repo.{Context}
use openspmregistry.Maven.Client.{
  HttpClient, Formats, Fetched, fetched, status_error, request_error, get, put,
}
use openspmregistry.Maven.Metadata.{
  MavenMetadata, XmlFormat, Loaded, loaded, metadata_not_found, load_failed, with_version,
  with_latest, add_version, first_metadata, load_metadata, next_metadata, store_metadata,
  update_metadata, get_metadata_path, read_metadata,
}

with_version-Memᴰ :
    (version u : Bytes) (versions : List Bytes)
    → Memᴰ u (version ∷ versions)
    → Memᴰ u (with_version version versions)
with_version-Memᴰ version u versions there = elim (Bool-cases (contains versions version)) [
  | inl listed ↦ rw listed (known listed there)
  | inr missing ↦ rw missing (appended there)
]
  where
    known : contains versions version ≡ true → Memᴰ u (version ∷ versions) → Memᴰ u versions
    known listed (Memᴰ.head e) = Memᴰ.cast e (contains_sound versions version listed)
    known listed (Memᴰ.tail m) = m

    appended : Memᴰ u (version ∷ versions) → Memᴰ u (versions ++ (version ∷ []))
    appended (Memᴰ.head e) = Memᴰ.append_right versions (Memᴰ.head {xs = []} e)
    appended (Memᴰ.tail m) = Memᴰ.append_left (version ∷ []) m

with_version-Parses :
    (version : Bytes) (versions : List Bytes)
    → All Parses (version ∷ versions)
    → All Parses (with_version version versions)
with_version-Parses version versions (v, vs) = elim (Bool-cases (contains versions version)) [
  | inl listed ↦ rw listed vs
  | inr missing ↦ rw missing (All-append Parses versions (version ∷ []) vs (v, tt))
]

with_latest-versions :
    (versions : List Bytes) (metadata : MavenMetadata)
    → (with_latest versions metadata).versions ≡ versions
with_latest-versions [] metadata = refl
with_latest-versions (v ∷ versions) metadata = refl

-- The latest version and the release are the first version.
abbrev pub LeadsWith : MavenMetadata → Type 0
LeadsWith m = (rest : List Bytes) × (m.versions ≡ m.latest ∷ rest) × (m.release ≡ m.latest)

with_latest-LeadsWith :
    {u : Bytes} (versions : List Bytes) (metadata : MavenMetadata)
    → Memᴰ u versions
    → LeadsWith (with_latest versions metadata)
with_latest-LeadsWith [] metadata there = elim there [ ]
with_latest-LeadsWith (v ∷ versions) metadata there = (versions, refl, refl)

-- Metadata that has all the versions, newest first, and names the first of them.
abbrev pub Keeps : List Bytes → MavenMetadata → Type 0
Keeps versions m =
    ((u : Bytes) → Memᴰ u versions → Memᴰ u m.versions)
    × LeadsWith m
    × (All Parses versions → Ranked NotOlder m.versions)

add_version-Keeps :
    (slices : SortFunc) (version : Bytes) (m : MavenMetadata)
    → Keeps (version ∷ m.versions) (add_version slices version m)
unfolding add_version sort_versions
add_version-Keeps slices version m =
    let all = with_version version m.versions in
    let sorted = sort_versions slices all in
    let keeps : (u : Bytes) → Memᴰ u (version ∷ m.versions) → Memᴰ u sorted = λ u there.
      Memᴰ-perm (Permᴰ.symm (slices.permuted compare_newest all))
        (with_version-Memᴰ version u m.versions there) in
    (
      λ u there. rw (with_latest-versions sorted m) (keeps u there),
      with_latest-LeadsWith sorted m (keeps version (Memᴰ.head refl)),
      λ parse.
          rw (with_latest-versions sorted m)
            (sort_versions-Ranked slices all (with_version-Parses version m.versions parse)).1,
    )

module _ {S : Type 0} (http : HttpClient S) (p : Platform) (cfg : MavenConfig) (formats : Formats)
    (xml : XmlFormat) (slices : SortFunc) (timestamp : Bytes) (ctx : Context)
    (group_id artifact_id version : Bytes) (s : S) where
  abbrev path : Bytes
  path = get_metadata_path group_id artifact_id

  -- an update that ends with the upload of the metadata, stamped with the time, in one PUT
  abbrev pub Uploads : MavenMetadata → Result (Unit {0}) × S → Type 0
  Uploads m result =
      ((text : Bytes)
        → xml.encode (record m { last_updated = timestamp }) ≡ ok text
        → result ≡ put http p cfg formats ctx path text (codes "application/xml") s)
      × ((e : Bytes)
          → xml.encode (record m { last_updated = timestamp }) ≡ err e
          → result ≡ (err e, s))

  -- an update that fails before its upload
  abbrev pub Fails : Result (Unit {0}) × S → Type 0
  Fails result = (e : Bytes) × (result ≡ (err e, s))

  -- metadata of the one version
  abbrev pub IsFirst : MavenMetadata → Type 0
  IsFirst m =
      (m.group_id ≡ group_id)
      × (m.artifact_id ≡ artifact_id)
      × (m.versions ≡ version ∷ [])
      × LeadsWith m

  -- an update, by the answer to the request for the metadata
  abbrev pub Updated : Fetched → Result (Unit {0}) × S → Type 0
  Updated (request_error e) result = Fails result
  Updated (status_error status) result =
      (status ≡ 404 → (m : MavenMetadata) × IsFirst m × Uploads m result)
      × (status ≢ 404 → Fails result)
  Updated (fetched response) result =
      ((text : Bytes) (m : MavenMetadata)
        → response.body ≡ ok text
        → xml.parse_metadata text ≡ ok m
        → (m' : MavenMetadata) × Keeps (version ∷ m.versions) m' × Uploads m' result)
      × ((e : Bytes) → (response.body >>= xml.parse_metadata) ≡ err e → Fails result)

  store-Uploads :
      (m : MavenMetadata)
      → Uploads m (store_metadata http p cfg formats xml slices timestamp ctx path (ok m) s)
  unfolding store_metadata
  store-Uploads m =
      (λ text e. rw (store_metadata, e) refl, λ message e. rw (store_metadata, e) refl)

  abbrev updated_by : Loaded → Result (Unit {0}) × S
  updated_by load =
      store_metadata http p cfg formats xml slices timestamp ctx path
        (next_metadata slices group_id artifact_id version load) s

  unlisted-Uploads : (m : MavenMetadata) × IsFirst m × Uploads m (updated_by metadata_not_found)
  unfolding next_metadata first_metadata
  unlisted-Uploads = (
    first_metadata group_id artifact_id version,
    (refl, refl, refl, ([], refl, refl)),
    store-Uploads (first_metadata group_id artifact_id version),
  )

  failed-Fails : (e : Bytes) → Fails (updated_by (load_failed e))
  unfolding next_metadata store_metadata
  failed-Fails e = (e, refl)

  next-Uploads :
      (m : MavenMetadata)
      → (m' : MavenMetadata) × Keeps (version ∷ m.versions) m' × Uploads m' (updated_by (loaded m))
  unfolding next_metadata
  next-Uploads m = (
    add_version slices version m,
    add_version-Keeps slices version m,
    store-Uploads (add_version slices version m),
  )

  fetch-Updated :
      (answer : Fetched)
      → Updated answer (updated_by (read_metadata http p cfg formats xml ctx answer))
  fetch-Updated (request_error e) = failed-Fails e
  fetch-Updated (status_error status) = (
    λ missing. rw missing unlisted-Uploads,
    λ other.
        let h : (status == 404) ≡ false = ground arith in
        rw h (failed-Fails (codes "request failed with status")),
  )
  fetch-Updated (fetched response) = (
    λ text m body text_parsed. rw (body, text_parsed) (next-Uploads m),
    λ e failed. rw failed (failed-Fails e),
  )

  -- An update of the metadata of an artifact, by the answer to its request: if that says 404, one PUT
  -- uploads metadata of the one version; if it is another failure or does not parse, the server is left
  -- as it is; otherwise one PUT uploads metadata with all the versions that were answered and the new
  -- one, whose latest version and release is the first, and none precedes one behind it if they all
  -- parse. What is uploaded is stamped with the time, and a failed encoding uploads nothing.
  pub update_metadata-Updated :
      Updated
        (get http p cfg formats ctx path s)
        (update_metadata http p cfg formats xml slices timestamp ctx group_id artifact_id version s)
  unfolding update_metadata load_metadata
  update_metadata-Updated = fetch-Updated (get http p cfg formats ctx path s)
