-- ===== src/S3/Client.antt =====
-- What repo/s3 uses of the S3 client, and the calls of repo/s3/access.go and repo/s3/writer.go.
use openspmregistry.Prelude.{ℕ, Bool, Option, List, [], ◌∷◌, ◌++◌, Result, ok, err, is_ok}
use openspmregistry.Strings.{Bytes, codes}
use openspmregistry.Config.{S3Config}
use openspmregistry.Models.Element.{Platform, UploadElement}
use openspmregistry.S3.Keys.{build_element_key}

-- A response of HeadObject. The metadata is a list of its entries in some order.
pub record Head : Type 0 where
  pub last_modified : Option ℕ
  pub metadata : List (Bytes × Bytes)

-- A response of ListObjectsV2; `none` is a nil pointer.
pub record Listing : Type 0 where
  pub common_prefixes : List (Option Bytes)
  pub contents : List (Option Bytes)
  pub is_truncated : Option Bool
  pub next_continuation_token : Option Bytes

-- The client of the bucket in the configuration, over the state S of the service.
pub record Client (S : Type 0) : Type 0 where
  pub head_object : Bytes → S → Result Head
  -- the body and what reading it yields
  pub get_object : Bytes → S → Result (Result Bytes)
  -- key, body, content type and metadata
  pub put_object : Bytes → Bytes → Bytes → List (Bytes × Bytes) → S → Result (Unit {0}) × S
  pub delete_object : Bytes → S → Result (Unit {0}) × S
  -- prefix, delimiter and continuation token
  pub list_objects : Bytes → Option Bytes → Option Bytes → S → Result Listing

-- An open writer.
pub record S3Writer : Type 0 where
  pub key : Bytes
  pub content_type : Bytes
  pub buffer : Bytes

module _ {S : Type 0} (client : Client S) where
  unfoldable pub exists_key : Bytes → S → Bool
  exists_key key s = is_ok (client.head_object key s)

  abbrev read_body : Bytes → Result (Result Bytes) → Result Bytes
  read_body key (err e) = err (codes "failed to get object " ++ (key ++ (codes ": " ++ e)))
  read_body key (ok (err e)) = err (codes "failed to read object " ++ (key ++ (codes ": " ++ e)))
  read_body key (ok (ok content)) = ok content

  unfoldable pub get_reader_for_key : Bytes → S → Result Bytes
  get_reader_for_key key s = read_body key (client.get_object key s)

-- `s3Writer.Write`: bytes.Buffer never fails
unfoldable pub write : S3Writer → Bytes → S3Writer
write w content = record w { buffer = w.buffer ++ content }

-- `digest` is the hexadecimal SHA-256 of package crypto.
module _ {S : Type 0} (client : Client S) (digest : Bytes → Bytes) where
  abbrev pub closed : Bytes → Result (Unit {0}) × S → Result (Unit {0}) × S
  closed key (ok _, s) = (ok tt, s)
  closed key (err e, s) = (err (codes "failed to upload object " ++ (key ++ (codes ": " ++ e))), s)

  -- `s3Writer.Close`
  unfoldable pub close : S3Writer → S → Result (Unit {0}) × S
  close w s =
      closed w.key
        (client.put_object w.key w.buffer w.content_type ((codes "sha256", digest w.buffer) ∷ []) s)

module _ {S : Type 0} (client : Client S) (p : Platform) (cfg : S3Config) where
  -- `access.Exists`
  unfoldable pub exists : UploadElement → S → Bool
  unfolding exists_key
  exists e s = exists_key client (build_element_key p cfg e) s

  -- `access.GetReader`
  unfoldable pub get_reader : UploadElement → S → Result Bytes
  unfolding get_reader_for_key
  get_reader e s = get_reader_for_key client (build_element_key p cfg e) s

  -- `access.GetWriter`
  unfoldable pub get_writer : UploadElement → S3Writer
  get_writer e = record { key = build_element_key p cfg e; content_type = e.mime_type; buffer = [] }
