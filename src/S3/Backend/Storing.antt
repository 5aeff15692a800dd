-- ===== src/S3/Backend/Storing.antt =====
-- Elements that are written, read and removed.
use openspmregistry.Prelude.{
  ℕ, ◌≡◌, refl, true, false, some, List, [], ◌∷◌, Result, ok, err, is_ok, length, Bool-cases, inl,
  inr,
}
use openspmregistry.Strings.{Bytes, codes, eq_bytes, to_lower}
use openspmregistry.Config.{S3Config}
use openspmregistry.Models.Element.{Platform, UploadElement}
use openspmregistry.Repo.{Context}
use openspmregistry.Repo.Laws.{RemoveLaws}
use openspmregistry.S3.Keys.{build_element_key}
use openspmregistry.S3.Client.{
  Client, Head, exists, get_reader, get_reader_for_key, get_writer, write, close, closed,
}
use openspmregistry.S3.Backend.{
  Formats, s3_repo, checksum, checksum_of_head, stored_checksum, remove,
}

-- What the service promises: an object that was put is read as it was put, an object whose
-- deletion succeeds is not there, and a deletion puts no object.
pub record ServiceLaws {S : Type 0} (client : Client S) : Type 0 where
  pub put_get :
      (key body content_type : Bytes) (metadata : List (Bytes × Bytes)) (s s' : S)
      → client.put_object key body content_type metadata s ≡ (ok tt, s')
      → client.get_object key s' ≡ ok (ok body)
  pub put_head :
      (key body content_type : Bytes) (metadata : List (Bytes × Bytes)) (s s' : S)
      → client.put_object key body content_type metadata s ≡ (ok tt, s')
      → (head : Head) × (client.head_object key s' ≡ ok head) × (head.metadata ≡ metadata)
  pub delete_self :
      (key : Bytes) (s : S)
      → (client.delete_object key s).0 ≡ ok tt
      → is_ok (client.head_object key ((client.delete_object key s).1)) ≡ false
  pub delete_other :
      (key other : Bytes) (s : S)
      → is_ok (client.head_object other s) ≡ false
      → is_ok (client.head_object other ((client.delete_object key s).1)) ≡ false

-- No deletion fails.
abbrev pub Deletes : {S : Type 0} → Client S → Type 0
Deletes {S} client = (key : Bytes) (s : S) → (client.delete_object key s).0 ≡ ok tt

module _ {S : Type 0} (client : Client S) (p : Platform) (cfg : S3Config) (formats : Formats)
    (fuel now : ℕ) where
  remove_present :
      (e : UploadElement) (s : S)
      → exists client p cfg e s ≡ true
      → (remove client p cfg formats fuel now e s).1
        ≡ (client.delete_object (build_element_key p cfg e) s).1
  unfolding remove
  remove_present e s h = rw h refl

  remove_missing :
      (e : UploadElement) (s : S)
      → exists client p cfg e s ≡ false
      → (remove client p cfg formats fuel now e s).1 ≡ s
  unfolding remove
  remove_missing e s h = rw h refl

  -- The bucket keeps the laws of removal that a publish relies on for its rollback, as long as no
  -- deletion fails.
  pub s3_repo-RemoveLaws :
      (service : ServiceLaws client) (deletes : Deletes client) (ctx : Context)
      → RemoveLaws (s3_repo client p cfg formats fuel now) ctx
  unfolding exists
  s3_repo-RemoveLaws service deletes ctx = record {
    remove_self = λ e s h.
        rw (remove_present e s h) (
          service.delete_self (build_element_key p cfg e) s
            (deletes (build_element_key p cfg e) s));
    remove_other = λ e f s h. elim (Bool-cases (exists client p cfg e s)) [
      | inl there ↦
          rw (remove_present e s there)
            (service.delete_other (build_element_key p cfg e) (build_element_key p cfg f) s h)
      | inr gone ↦ rw (remove_missing e s gone) h
    ];
  }

  closed_ok :
      (key : Bytes) (r : Result (Unit {0}) × S) (s' : S)
      → closed client formats.digest key r ≡ (ok tt, s')
      → r ≡ (ok tt, s')
  closed_ok key (ok tt, s) s' h = h
  closed_ok key (err e, s) s' h = cc

  checksum_stored :
      (d : Bytes)
      → length d ≡ 64
      → stored_checksum client p cfg formats fuel now ((codes "sha256", d) ∷ []) ≡ some d
  unfolding stored_checksum eq_bytes to_lower
  checksum_stored d wide = rw wide refl

  checksum_of_stored :
      (key : Bytes) (s : S) (head : Head) (d : Bytes)
      → stored_checksum client p cfg formats fuel now head.metadata ≡ some d
      → checksum_of_head client p cfg formats fuel now key s head ≡ ok d
  unfolding checksum_of_head
  checksum_of_stored key s head d h = rw (checksum_of_head, h) refl

  put_of_close :
      (e : UploadElement) (content : Bytes) (s s' : S)
      → close client formats.digest (write (get_writer client p cfg e) content) s ≡ (ok tt, s')
      → client.put_object
          (build_element_key p cfg e)
          content
          e.mime_type
          ((codes "sha256", formats.digest content) ∷ [])
          s
        ≡ (ok tt, s')
  unfolding close write get_writer
  put_of_close e content s s' h = closed_ok _ _ s' h

  -- An element whose writer was closed without an error exists, is read as the written content,
  -- and has the digest of that content as its checksum.
  pub close-get_reader :
      (service : ServiceLaws client) (e : UploadElement) (content : Bytes) (s s' : S)
      → length (formats.digest content) ≡ 64
      → close client formats.digest (write (get_writer client p cfg e) content) s ≡ (ok tt, s')
      → (exists client p cfg e s' ≡ true)
        × (get_reader client p cfg e s' ≡ ok content)
        × (checksum client p cfg formats fuel now e s' ≡ ok (formats.digest content))
  unfolding exists get_reader get_reader_for_key checksum
  close-get_reader service e content s s' wide h =
      let put = put_of_close e content s s' h in
      let (head, found, same) = service.put_head _ _ _ _ s s' put in
      (
        rw found refl,
        rw (service.put_get _ _ _ _ s s' put) refl,
        rw found (
            checksum_of_stored _ s' head (formats.digest content)
              (rw same (checksum_stored (formats.digest content) wide))),
      )
