-- ===== src/S3/Backend/Writing.antt =====
-- The writers of the bucket.
use openspmregistry.Prelude.{ℕ, ◌≡◌, ◌≢◌, refl, true, false, List, [], ◌++◌, Result, ok, err}
use openspmregistry.Strings.{Bytes}
use openspmregistry.Config.{S3Config}
use openspmregistry.Models.Element.{Platform, UploadElement}
use openspmregistry.Repo.{Context}
use openspmregistry.Repo.Laws.{Kept, RemoveLaws, WriterLaws}
use openspmregistry.S3.Keys.{build_element_key}
use openspmregistry.S3.Client.{
  Client, S3Writer, exists_key, exists, get_reader, get_reader_for_key, get_writer, write, close,
  closed,
}
use openspmregistry.S3.Backend.{Formats, s3_repo}
use openspmregistry.S3.Backend.Storing.{ServiceLaws, Deletes, s3_repo-RemoveLaws}

-- What the service promises: to put an object changes no other one.
pub record IsolationLaws {S : Type 0} (client : Client S) : Type 0 where
  pub put_head_other :
      (key other body content_type : Bytes) (metadata : List (Bytes × Bytes)) (s : S)
      → other ≢ key
      → client.head_object other ((client.put_object key body content_type metadata s).1)
        ≡ client.head_object other s
  pub put_get_other :
      (key other body content_type : Bytes) (metadata : List (Bytes × Bytes)) (s : S)
      → other ≢ key
      → client.get_object other ((client.put_object key body content_type metadata s).1)
        ≡ client.get_object other s

module _ {S : Type 0} (client : Client S) (p : Platform) (cfg : S3Config) (formats : Formats)
    (fuel now : ℕ) where
  -- The writer holds the key of the element and what was written to it.
  pub record Buffers (w : S3Writer) (f : UploadElement) (got : Bytes) : Type 0 where
    pub key_is : w.key ≡ build_element_key p cfg f
    pub buffer_is : w.buffer ≡ got

  abbrev pub KeysDiffer : UploadElement → UploadElement → Type 0
  KeysDiffer e f = build_element_key p cfg e ≢ build_element_key p cfg f

  closed_state :
      (key : Bytes) (r : Result (Unit {0}) × S) → (closed client formats.digest key r).1 ≡ r.1
  closed_state key (ok tt, s) = refl
  closed_state key (err e, s) = refl

  closed_put :
      (key : Bytes) (r : Result (Unit {0}) × S)
      → (closed client formats.digest key r).0 ≡ ok tt
      → r ≡ (ok tt, (closed client formats.digest key r).1)
  closed_put key (ok tt, s) h = refl
  closed_put key (err e, s) h = cc

  get_writer-Buffers : (f : UploadElement) → Buffers (get_writer client p cfg f) f []
  unfolding get_writer
  get_writer-Buffers f = record { key_is = refl; buffer_is = refl }

  write-Buffers :
      (f : UploadElement) (w : S3Writer) (got text : Bytes)
      → Buffers w f got
      → Buffers (write w text) f (got ++ text)
  unfolding write
  write-Buffers f w got text b = record { key_is = b.key_is; buffer_is = rw b.buffer_is refl }

  opened-Buffers :
      (f : UploadElement) (w : S3Writer) → ok (get_writer client p cfg f) ≡ ok w → Buffers w f []
  opened-Buffers f w h =
      let same : get_writer client p cfg f ≡ w = cc h in rw (← same) (get_writer-Buffers f)

  written-Buffers :
      (f : UploadElement) (w w' : S3Writer) (got text : Bytes)
      → Buffers w f got
      → ok (write w text) ≡ ok w'
      → Buffers w' f (got ++ text)
  written-Buffers f w w' got text b h =
      let same : write w text ≡ w' = cc h in rw (← same) (write-Buffers f w got text b)

  close-Kept :
      (service : ServiceLaws client) (ctx : Context) (f : UploadElement) (w : S3Writer)
      (got : Bytes) (s : S)
      → Buffers w f got
      → (close client formats.digest w s).0 ≡ ok tt
      → Kept (s3_repo client p cfg formats fuel now) ctx f got ((close client formats.digest w s).1)
  unfolding close exists exists_key get_reader get_reader_for_key
  close-Kept service ctx f w got s b h =
      let put = closed_put w.key _ h in
      let (head, found, _) = service.put_head w.key _ _ _ s _ put in
      (
        rw (← b.key_is, found) refl,
        rw (← b.key_is, service.put_get w.key _ _ _ s _ put, b.buffer_is) refl,
      )

  close_keeps :
      (isolated : IsolationLaws client) (ctx : Context) (e f : UploadElement) (w : S3Writer)
      (content got : Bytes) (s : S)
      → KeysDiffer e f
      → Buffers w f got
      → Kept (s3_repo client p cfg formats fuel now) ctx e content s
      → Kept
          (s3_repo client p cfg formats fuel now)
          ctx
          e
          content
          ((close client formats.digest w s).1)
  unfolding close exists exists_key get_reader get_reader_for_key
  close_keeps isolated ctx e f w content got s differ b kept =
      let other : build_element_key p cfg e ≢ w.key = rw b.key_is differ in
      (
        rw (closed_state w.key, isolated.put_head_other w.key _ _ _ _ s other) kept.0,
        rw (closed_state w.key, isolated.put_get_other w.key _ _ _ _ s other) kept.1,
      )

  exists_same :
      (e f : UploadElement) (s : S)
      → build_element_key p cfg e ≡ build_element_key p cfg f
      → exists client p cfg e s ≡ exists client p cfg f s
  unfolding exists
  exists_same e f s same = rw same refl

  -- The writers of the bucket are what a publish relies on.
  s3_repo-WriterLaws :
      (service : ServiceLaws client) (isolated : IsolationLaws client) (ctx : Context)
      → WriterLaws
          (s3_repo client p cfg formats fuel now)
          ctx
          (λ w f got s. Buffers w f got)
          KeysDiffer
  s3_repo-WriterLaws service isolated ctx = record {
    apart = λ e f s there missing same.
        let no : true ≡ false = cc (exists_same e f s same, there, missing) in cc;
    opened = λ f w s h. opened-Buffers f w h;
    written = λ f w w' got text s b h. written-Buffers f w w' got text b h;
    closed = λ f w got s b h. close-Kept service ctx f w got s b h;
    get_writer_keeps = λ e f content s differ kept. kept;
    write_keeps = λ e f w content got text s differ b kept. kept;
    close_keeps = λ e f w content got s differ b kept.
        close_keeps isolated ctx e f w content got s differ b kept;
  }

  -- The bucket keeps what a publish relies on, of removals for its rollback and of writers for what
  -- it stores, if no deletion fails: it suffices that the service reads an object as it was put, keeps
  -- the others apart, has no object behind its deletion, and puts none by a deletion.
  pub s3_repo-Laws :
      (service : ServiceLaws client) (isolated : IsolationLaws client) (deletes : Deletes client)
      (ctx : Context)
      → RemoveLaws (s3_repo client p cfg formats fuel now) ctx
        × WriterLaws
            (s3_repo client p cfg formats fuel now)
            ctx
            (λ w f got s. Buffers w f got)
            KeysDiffer
  s3_repo-Laws service isolated deletes ctx = (
    s3_repo-RemoveLaws client p cfg formats fuel now service deletes ctx,
    s3_repo-WriterLaws service isolated ctx,
  )
