-- ===== src/Controller/Publish/Storing.antt =====
-- The steps of the storing of a part that did not fail.
use openspmregistry.Prelude.{
  ◌≡◌, refl, true, false, ◌||◌, Bool-cases, inl, inr, some, Result, ok, err,
}
use openspmregistry.Http.{ResponseWriter}
use openspmregistry.Models.Element.{Platform, UploadElement, UploadElementType}
use openspmregistry.Repo.{Repo, Context}
use openspmregistry.Controller.Request.{Part}
use openspmregistry.Controller.Publish.{
  Stored, store_closed, store_copied, store_opened, extract_if_archive,
}

module _ {S W : Type 0} (repo : Repo S W) (p : Platform) (ctx : Context) (w : ResponseWriter)
    (kind : UploadElementType) (f : UploadElement) (part : Part) where
  -- The element was stored, in this state before the extraction.
  pub record IsStored (before : S) (result : Stored S) : Type 0 where
    pub element_is : result.element ≡ some f
    pub response_is : result.response ≡ w
    pub state_is : result.state ≡ extract_if_archive repo p ctx w kind f before

  closed-IsStored :
      (r : Result (Unit {0})) (s : S)
      → (store_closed repo p ctx w kind f (r, s)).failed ≡ false
      → (r ≡ ok tt) × IsStored s (store_closed repo p ctx w kind f (r, s))
  unfolding store_closed
  closed-IsStored (err e) s fine = absurd (cc)
  closed-IsStored (ok _) s fine =
      (refl, record { element_is = refl; response_is = refl; state_is = refl })

  -- the writer behind the write
  copied-IsStored :
      (opened : W) (r : Result W) (s : S)
      → (store_copied repo p ctx w kind f part opened (r, s)).failed ≡ false
      → (copied : W) × (r ≡ ok copied)
        × ((repo.close copied s).0 ≡ ok tt)
        × IsStored ((repo.close copied s).1) (store_copied repo p ctx w kind f part opened (r, s))
  unfolding store_copied
  copied-IsStored opened (err e) s fine = absurd (cc)
  copied-IsStored opened (ok copied) s fine =
      elim (Bool-cases (part.unreadable || part.unclosable)) [
        | inl bad ↦ absurd (let no : true ≡ false = rw bad at fine in cc)
        | inr good ↦
            let (done, stored) =
              closed-IsStored ((repo.close copied s).0) ((repo.close copied s).1)
                (rw good at fine) in
            (copied, refl, done, rw good stored)
      ]

  pub opened-IsStored :
      (r : Result W) (s : S)
      → (store_opened repo p ctx w kind f part (r, s)).failed ≡ false
      → (opened : W) × (copied : W) × (r ≡ ok opened)
        × ((repo.write opened part.content s).0 ≡ ok copied)
        × ((repo.close copied ((repo.write opened part.content s).1)).0 ≡ ok tt)
        × IsStored
            ((repo.close copied ((repo.write opened part.content s).1)).1)
            (store_opened repo p ctx w kind f part (r, s))
  unfolding store_opened
  opened-IsStored (err e) s fine = absurd (cc)
  opened-IsStored (ok opened) s fine =
      let (copied, wrote, done, stored) =
        copied-IsStored opened ((repo.write opened part.content s).0)
          ((repo.write opened part.content s).1) fine in
      (opened, copied, refl, wrote, done, stored)
