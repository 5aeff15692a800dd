-- ===== src/Controller/Publish/Cleanup.antt =====
-- The rollback of a failed publish removes what the request stored.
use openspmregistry.Prelude.{
  ◌≡◌, false, List, [], ◌∷◌, Result, ok, err, All, Bool-cases, inl, inr, some,
}
use openspmregistry.Http.{ResponseWriter}
use openspmregistry.Models.Element.{Platform, UploadElement}
use openspmregistry.Repo.{Repo, Context}
use openspmregistry.Repo.Laws.{RemoveLaws}
use openspmregistry.Controller.Request.{Part, Parts, eof, broken, next}
use openspmregistry.Controller.Publish.{
  Target, Stored, remove_all, remove_existing, remove_alternatives, cleanup_stored_elements,
  manifest_element, package_json_element, store_elements, parsed_or,
}

module _ {S W : Type 0} (repo : Repo S W) (ctx : Context) where
  abbrev pub AbsentFrom : S → UploadElement → Type 0
  AbsentFrom s e = repo.exists ctx e s ≡ false

module _ {S W : Type 0} (repo : Repo S W) (ctx : Context) (laws : RemoveLaws repo ctx) where
  abbrev Absent : S → UploadElement → Type 0
  Absent = AbsentFrom repo ctx

  remove-Absent_self : (e : UploadElement) (s : S) → Absent ((repo.remove ctx e s).1) e
  remove-Absent_self e s = elim (Bool-cases (repo.exists ctx e s)) [
    | inl there ↦ laws.remove_self e s there
    | inr gone ↦ laws.remove_other e e s gone
  ]

  remove_all-Absent :
      (es : List UploadElement) (f : UploadElement) (s : S)
      → Absent s f
      → Absent (remove_all repo ctx es s) f
  unfolding remove_all
  remove_all-Absent [] f s h = h
  remove_all-Absent (e ∷ es) f s h =
      remove_all-Absent es f ((repo.remove ctx e s).1) (laws.remove_other e f s h)

  remove_all-All-Absent :
      (es : List UploadElement) (s : S) → All (Absent (remove_all repo ctx es s)) es
  unfolding remove_all
  remove_all-All-Absent [] s = tt
  remove_all-All-Absent (e ∷ es) s = (
    remove_all-Absent es e ((repo.remove ctx e s).1) (remove-Absent_self e s),
    remove_all-All-Absent es ((repo.remove ctx e s).1),
  )

  remove_existing-Absent :
      (e f : UploadElement) (s : S) → Absent s f → Absent (remove_existing repo ctx e s) f
  unfolding remove_existing
  remove_existing-Absent e f s h = elim (Bool-cases (repo.exists ctx e s)) [
    | inl there ↦ rw there (laws.remove_other e f s h)
    | inr gone ↦ rw gone h
  ]

  remove_existing-Absent_self :
      (e : UploadElement) (s : S) → Absent (remove_existing repo ctx e s) e
  unfolding remove_existing
  remove_existing-Absent_self e s = elim (Bool-cases (repo.exists ctx e s)) [
    | inl there ↦ rw there (laws.remove_self e s there)
    | inr gone ↦ rw gone gone
  ]

  remove_alternatives-Absent :
      (r : Result (List UploadElement)) (f : UploadElement) (s : S)
      → Absent s f
      → Absent (remove_alternatives repo ctx r s) f
  unfolding remove_alternatives
  remove_alternatives-Absent (ok es) f s h = remove_all-Absent es f s h
  remove_alternatives-Absent (err _) f s h = h

  map-All :
      {P Q : UploadElement → Type 0} (es : List UploadElement)
      → ((e : UploadElement) → P e → Q e)
      → All P es
      → All Q es
  map-All [] f h = tt
  map-All (e ∷ es) f (p, h) = (f e p, map-All es f h)

  -- After a cleanup neither the manifest nor Package.json nor any of the stored elements exists.
  pub cleanup-Absent :
      (t : Target) (stored : List UploadElement) (s : S)
      → Absent (cleanup_stored_elements repo ctx t stored s) (manifest_element t)
        × Absent (cleanup_stored_elements repo ctx t stored s) (package_json_element t)
        × All (Absent (cleanup_stored_elements repo ctx t stored s)) stored
  unfolding cleanup_stored_elements
  cleanup-Absent t stored s =
      let s1 = remove_all repo ctx stored s in
      let found = repo.get_alternative_manifests ctx (manifest_element t) s1 in
      let s2 = remove_alternatives repo ctx found s1 in
      let s3 = remove_existing repo ctx (manifest_element t) s2 in
      (
        remove_existing-Absent (package_json_element t) (manifest_element t) s3
            (remove_existing-Absent_self (manifest_element t) s2),
        remove_existing-Absent_self (package_json_element t) s3,
        map-All stored
            (λ e h. remove_existing-Absent (package_json_element t) e s3 (
              remove_existing-Absent (manifest_element t) e s2
                (remove_alternatives-Absent found e s1 h)))
            (remove_all-All-Absent stored s),
      )

-- The form ends properly.
abbrev pub EndsInEof : Parts → Type 0
EndsInEof eof = Unit
EndsInEof broken = ⊥
EndsInEof (next _ parts) = EndsInEof parts

module _ {S W : Type 0} (repo : Repo S W) (p : Platform) (ctx : Context) where
  -- what `storeElements` does with a part
  abbrev step_of : Target → Part → ResponseWriter → S → Stored S
  step_of t part w s =
      store_elements repo p ctx w t part.form_name
        (parsed_or part.content_type (p.parse_media_type part.content_type)) part s

  -- An element that the form stores, or begins to: that of a part behind parts that are stored.
  pub data StoredBy (t : Target) : Parts → ResponseWriter → S → UploadElement → Type 0 where
    here :
        {part : Part} {parts : Parts} {w : ResponseWriter} {s : S} {e : UploadElement}
        → (step_of t part w s).element ≡ some e
        → StoredBy t (next part parts) w s e
    later :
        {part : Part} {parts : Parts} {w : ResponseWriter} {s : S} {e : UploadElement}
        → (step_of t part w s).failed ≡ false
        → StoredBy t parts (step_of t part w s).response (step_of t part w s).state e
        → StoredBy t (next part parts) w s e
