-- ===== src/Controller/Publish/Sent.antt =====
-- A publish that is answered with 201 has stored a source archive of the request.
use openspmregistry.Prelude.{
  ℕ, ◌≡◌, ◌≢◌, ◌⊎◌, refl, Bool, true, false, List, [], Bool-cases, Option-cases, inl, inr, Option,
  none, some, if◌then◌else◌, ◌&&◌, arith,
}
use openspmregistry.Strings.{Bytes, codes, eq_bytes}
use openspmregistry.Strings.Equality.{eq_bytes_sound}
use openspmregistry.Http.{ResponseWriter, status_of, fresh}
use openspmregistry.Config.{ServerConfig}
use openspmregistry.Models.Element.{Platform, UploadElement}
use openspmregistry.Repo.{Repo, Context}
use openspmregistry.Repo.Laws.{Kept, WriterLaws, ExtractionKeeps}
use openspmregistry.Controller.Request.{
  Request, Part, Parts, eof, broken, next, request_context, write_error_with_status_code,
}
use openspmregistry.Controller.Headers.{check_headers_enforce}
use openspmregistry.Controller.Names.{scope_matches, package_matches}
use openspmregistry.Controller.Publish.{
  Target, Received, returned, received, target_of, receive_parts, store_elements, finish, parsed_or,
  publish_parts, publish_named, publish_action,
}
use openspmregistry.Controller.Publish.Answered.{elements-Told}
use openspmregistry.Controller.Publish.Archived.{archive, elements-Kept, elements_keep}
use openspmregistry.Controller.Publish.Outcomes.{
  finish-created_iff, not_created, publish_action-refused,
}

-- The form has the part.
abbrev pub HasPart : Part → Parts → Type 0
HasPart part eof = ⊥
HasPart part broken = ⊥
HasPart part (next first parts) = (part ≡ first) ⊎ HasPart part parts

abbrev mime_of : Platform → Part → Bytes
mime_of p part = parsed_or part.content_type (p.parse_media_type part.content_type)

module _ {S W : Type 0} {Writes : W → UploadElement → Bytes → S → Type 0}
    {Apart : UploadElement → UploadElement → Type 0} (repo : Repo S W) (p : Platform)
    (ctx : Context) (laws : WriterLaws repo ctx Writes Apart) (t : Target)
    (extraction : ExtractionKeeps repo ctx t.scope t.package_name t.version) (w : ResponseWriter)
    (Sent : Part → Type 0) where
  -- A part was sent as a source archive, and is kept.
  abbrev Archived : Part → S → Type 0
  Archived part s =
      Sent part
      × (part.form_name ≡ codes "source-archive")
      × Kept repo ctx (archive t (mime_of p part)) part.content s

  -- The archive that the loop found is a part that is kept.
  abbrev Backed : Option UploadElement → S → Type 0
  Backed none s = Unit
  Backed (some e) s = (part : Part) × Archived part s

  -- The loop ended with io.EOF and nothing was answered, or with another status than 201.
  abbrev Ended : Received S → Type 0
  Ended (returned w' s) = status_of w' ≢ some 201
  Ended (received found stored w' s) = (w' ≡ w) × Backed found s

  if-Ended :
      (failed : Bool) (x y : Received S)
      → (failed ≡ true → Ended x)
      → (failed ≡ false → Ended y)
      → Ended (if failed then x else y)
  if-Ended true x y hx hy = hx refl
  if-Ended false x y hx hy = hy refl

  keep-Backed :
      (found : Option UploadElement) (s s' : S)
      → ((t' : Target) (mime content : Bytes)
          → Kept repo ctx (archive t' mime) content s
          → Kept repo ctx (archive t' mime) content s')
      → Backed found s
      → Backed found s'
  keep-Backed none s s' keep backed = tt
  keep-Backed (some e) s s' keep (part, (sent, named, kept)) =
      (part, (sent, named, keep t (mime_of p part) part.content kept))

  -- what the loop found behind one part that was stored
  part-Backed :
      (part : Part) (found : Option UploadElement) (s : S)
      → Sent part
      → (store_elements repo p ctx w t part.form_name (mime_of p part) part s).failed ≡ false
      → Backed found s
      → Backed
          (if eq_bytes part.form_name (codes "source-archive")
            then (store_elements repo p ctx w t part.form_name (mime_of p part) part s).element
            else found)
          (store_elements repo p ctx w t part.form_name (mime_of p part) part s).state
  part-Backed part found s sent fine backed =
      let (_, keep) =
        elements_keep repo p ctx laws w t part.form_name (mime_of p part) part s fine in
      elim (Bool-cases (eq_bytes part.form_name (codes "source-archive"))) [
        | inl archived ↦
            let named = eq_bytes_sound part.form_name (codes "source-archive") archived in
            let (element_is, kept) =
              elements-Kept repo p ctx laws w t part.form_name (mime_of p part) part s named
                extraction fine in
            rw (archived, element_is) (part, (sent, named, kept))
        | inr other ↦ rw other (keep-Backed found s _ (keep other) backed)
      ]

  receive_parts-Ended :
      (refuses : (message : Bytes) (code : ℕ)
        → code ≢ 201
        → status_of (write_error_with_status_code message code w) ≢ some 201)
      (parts : Parts) (found : Option UploadElement) (stored : List UploadElement) (s : S)
      → ((part : Part) → HasPart part parts → Sent part)
      → Backed found s
      → Ended (receive_parts repo p ctx t parts found stored w s)
  unfolding receive_parts
  receive_parts-Ended refuses eof found stored s sent backed = (refl, backed)
  receive_parts-Ended refuses broken found stored s sent backed = refuses _ 400 (λ x. omega arith)
  receive_parts-Ended refuses (next part parts) found stored s sent backed =
      if-Ended _ _ _
        (elements-Told repo p ctx w (λ w'. status_of w' ≢ some 201) refuses t part.form_name _ part
          s)
        (λ fine.
          let (same, _) =
            elements_keep repo p ctx laws w t part.form_name (mime_of p part) part s fine in
          rw same (
            receive_parts-Ended refuses parts _ _ _ (λ q h. sent q (inr h))
              (part-Backed part found s (sent part (inl refl)) fine backed)))

module _ {S W : Type 0} {Writes : W → UploadElement → Bytes → S → Type 0}
    {Apart : UploadElement → UploadElement → Type 0} (repo : Repo S W) (p : Platform)
    (ctx : Context) (laws : WriterLaws repo ctx Writes Apart) (t : Target)
    (extraction : ExtractionKeeps repo ctx t.scope t.package_name t.version) (c : ServerConfig)
    (Sent : Part → Type 0) where
  finish_kept :
      (end : Received S)
      → Ended repo p ctx laws t extraction fresh Sent end
      → status_of ((finish repo p ctx t c end).0) ≡ some 201
      → (part : Part) × Archived repo p ctx laws t extraction fresh Sent part
          ((finish repo p ctx t c end).1)
  unfolding finish
  finish_kept (returned w s) ended created = absurd (ended created)
  finish_kept (received none stored w s) (same, backed) created =
      let (_, _, none_found, _, _) =
        (finish-created_iff repo p ctx t c none stored s).0 (rw same at created) in
      absurd (cc none_found)
  finish_kept (received (some e) stored w s) (same, backed) created =
      let (_, _, _, present, _) =
        (finish-created_iff repo p ctx t c (some e) stored s).0 (rw same at created) in
      rw present backed

module _ {S W : Type 0} (repo : Repo S W) (p : Platform) (c : ServerConfig) (r : Request)
    (s : S) where
  -- The form of the request has a source archive, and it is kept with its content.
  pub record KeepsSent (end : S) : Type 0 where
    pub parts : Parts
    pub part : Part
    pub parts_sent : r.multipart ≡ some parts
    pub part_sent : HasPart part parts
    pub part_named : part.form_name ≡ codes "source-archive"
    pub part_kept :
        Kept repo (request_context r) (archive (target_of r) (mime_of p part)) part.content end

  parts_kept :
      {Writes : W → UploadElement → Bytes → S → Type 0}
      {Apart : UploadElement → UploadElement → Type 0}
      → WriterLaws repo (request_context r) Writes Apart
      → ExtractionKeeps repo (request_context r) r.scope r.package_name r.version
      → (multipart : Option Parts) → r.multipart ≡ multipart
      → status_of ((publish_parts repo p c r multipart fresh s).0) ≡ some 201
      → KeepsSent ((publish_parts repo p c r multipart fresh s).1)
  unfolding publish_parts
  parts_kept laws extraction none form created =
      absurd (not_created _ 400 (λ x. omega arith) created)
  parts_kept laws extraction (some parts) form created =
      let ctx = request_context r in
      let (part, (sent, named, kept)) =
        finish_kept repo p ctx laws (target_of r) extraction c (λ part. HasPart part parts) _
          (receive_parts-Ended repo p ctx laws (target_of r) extraction fresh
            (λ part. HasPart part parts) not_created parts none [] s (λ part h. h) tt)
          created in
      record {
        parts = parts;
        part = part;
        parts_sent = form;
        part_sent = sent;
        part_named = named;
        part_kept = kept;
      }

  accepted :
      check_headers_enforce r.accept (codes "json") ≡ none
      → (scope_matches r.scope && package_matches r.package_name) ≡ true
      → publish_action repo p c r fresh s ≡ publish_parts repo p c r r.multipart fresh s
  unfolding publish_action publish_named
  accepted right named = elim (Bool-cases (scope_matches r.scope)) [
    | inr wrong ↦ absurd (let no : false ≡ true = rw wrong at named in cc)
    | inl scoped ↦
        let packaged : package_matches r.package_name ≡ true = rw scoped at named in
        rw (publish_action, right, scoped, packaged) refl
  ]

  -- If a publish is answered with 201, then the form that was sent has a source archive, and the
  -- storage that the publish leaves has this element, which is read as the content that was sent.
  -- The backend meets what is promised of writers, extracting the manifests of the archive keeps it,
  -- and the response is not written to before.
  pub publish_action-KeepsSent :
      {Writes : W → UploadElement → Bytes → S → Type 0}
      {Apart : UploadElement → UploadElement → Type 0}
      → WriterLaws repo (request_context r) Writes Apart
      → ExtractionKeeps repo (request_context r) r.scope r.package_name r.version
      → status_of ((publish_action repo p c r fresh s).0) ≡ some 201
      → KeepsSent ((publish_action repo p c r fresh s).1)
  publish_action-KeepsSent laws extraction created =
      elim (Option-cases (check_headers_enforce r.accept (codes "json"))) [
        | inr (e, wrong) ↦ absurd (
            (publish_action-refused repo p c r s (inl (λ right. absurd (cc (wrong, right))))).1
              created)
        | inl right ↦ elim (Bool-cases (scope_matches r.scope && package_matches r.package_name)) [
          | inr bad ↦ absurd ((publish_action-refused repo p c r s (inr bad)).1 created)
          | inl named ↦
              let same = accepted right named in
              rw same (parts_kept laws extraction r.multipart refl (rw same at created))
        ]
      ]
