-- ===== src/Controller/Publish/Outcomes.antt =====
-- The responses of a publish and the state that goes with them.
use openspmregistry.Prelude.{
  ℕ, ◌++◌, ◌≡◌, ◌≢◌, ◌↔◌, ◌⊎◌, refl, true, false, not, ◌&&◌, List, [], arith, Bool-cases,
  Option-cases, inl, inr, Option, none, some,
}
use openspmregistry.Strings.{Bytes, codes, eq_bytes}
use openspmregistry.Http.{ResponseWriter, status_of, fresh, set_header, write_header, write}
use openspmregistry.Config.{ServerConfig}
use openspmregistry.Models.Element.{
  Platform, UploadElement, file_name, source_archive, new_upload_element,
}
use openspmregistry.Repo.{Repo, Context}
use openspmregistry.Repo.Laws.{RemoveLaws}
use openspmregistry.Controller.Request.{
  Request, Part, Parts, next, write_error_with_status_code, write_error,
}
use openspmregistry.Controller.Headers.{HeaderError, check_headers_enforce, write_response}
use openspmregistry.Controller.Headers.Accepted.{check_headers_enforce-status}
use openspmregistry.Controller.Names.{scope_matches, package_matches}
use openspmregistry.Controller.Publish.{
  Target, returned, received, cleanup_stored_elements, manifest_element, package_json_element,
  receive_parts, store_elements, store_typed, validate_upload_type, parsed_or, created, location,
  finish, publish_named, publish_action,
}
use openspmregistry.Controller.Publish.Cleanup.{AbsentFrom, cleanup-Absent}

status-write_error :
    (m : Bytes) (code : ℕ) → status_of (write_error_with_status_code m code fresh) ≡ some code
unfolding write_error_with_status_code write write_header set_header
status-write_error m code = refl

status-write_response :
    (e : HeaderError) → status_of (write_response e fresh) ≡ some e.http_status_code
unfolding write_response write write_header set_header
status-write_response e = refl

other_status : {o : Option ℕ} {b : ℕ} (a : ℕ) → o ≡ some a → a ≢ b → ¬ (o ≡ some b)
other_status a e apart f = apart (cc (e, f))

created-created_iff :
    (o : Option Bytes) → (status_of (created o fresh) ≡ some 201) ↔ ((l : Bytes) × (o ≡ some l))
unfolding write_error write_error_with_status_code write write_header set_header
created-created_iff none = (λ h. absurd (other_status 500 refl (λ x. omega arith) h), λ (_, f). cc)
created-created_iff (some l) = (λ h. (l, refl), λ h. refl)

module _ {S W : Type 0} (repo : Repo S W) (p : Platform) (ctx : Context) where
  abbrev pub mime_of : Part → Bytes
  mime_of part = parsed_or part.content_type (p.parse_media_type part.content_type)

  abbrev pub archive_of : Target → Part → UploadElement
  archive_of t part =
      new_upload_element t.scope t.package_name t.version (mime_of part) source_archive

  refused :
      (t : Target) (part : Part) (s : S)
      → repo.exists ctx (archive_of t part) s ≡ true
      → store_typed repo p ctx fresh source_archive (archive_of t part) part s ≡ record {
        element = none;
        failed = true;
        response =
            write_error_with_status_code
              (codes "upload failed, package exists:" ++ file_name p (archive_of t part))
              409
              fresh;
        state = s;
      }
  unfolding store_typed
  refused t part s there = rw there refl

  -- A publish of a source archive that exists already is answered with 409, and its rollback
  -- leaves the published version without its manifest and its Package.json.
  pub publish_again :
      (laws : RemoveLaws repo ctx) (t : Target) (part : Part) (parts : Parts) (s : S)
      → part.form_name ≡ codes "source-archive"
      → repo.exists ctx (archive_of t part) s ≡ true
      → (w' : ResponseWriter) × (s' : S) × (receive_parts repo p ctx t
            (next part parts)
            none
            []
            fresh
            s
          ≡ returned w' s')
        × (status_of w' ≡ some 409)
        × AbsentFrom repo ctx s' (manifest_element t)
        × AbsentFrom repo ctx s' (package_json_element t)
  unfolding receive_parts store_elements validate_upload_type eq_bytes
  publish_again laws t part parts s named there =
      let w' =
        write_error_with_status_code
          (codes "upload failed, package exists:" ++ file_name p (archive_of t part)) 409 fresh in
      let (no_manifest, no_json, _) = cleanup-Absent repo ctx laws t [] s in
      (
        w',
        cleanup_stored_elements repo ctx t [] s,
        rw (named, refused t part s there) refl,
        status-write_error _ 409,
        no_manifest,
        no_json,
      )

  -- Behind the loop the response is 201 exactly when a source archive was stored, its Package.json
  -- exists or is not required, and the location could be joined.
  pub finish-created_iff :
      (t : Target) (c : ServerConfig) (found : Option UploadElement) (stored : List UploadElement)
      (s : S)
      → (status_of ((finish repo p ctx t c (received found stored fresh s)).0) ≡ some 201) ↔ (
          (e : UploadElement) × (l : Bytes) × (found ≡ some e)
          × ((c.package_collections.require_package_json
                && not (repo.exists ctx (package_json_element t) s))
              ≡ false)
          × (location repo p ctx t c e ≡ some l))
  unfolding finish write_error_with_status_code write_error
  finish-created_iff t c none stored s = (
    λ h. absurd (other_status 500 (status-write_error _ 500) (λ x. omega arith) h),
    λ (_, _, f, _, _). cc,
  )
  finish-created_iff t c (some e) stored s =
      elim (Bool-cases (
        c.package_collections.require_package_json
        && not (repo.exists ctx (package_json_element t) s))) [
          | inl missing ↦ (
            λ h.
                absurd (
                  other_status 422 (status-write_error _ 422) (λ x. omega arith) (rw missing at h)),
            λ (_, _, _, present, _). cc,
          )
          | inr present ↦
              let (sound, complete) = created-created_iff (location repo p ctx t c e) in
              (
                λ h. let (l, joined) = sound (rw present at h) in (e, l, refl, present, joined),
                λ (e', l, same, _, joined). rw present (complete (l, cc (same, joined))),
              )
        ]

header_status :
    (accept : List Bytes) (e : HeaderError)
    → check_headers_enforce accept (codes "json") ≡ some e
    → status_of (write_response e fresh) ≢ some 201
header_status accept e wrong h = elim (check_headers_enforce-status accept (codes "json") e wrong) [
  | inl is_400 ↦
      other_status e.http_status_code (status-write_response e) (λ x. omega (arith, x, is_400)) h
  | inr is_415 ↦
      other_status e.http_status_code (status-write_response e) (λ x. omega (arith, x, is_415)) h
]

pub not_created :
    (message : Bytes) (code : ℕ)
    → code ≢ 201
    → status_of (write_error_with_status_code message code fresh) ≢ some 201
not_created message code apart h = other_status code (status-write_error message code) apart h

named_refused :
    {S W : Type 0} (repo : Repo S W) (p : Platform) (c : ServerConfig) (r : Request) (s : S)
    → (scope_matches r.scope && package_matches r.package_name) ≡ false
    → ((publish_named repo p c r fresh s).1 ≡ s)
      × (status_of ((publish_named repo p c r fresh s).0) ≢ some 201)
unfolding publish_named
named_refused repo p c r s bad = elim (Bool-cases (scope_matches r.scope)) [
  | inr wrong_scope ↦ (rw wrong_scope refl, rw wrong_scope (not_created _ 400 (λ x. omega arith)))
  | inl right_scope ↦ elim (Bool-cases (package_matches r.package_name)) [
    | inr wrong ↦ (
      rw (right_scope, wrong) refl,
      rw (right_scope, wrong) (not_created _ 400 (λ x. omega arith)),
    )
    | inl right ↦ absurd (cc (right_scope, right, bad))
  ]
]

-- A request with a wrong Accept header, scope or package name changes nothing and is not answered
-- with 201.
pub publish_action-refused :
    {S W : Type 0} (repo : Repo S W) (p : Platform) (c : ServerConfig) (r : Request) (s : S)
    → (check_headers_enforce r.accept (codes "json") ≢ none)
      ⊎ ((scope_matches r.scope && package_matches r.package_name) ≡ false)
    → ((publish_action repo p c r fresh s).1 ≡ s)
      × (status_of ((publish_action repo p c r fresh s).0) ≢ some 201)
unfolding publish_action
publish_action-refused repo p c r s h =
    elim (Option-cases (check_headers_enforce r.accept (codes "json"))) [
      | inr (e, wrong) ↦ (
        rw (wrong, publish_action) refl,
        rw (wrong, publish_action) (header_status r.accept e wrong),
      )
      | inl right ↦
          rw (right, publish_action)
            (named_refused repo p c r s
              (elim h [ inl not_right ↦ absurd (not_right right) | inr bad ↦ bad ]))
    ]
