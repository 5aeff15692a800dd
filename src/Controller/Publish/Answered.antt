-- ===== src/Controller/Publish/Answered.antt =====
-- Every publish is answered.
use openspmregistry.Prelude.{
  ℕ, ◌≡◌, ◌≢◌, refl, true, false, not, ◌&&◌, ◌||◌, Bool-cases, Option-cases, inl, inr, Option, none,
  some, List, [], Result, ok, err, if◌then◌else◌, Bool, arith,
}
use openspmregistry.Strings.{Bytes, codes}
use openspmregistry.Http.{ResponseWriter, status_of, set_header, write_header, write}
use openspmregistry.Config.{ServerConfig}
use openspmregistry.Models.Element.{Platform, UploadElement, UploadElementType}
use openspmregistry.Repo.{Repo, Context}
use openspmregistry.Controller.Request.{
  Request, Part, Parts, eof, broken, next, write_error_with_status_code, write_error,
}
use openspmregistry.Controller.Headers.{HeaderError, check_headers_enforce, write_response}
use openspmregistry.Controller.Names.{scope_matches, package_matches}
use openspmregistry.Controller.Publish.{
  Target, Stored, Received, returned, received, store_closed, store_copied, store_opened,
  store_typed, store_elements, validate_upload_type, receive_parts, finish, created, location,
  publish_parts, publish_named, publish_action, package_json_element,
}

-- A status was written.
abbrev pub IsAnswered : ResponseWriter → Type 0
IsAnswered w = (status : ℕ) × (status_of w ≡ some status)

error-IsAnswered :
    (message : Bytes) (status : ℕ) (w : ResponseWriter)
    → IsAnswered (write_error_with_status_code message status w)
unfolding write_error_with_status_code set_header write_header write
error-IsAnswered message status w = (_, refl)

response-IsAnswered : (e : HeaderError) (w : ResponseWriter) → IsAnswered (write_response e w)
unfolding write_response set_header write_header write
response-IsAnswered e w = (_, refl)

created-IsAnswered : (o : Option Bytes) (w : ResponseWriter) → IsAnswered (created o w)
unfolding set_header write_header
created-IsAnswered o w = (_, refl)

-- A storing that failed is answered the way that Q says.
abbrev pub Told : {S : Type 0} → (ResponseWriter → Type 0) → Stored S → Type 0
Told Q stored = stored.failed ≡ true → Q stored.response

module _ {S W : Type 0} (repo : Repo S W) (p : Platform) (ctx : Context) (w : ResponseWriter)
    (Q : ResponseWriter → Type 0)
    (refuses : (message : Bytes) (code : ℕ)
      → code ≢ 201
      → Q (write_error_with_status_code message code w)) where
  closed-Told :
      (kind : UploadElementType) (e : UploadElement) (r : Result (Unit {0}) × S)
      → Told Q (store_closed repo p ctx w kind e r)
  unfolding store_closed write_error
  closed-Told kind e (err m, s) h = refuses _ 500 (λ x. omega arith)
  closed-Told kind e (ok _, s) h = cc h

  copied-Told :
      (kind : UploadElementType) (e : UploadElement) (part : Part) (writer : W) (r : Result W × S)
      → Told Q (store_copied repo p ctx w kind e part writer r)
  unfolding store_copied write_error
  copied-Told kind e part writer (err m, s) = λ h. refuses _ 500 (λ x. omega arith)
  copied-Told kind e part writer (ok copied, s) =
      elim (Bool-cases (part.unreadable || part.unclosable)) [
        | inl bad ↦ rw bad (λ h. refuses _ 500 (λ x. omega arith))
        | inr good ↦ rw good (closed-Told kind e (repo.close copied s))
      ]

  opened-Told :
      (kind : UploadElementType) (e : UploadElement) (part : Part) (r : Result W × S)
      → Told Q (store_opened repo p ctx w kind e part r)
  unfolding store_opened write_error
  opened-Told kind e part (err m, s) = λ h. refuses _ 500 (λ x. omega arith)
  opened-Told kind e part (ok writer, s) =
      copied-Told kind e part writer (repo.write writer part.content s)

  typed-Told :
      (kind : UploadElementType) (e : UploadElement) (part : Part) (s : S)
      → Told Q (store_typed repo p ctx w kind e part s)
  unfolding store_typed
  typed-Told kind e part s = elim (Bool-cases (repo.exists ctx e s)) [
    | inl there ↦ rw there (λ h. refuses _ 409 (λ x. omega arith))
    | inr missing ↦ rw missing (opened-Told kind e part (repo.get_writer ctx e s))
  ]

  pub elements-Told :
      (t : Target) (name mime_type : Bytes) (part : Part) (s : S)
      → Told Q (store_elements repo p ctx w t name mime_type part s)
  unfolding store_elements
  elements-Told t name mime_type part s = elim (Option-cases (validate_upload_type name)) [
    | inl unsupported ↦ rw (store_elements, unsupported) (λ h. refuses _ 400 (λ x. omega arith))
    | inr (kind, supported) ↦ rw (store_elements, supported) (typed-Told kind _ part s)
  ]

-- A return from the loop is answered.
abbrev Returns : {S : Type 0} → Received S → Type 0
Returns (returned w s) = IsAnswered w
Returns (received found stored w s) = Unit

if-Returns :
    {S : Type 0} (b : Bool) (x y : Received S)
    → (b ≡ true → Returns x)
    → Returns y
    → Returns (if b then x else y)
if-Returns true x y hx hy = hx refl
if-Returns false x y hx hy = hy

module _ {S W : Type 0} (repo : Repo S W) (p : Platform) (ctx : Context) (t : Target) where
  receive_parts-Returns :
      (parts : Parts) (found : Option UploadElement) (stored : List UploadElement)
      (w : ResponseWriter) (s : S)
      → Returns (receive_parts repo p ctx t parts found stored w s)
  unfolding receive_parts
  receive_parts-Returns eof found stored w s = tt
  receive_parts-Returns broken found stored w s = error-IsAnswered _ 400 w
  receive_parts-Returns (next part parts) found stored w s =
      if-Returns _ _ _
        (elements-Told repo p ctx w IsAnswered (λ m code apart. error-IsAnswered m code w) t
          part.form_name _ part s)
        (receive_parts-Returns parts _ _ _ _)

  finish-IsAnswered :
      (c : ServerConfig) (r : Received S) → Returns r → IsAnswered ((finish repo p ctx t c r).0)
  unfolding finish write_error
  finish-IsAnswered c (returned w s) h = h
  finish-IsAnswered c (received none stored w s) h = error-IsAnswered _ 500 w
  finish-IsAnswered c (received (some e) stored w s) h =
      elim (Bool-cases (
        c.package_collections.require_package_json
        && not (repo.exists ctx (package_json_element t) s))) [
          | inl missing ↦ rw missing (error-IsAnswered _ 422 w)
          | inr present ↦ rw present (created-IsAnswered (location repo p ctx t c e) w)
        ]

module _ {S W : Type 0} (repo : Repo S W) (p : Platform) (c : ServerConfig) (r : Request)
    (w : ResponseWriter) (s : S) where
  parts-IsAnswered : (parts : Option Parts) → IsAnswered ((publish_parts repo p c r parts w s).0)
  unfolding publish_parts
  parts-IsAnswered none = error-IsAnswered _ 400 w
  parts-IsAnswered (some parts) =
      finish-IsAnswered repo p _ _ c _ (receive_parts-Returns repo p _ _ parts none [] w s)

  named-IsAnswered : IsAnswered ((publish_named repo p c r w s).0)
  unfolding publish_named
  named-IsAnswered = elim (Bool-cases (scope_matches r.scope)) [
    | inr wrong ↦ rw (publish_named, wrong) (error-IsAnswered _ 400 w)
    | inl right ↦ elim (Bool-cases (package_matches r.package_name)) [
      | inr wrong ↦ rw (publish_named, right, wrong) (error-IsAnswered _ 400 w)
      | inl named ↦ rw (publish_named, right, named) (parts-IsAnswered r.multipart)
    ]
  ]

  -- A publish is answered: whatever the request, the storage and its errors, a status is written
  -- when the handler returns.
  pub publish_action-IsAnswered : IsAnswered ((publish_action repo p c r w s).0)
  unfolding publish_action
  publish_action-IsAnswered = elim (Option-cases (check_headers_enforce r.accept (codes "json"))) [
    | inr (e, wrong) ↦ rw (publish_action, wrong) (response-IsAnswered e w)
    | inl right ↦ rw (publish_action, right) named-IsAnswered
  ]
