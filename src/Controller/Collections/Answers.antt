-- ===== src/Controller/Collections/Answers.antt =====
-- How the requests for a collection are answered.
use openspmregistry.Prelude.{
  ℕ, ◌≡◌, not, ◌↔◌, refl, true, false, Bool, if◌then◌else◌, Option, none, some, List, [], ◌∷◌,
  Result, ok, err,
}
use openspmregistry.Strings.{Bytes, codes, is_empty}
use openspmregistry.Config.{ServerConfig}
use openspmregistry.Http.{
  ResponseWriter, fresh, content, set_header, write_header, write, status_of,
}
use openspmregistry.Sort.{SortFunc}
use openspmregistry.Models.Element.{ListElement}
use openspmregistry.Repo.{Repo}
use openspmregistry.Collections.Data.{PackageCollection}
use openspmregistry.Collections.Grouping.{Iteration}
use openspmregistry.Collections.Generate.{generate_collection}
use openspmregistry.Controller.Request.{Request, request_context, write_error_with_status_code}
use openspmregistry.Controller.Collections.{
  write_collection, global_collection, global_collection_action, scope_collection,
  scope_collection_action,
}

-- The response has the status 200 and the text.
abbrev pub Answered : Bytes → ResponseWriter → Type 0
Answered text w = (status_of w ≡ some 200) × (w.body ≡ content text ∷ [])

error-Answered :
    (message text : Bytes) (status : ℕ)
    → ¬ Answered text (write_error_with_status_code message status fresh)
unfolding write_error_with_status_code set_header write_header write
error-Answered message text status (_, e) = cc e

write_collection-Answered :
    (marshaled : Option Bytes) (text : Bytes)
    → Answered text (write_collection marshaled fresh) ↔ (marshaled ≡ some text)
unfolding write_collection write_error_with_status_code set_header write_header write
write_collection-Answered none text = (λ (_, e). cc e, λ e. cc e)
write_collection-Answered (some written) text = (λ (_, e). cc e, λ e. (refl, cc e))

-- A guard that is answered with an error: the other branch alone answers with the text.
when-Answered :
    {P : Type 0} (guard : Bool) (text message : Bytes) (status : ℕ) (w : ResponseWriter)
    → Answered text w ↔ P
    → Answered text (if guard then write_error_with_status_code message status fresh else w)
      ↔ ((guard ≡ false) × P)
when-Answered true text message status w h =
    (λ a. absurd (error-Answered message text status a), λ (e, _). cc e)
when-Answered false text message status w h = (λ a. (refl, h.0 a), λ (_, p). h.1 p)

unless-Answered :
    {P : Type 0} (guard : Bool) (text message : Bytes) (status : ℕ) (w : ResponseWriter)
    → Answered text w ↔ P
    → Answered text (if not guard then write_error_with_status_code message status fresh else w)
      ↔ ((guard ≡ true) × P)
unless-Answered true text message status w h = (λ a. (refl, h.0 a), λ (_, p). h.1 p)
unless-Answered false text message status w h =
    (λ a. absurd (error-Answered message text status a), λ (e, _). cc e)

ok-inj : {A : Type 0} {a b : A} → ok a ≡ ok b → a ≡ b
ok-inj e = cc e

module _ {S W : Type 0} (repo : Repo S W) (slices : SortFunc) (iteration : Iteration) (now : ℕ)
    (format_time : ℕ → Bytes) (marshal : PackageCollection → Option Bytes) (c : ServerConfig)
    (r : Request) (s : S) (text : Bytes) where
  -- The text is the collection of these elements.
  abbrev pub Marshals : Bytes → List ListElement → Type 0
  Marshals scope packages =
      marshal (
        generate_collection repo slices iteration now format_time (request_context r) scope packages
          c.hostname s)
      ≡ some text

  global_collection-Answered :
      (found : Result (List ListElement))
      → Answered text
          (global_collection repo slices iteration now format_time marshal c r found fresh s)
        ↔ ((packages : List ListElement) × (found ≡ ok packages) × Marshals [] packages)
  unfolding global_collection
  global_collection-Answered (err _) =
      (λ h. absurd (error-Answered _ text 500 h), λ (_, e, _). cc e)
  global_collection-Answered (ok packages) = (
    λ h. (packages, refl, (write_collection-Answered _ text).0 h),
    λ (others, e, marshaled). (write_collection-Answered _ text).1 (rw (ok-inj e) marshaled),
  )

  -- The global collection is answered with 200 and a text exactly if collections are enabled, the
  -- storage lists its packages and the text is their collection, for no scope.
  pub global_collection_action_iff :
      Answered text
        (global_collection_action repo slices iteration now format_time marshal c r fresh s)
      ↔ ((c.package_collections.enabled ≡ true)
          × ((packages : List ListElement) × (repo.list_all (request_context r) s ≡ ok packages)
              × Marshals [] packages))
  unfolding global_collection_action
  global_collection_action_iff =
      unless-Answered c.package_collections.enabled text _ 404
        (global_collection repo slices iteration now format_time marshal c r
          (repo.list_all (request_context r) s) fresh s)
        (global_collection-Answered _)

  scope_collection-Answered :
      (found : Result (List ListElement))
      → Answered text
          (scope_collection repo slices iteration now format_time marshal c r found fresh s)
        ↔ ((e : ListElement) × (packages : List ListElement) × (found ≡ ok (e ∷ packages))
            × Marshals r.scope (e ∷ packages))
  unfolding scope_collection
  scope_collection-Answered (err _) =
      (λ h. absurd (error-Answered _ text 404 h), λ (_, _, e, _). cc e)
  scope_collection-Answered (ok []) =
      (λ h. absurd (error-Answered _ text 404 h), λ (_, _, e, _). cc e)
  scope_collection-Answered (ok (e ∷ packages)) = (
    λ h. (e, packages, refl, (write_collection-Answered _ text).0 h),
    λ (_, _, same, marshaled). (write_collection-Answered _ text).1 (rw (ok-inj same) marshaled),
  )

  -- The collection of a scope is answered with 200 and a text exactly if collections are enabled,
  -- the scope is named and has packages, and the text is their collection.
  pub scope_collection_action_iff :
      Answered text
        (scope_collection_action repo slices iteration now format_time marshal c r fresh s)
      ↔ ((c.package_collections.enabled ≡ true)
          × ((is_empty r.scope ≡ false)
              × ((e : ListElement) × (packages : List ListElement) × (repo.list_in_scope
                      (request_context r)
                      r.scope
                      s
                    ≡ ok (e ∷ packages))
                  × Marshals r.scope (e ∷ packages))))
  unfolding scope_collection_action
  scope_collection_action_iff =
      unless-Answered c.package_collections.enabled text _ 404
        (if is_empty r.scope
          then write_error_with_status_code (codes "Scope is required") 400 fresh
          else scope_collection repo slices iteration now format_time marshal c r
              (repo.list_in_scope (request_context r) r.scope s) fresh s)
        (when-Answered (is_empty r.scope) text _ 400
          (scope_collection repo slices iteration now format_time marshal c r
            (repo.list_in_scope (request_context r) r.scope s) fresh s)
          (scope_collection-Answered _))
