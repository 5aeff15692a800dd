-- ===== src/Controller/Collections.antt =====
-- controller/collections.go
pub mod Answers
use openspmregistry.Prelude.{
  ℕ, Bool, true, false, not, Option, none, some, List, [], ◌∷◌, Result, ok, err, if◌then◌else◌,
  length,
}
use openspmregistry.Int.{ℤ, pos}
use openspmregistry.Strings.{Bytes, codes, is_empty}
use openspmregistry.Strings.Numbers.{itoa}
use openspmregistry.Config.{ServerConfig}
use openspmregistry.Http.{ResponseWriter, content, set_header, write_header, write}
use openspmregistry.Sort.{SortFunc}
use openspmregistry.Models.Element.{ListElement, application_json}
use openspmregistry.Repo.{Repo}
use openspmregistry.Collections.Data.{PackageCollection}
use openspmregistry.Collections.Grouping.{Iteration}
use openspmregistry.Collections.Generate.{generate_collection}
use openspmregistry.Controller.Request.{Request, request_context, write_error_with_status_code}

-- behind json.Marshal, where none is an error
unfoldable pub write_collection : Option Bytes → ResponseWriter → ResponseWriter
unfolding write_error_with_status_code set_header write_header write itoa
write_collection none w = write_error_with_status_code (codes "Error generating collection") 500 w
write_collection (some text) w =
    let typed = set_header (codes "Content-Type") application_json w in
    let sized = set_header (codes "Content-Length") (itoa (pos (length text))) typed in
    write (content text) (write_header 200 sized)

module _ {S W : Type 0} (repo : Repo S W) (slices : SortFunc) (iteration : Iteration) (now : ℕ)
    (format_time : ℕ → Bytes) (marshal : PackageCollection → Option Bytes) (c : ServerConfig) where
  -- behind `ListAll`
  unfoldable pub global_collection :
      Request → Result (List ListElement) → ResponseWriter → S → ResponseWriter
  unfolding write_collection generate_collection
  global_collection r (err _) w s =
      write_error_with_status_code (codes "Error generating collection") 500 w
  global_collection r (ok packages) w s =
      let collection =
        generate_collection repo slices iteration now format_time (request_context r) [] packages
          c.hostname s in
      write_collection (marshal collection) w

  unfoldable pub global_collection_action : Request → ResponseWriter → S → ResponseWriter
  unfolding global_collection
  global_collection_action r w s =
      if not c.package_collections.enabled
      then write_error_with_status_code (codes "Package collections are not enabled") 404 w
      else global_collection r (repo.list_all (request_context r) s) w s

  -- behind `ListInScope`
  unfoldable pub scope_collection :
      Request → Result (List ListElement) → ResponseWriter → S → ResponseWriter
  unfolding write_collection generate_collection
  scope_collection r (err _) w s = write_error_with_status_code (codes "Scope not found") 404 w
  scope_collection r (ok []) w s =
      write_error_with_status_code (codes "No packages found in scope") 404 w
  scope_collection r (ok (e ∷ packages)) w s =
      let collection =
        generate_collection repo slices iteration now format_time (request_context r) r.scope
          (e ∷ packages) c.hostname s in
      write_collection (marshal collection) w

  unfoldable pub scope_collection_action : Request → ResponseWriter → S → ResponseWriter
  unfolding scope_collection
  scope_collection_action r w s =
      if not c.package_collections.enabled
      then write_error_with_status_code (codes "Package collections are not enabled") 404 w
      else if is_empty r.scope
      then write_error_with_status_code (codes "Scope is required") 400 w
      else scope_collection r (repo.list_in_scope (request_context r) r.scope s) w s
