-- ===== src/Controller/Listing.antt =====
-- controller/list.go and `listElements` of controller/utils.go; controller/lookup.go.
pub mod Listed
use openspmregistry.Prelude.{
  ℕ, Bool, true, false, not, ◌&&◌, ◌||◌, Option, none, some, List, [], ◌∷◌, ◌++◌, Result, ok, err,
  map, if◌then◌else◌, length,
}
use openspmregistry.Int.{ℤ, pos, lt_int, pos_part}
use openspmregistry.Strings.{Bytes, codes, eq_bytes, is_empty}
use openspmregistry.Json.{Json, Items, nil, cons, string, object, array, field, end}
use openspmregistry.Config.{ServerConfig}
use openspmregistry.Http.{
  Header, ResponseWriter, document, marshaled, set_header, write_header, write,
}
use openspmregistry.Sort.{SortFunc}
use openspmregistry.Models.Version.{compare, parse_version}
use openspmregistry.Models.Element.{Platform, ListElement, application_json}
use openspmregistry.Models.Release.{Release, marshal_json}
use openspmregistry.Repo.{Repo, Context}
use openspmregistry.Controller.Request.{
  Request, request_context, strip_extension, write_error, write_error_with_status_code,
}
use openspmregistry.Controller.Headers.{check_headers_enforce, write_response}
use openspmregistry.Controller.Links.{
  location_of_element, add_link_headers, add_list_pagination_links,
}
use openspmregistry.Controller.Pages.{
  Outcome, done, panic, parse_list_pagination, paginate_elements,
}

-- The comparison of `listElements`: newest first; 0 when a version does not parse.
unfoldable pub compare_elements : ListElement → ListElement → ℤ
compare_elements a b = elim (parse_version a.version) [
  | err _ ↦ pos 0
  | ok v1 ↦ elim (parse_version b.version) [ err _ ↦ pos 0 | ok v2 ↦ compare v2 v1 ]
]

-- What `listElements` returns: the elements, or an error with the response written.
pub data Listing : Type 0 where
  failed : ResponseWriter → Listing
  listed : List ListElement → Listing

unfoldable pub sort_listed :
    SortFunc → Bytes → Bytes → Result (List ListElement) → ResponseWriter → Listing
sort_listed slices scope package_name (err _) w =
    failed
      (write_error (codes "error listing package " ++ (scope ++ (codes "." ++ package_name))) w)
sort_listed slices scope package_name (ok []) w = failed (
    write_error_with_status_code
      (codes "error package " ++ (scope ++ (codes "." ++ (package_name ++ codes " was not found"))))
      404 w)
sort_listed slices scope package_name (ok (e ∷ elements)) w =
    listed (slices.sort compare_elements (e ∷ elements))

-- header of the response, replaced
abbrev pub with_header : Header → ResponseWriter → ResponseWriter
with_header h w = record w { header = h }

-- releaseList[element.Version] = release: a later element of the same version replaces the entry
unfoldable pub put_release : Bytes → Release → List (Bytes × Release) → List (Bytes × Release)
put_release key r [] = (key, r) ∷ []
put_release key r ((k, q) ∷ entries) =
    let rest = put_release key r entries in
    if eq_bytes k key then (key, r) ∷ entries else (k, q) ∷ rest

module _ {S W : Type 0} (repo : Repo S W) (p : Platform) (c : ServerConfig) (slices : SortFunc)
    (marshal : Release → Option Bytes) where
  unfoldable pub list_elements : Request → Bytes → Bytes → ResponseWriter → S → Listing
  unfolding sort_listed
  list_elements r scope package_name w s =
      sort_listed slices scope package_name (repo.list (request_context r) scope package_name s) w

  -- the loop over toRender
  unfoldable pub release_list : List ListElement → List (Bytes × Release) → List (Bytes × Release)
  unfolding put_release
  release_list [] entries = entries
  release_list (e ∷ elements) entries =
      release_list elements
        (put_release e.version (record { url = location_of_element p c e }) entries)

  -- behind the choice of what to render
  unfoldable pub render_list : List ListElement → ResponseWriter → ResponseWriter
  unfolding release_list
  render_list to_render w =
      let w1 = set_header (codes "Content-Version") (codes "1") w in
      let w2 = set_header (codes "Content-Type") application_json w1 in
      write
        (marshaled (
          marshal_json slices marshal
            (some (record { releases = some (release_list to_render []) }))))
        (write_header 200 w2)

  abbrev render_page : Outcome (List ListElement) → ResponseWriter → Outcome ResponseWriter
  render_page panic w = panic
  render_page (done to_render) w = done (render_list to_render w)

  -- toRender and the pagination's links. The page and its size are positive here.
  unfoldable pub paginate_list :
      Bytes → Bytes → List ListElement → ℤ × ℤ → ResponseWriter → Outcome ResponseWriter
  unfolding render_list
  paginate_list scope package_name elements (page, per_page) w =
      if lt_int (pos 0) per_page
      then render_page (paginate_elements elements page per_page) (
          with_header
            (add_list_pagination_links p c scope package_name (length elements) (pos_part page)
              (pos_part per_page) w.header)
            w)
      else done (render_list elements w)

  abbrev list_found : Request → Bytes → Listing → ResponseWriter → Outcome ResponseWriter
  list_found r package_name (failed w') w = done w'
  list_found r package_name (listed elements) w =
      paginate_list r.scope package_name elements
        (parse_list_pagination (r.query (codes "page")) c.list_page_size)
        (with_header (add_link_headers p c elements [] w.header) w)

  -- `ListAction`
  unfoldable pub list_action : Request → ResponseWriter → S → Outcome ResponseWriter
  unfolding list_elements paginate_list
  list_action r w s = elim (check_headers_enforce r.accept (codes "json")) [
    | some e ↦ done (write_response e w)
    | none ↦
        let package_name = strip_extension r.package_name (codes ".json") in
        list_found r package_name (list_elements r r.scope package_name w s) w
  ]

abbrev pub strings : List Bytes → Items
strings [] = nil
strings (s ∷ ss) = cons (string s) (strings ss)

module _ {S W : Type 0} (repo : Repo S W) where
  abbrev answer_lookup : Bytes → Option (List Bytes) → ResponseWriter → ResponseWriter
  answer_lookup url none w = write_error_with_status_code (url ++ codes " not found") 404 w
  answer_lookup url (some identifiers) w =
      let w1 = set_header (codes "Content-Version") (codes "1") w in
      let w2 = set_header (codes "Content-Type") (codes "application/json") w1 in
      write (document (object (field (codes "identifiers") (array (strings identifiers)) end))) w2

  -- `LookupAction`
  unfoldable pub lookup_action : Request → ResponseWriter → S → ResponseWriter
  lookup_action r w s = elim (check_headers_enforce r.accept (codes "json")) [
    | some e ↦ write_response e w
    | none ↦
        let url = r.query (codes "url") in
        if is_empty url
        then write_error_with_status_code (codes "url is required") 400 w
        else answer_lookup url (repo.lookup (request_context r) url s) w
  ]
