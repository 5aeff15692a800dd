-- ===== src/Controller/Links.antt =====
-- The Link headers of controller/utils.go and controller/list.go.
pub mod Neighbours
use openspmregistry.Prelude.{
  ℕ, zero, suc, ◌+◌, ◌-◌, ◌/◌, Bool, ◌||◌, Option, none, some, List, [], ◌∷◌, ◌++◌, ltb, leb,
  if◌then◌else◌, length, get_elem?,
}
use openspmregistry.Int.{ℤ, pos, int_max}
use openspmregistry.Strings.{Bytes, codes, eq_bytes, is_empty, join}
use openspmregistry.Strings.Numbers.{itoa}
use openspmregistry.Config.{ServerConfig, base_url}
use openspmregistry.Http.{Header, get, set}
use openspmregistry.Models.Element.{Platform, ListElement}

abbrev or_empty : Option Bytes → Bytes
or_empty none = []
or_empty (some location) = location

-- `locationOfElement`: the error of url.JoinPath is dropped
unfoldable pub location_of_element : Platform → ServerConfig → ListElement → Bytes
location_of_element p c e =
    or_empty (p.join_path (base_url c) (e.scope ∷ e.package_name ∷ e.version ∷ []))

-- The loop of `addLinkHeaders`: the index of the last element with the current version. `none` is
-- -1.
unfoldable pub index_of : Bytes → ℕ → List ListElement → Option ℕ → Option ℕ
index_of current i [] found = found
index_of current i (e ∷ es) found =
    index_of current (suc i) es (if eq_bytes e.version current then some i else found)

-- a location as a link with its relation
abbrev pub link : Bytes → Bytes → Bytes
link location relation = codes "<" ++ (location ++ (codes ">; rel=\"" ++ (relation ++ codes "\"")))

-- elements[index - 1]
abbrev successor : List ListElement → ℕ → Option ListElement
successor elements zero = none
successor elements (suc i) = get_elem? elements i

module _ (p : Platform) (c : ServerConfig) where
  abbrev pub element_link : Bytes → ListElement → Bytes
  element_link relation e = link (location_of_element p c e) relation

  abbrev latest_link : List ListElement → List Bytes
  latest_link [] = []
  latest_link (e ∷ _) = element_link (codes "latest-version") e ∷ []

  abbrev pub one_link : Bytes → Option ListElement → List Bytes
  one_link relation none = []
  one_link relation (some e) = element_link relation e ∷ []

  -- the links of an element at the index
  unfoldable pub version_links : List ListElement → Option ℕ → List Bytes
  version_links elements none = latest_link elements
  version_links elements (some i) =
      latest_link elements
      ++ (one_link (codes "predecessor-version") (get_elem? elements (suc i))
          ++ one_link (codes "successor-version") (successor elements i))

  abbrev set_links : List Bytes → Header → Header
  set_links [] h = h
  set_links (l ∷ links) h = set (codes "Link") (join (l ∷ links) (codes ", ")) h

  unfoldable pub add_link_headers : List ListElement → Bytes → Header → Header
  unfolding index_of version_links
  add_link_headers elements current h =
      set_links (version_links elements (index_of current 0 elements none)) h

  abbrev make_link : Bytes → ℕ → Bytes
  make_link path n = path ++ (codes "?page=" ++ itoa (pos n))

  -- the four appends to links; page and total_pages are positive
  unfoldable pub page_links : Bytes → ℕ → ℕ → List Bytes
  page_links path page total_pages =
      link (make_link path 1) (codes "first") ∷ []
      ++ ((if ltb 1 page then link (make_link path (page - 1)) (codes "prev") ∷ [] else [])
          ++ ((if ltb page total_pages
                then link (make_link path (page + 1)) (codes "next") ∷ []
                else [])
              ++ (link (make_link path total_pages) (codes "last") ∷ [])))

  abbrev append_links : List Bytes → Header → Header
  append_links links h =
      let existing = get (codes "Link") h in
      if is_empty existing
      then set (codes "Link") (join links (codes ", ")) h
      else set (codes "Link") (existing ++ (codes ", " ++ join links (codes ", "))) h

  -- `addListPaginationLinks`, with a page and a page size that are not negative, as
  -- `parseListPagination` returns them. A sum that leaves the range of int is negative, and so is
  -- no number of pages above 1.
  unfoldable pub add_list_pagination_links : Bytes → Bytes → ℕ → ℕ → ℕ → Header → Header
  unfolding page_links
  add_list_pagination_links scope package_name total page per_page h =
      let total_pages = (total + per_page - 1) / per_page in
      if leb per_page 0
        || (leb total 0 || (leb total_pages 1 || ltb int_max (total + per_page - 1)))
      then h
      else elim (p.join_path (base_url c) (scope ∷ package_name ∷ [])) [
        | none ↦ h
        | some path ↦
            append_links
              (page_links path (if ltb total_pages page then total_pages else page) total_pages) h
      ]
