-- ===== src/Controller/Links/Neighbours.antt =====
-- The links of a version to its neighbours.
use openspmregistry.Prelude.{
  ℕ, suc, ◌+◌, ◌≡◌, ◌≢◌, refl, Option, none, some, List, [], ◌∷◌, ◌++◌, arith, All, length,
  get_elem?, ◌∙◌, ap,
}
use openspmregistry.Strings.{Bytes, codes, join}
use openspmregistry.Strings.Equality.{eq_bytes_iff}
use native.Mathlib.Nat.{zero-add}
use openspmregistry.Config.{ServerConfig}
use openspmregistry.Http.{Header, set}
use openspmregistry.Models.Element.{Platform, ListElement}
use openspmregistry.Controller.Links.{
  index_of, add_link_headers, element_link, one_link, latest_link, successor,
}

abbrev pub OtherVersions : Bytes → List ListElement → Type 0
OtherVersions current es = All (λ e. e.version ≢ current) es

index_of-absent :
    (current : Bytes) (i : ℕ) (es : List ListElement) (found : Option ℕ)
    → OtherVersions current es
    → index_of current i es found ≡ found
unfolding index_of
index_of-absent current i [] found h = refl
index_of-absent current i (e ∷ es) found (other, h) =
    ground (arith, eq_bytes_iff e.version current, index_of-absent current (suc i) es found h)

index_of-present :
    (current : Bytes) (i : ℕ) (before : List ListElement) (e : ListElement)
    (after : List ListElement) (found : Option ℕ)
    → e.version ≡ current
    → OtherVersions current after
    → index_of current i (before ++ (e ∷ after)) found ≡ some (i + length before)
unfolding index_of
index_of-present current i [] e after found h others =
    ground
      (arith, eq_bytes_iff e.version current, index_of-absent current (suc i) after (some i) others)
index_of-present current i (b ∷ before) e after found h others =
    index_of-present current (suc i) before e after _ h others ∙ ap some (omega arith)

abbrev pub first_of : List ListElement → Option ListElement
first_of [] = none
first_of (e ∷ _) = some e

abbrev pub last_of : List ListElement → Option ListElement
last_of [] = none
last_of (e ∷ []) = some e
last_of (_ ∷ e ∷ es) = last_of (e ∷ es)

-- the first element of a list that holds e behind others
abbrev pub head_of : List ListElement → ListElement → ListElement
head_of [] e = e
head_of (b ∷ _) e = b

get_elem?-behind :
    (before : List ListElement) (e : ListElement) (after : List ListElement)
    → get_elem? (before ++ (e ∷ after)) (suc (length before)) ≡ first_of after
get_elem?-behind [] e [] = refl
get_elem?-behind [] e (a ∷ after) = refl
get_elem?-behind (b ∷ before) e after = get_elem?-behind before e after

successor-last_of :
    (before : List ListElement) (e : ListElement) (after : List ListElement)
    → successor (before ++ (e ∷ after)) (length before) ≡ last_of before
successor-last_of [] e after = refl
successor-last_of (b ∷ []) e after = refl
successor-last_of (b ∷ d ∷ before) e after = successor-last_of (d ∷ before) e after

module _ (p : Platform) (c : ServerConfig) where
  latest_link-head_of :
      (before : List ListElement) (e : ListElement) (after : List ListElement)
      → latest_link p c (before ++ (e ∷ after))
        ≡ element_link p c (codes "latest-version") (head_of before e) ∷ []
  latest_link-head_of [] e after = refl
  latest_link-head_of (b ∷ before) e after = refl

  -- The Link header of a listed version names the first element of the list as the latest version,
  -- the element behind the version as its predecessor and the one before it as its successor, each
  -- if there is one, where the version is the last element of its version string in the list.
  pub add_link_headers-present :
      (current : Bytes) (before : List ListElement) (e : ListElement) (after : List ListElement)
      (h : Header)
      → e.version ≡ current
      → OtherVersions current after
      → add_link_headers p c (before ++ (e ∷ after)) current h
        ≡ set
            (codes "Link")
            (join
              (element_link p c (codes "latest-version") (head_of before e)
                ∷ (one_link p c (codes "predecessor-version") (first_of after)
                    ++ one_link p c (codes "successor-version") (last_of before)))
              (codes ", "))
            h
  unfolding add_link_headers
  add_link_headers-present current before e after h same others = rw (
    index_of-present current 0 before e after none same others,
    zero-add,
    latest_link-head_of before e after,
    get_elem?-behind before e after,
    successor-last_of before e after,
  )

  -- The Link header of a list without the current version names the latest version alone.
  pub add_link_headers-absent :
      (current : Bytes) (e : ListElement) (after : List ListElement) (h : Header)
      → OtherVersions current (e ∷ after)
      → add_link_headers p c (e ∷ after) current h
        ≡ set (codes "Link") (element_link p c (codes "latest-version") e) h
  unfolding add_link_headers
  add_link_headers-absent current e after h others =
      rw (index_of-absent current 0 (e ∷ after) none others) (unfold join in refl)
