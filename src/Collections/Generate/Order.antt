-- ===== src/Collections/Generate/Order.antt =====
-- The packages of a collection are ordered by their URLs.
use openspmregistry.Prelude.{
  ℕ, ◌≡◌, refl, false, true, arith, List, [], ◌∷◌, inl, inr, Bool-cases, All,
}
use openspmregistry.Strings.{Bytes, to_lower}
use openspmregistry.Strings.Order.{Before, compare-cases, compare-Before, not-Before-trans}
use openspmregistry.Sort.{SortFunc, IsStrictWeak, Ranked, Ranked-map, less}
use openspmregistry.Models.Element.{ListElement}
use openspmregistry.Repo.{Repo, Context}
use openspmregistry.Collections.Data.{CollectionPackage}
use openspmregistry.Collections.Grouping.{Iteration, group}
use openspmregistry.Collections.Generate.{compare_urls, packages_of_scopes, collection_packages}

-- The lower case URL of `a` stands before that of `b`.
abbrev pub UrlBefore : CollectionPackage → CollectionPackage → Type 0
UrlBefore a b = Before (to_lower a.url) (to_lower b.url)

UrlBefore-of_less : (a b : CollectionPackage) → less compare_urls a b ≡ true → UrlBefore a b
unfolding compare_urls
UrlBefore-of_less a b h = elim (compare-cases (to_lower a.url) (to_lower b.url)) [
  | inl before ↦ before
  | inr (inl same) ↦ ground arith
  | inr (inr after) ↦ ground arith
]

less-UrlBefore : (a b : CollectionPackage) → UrlBefore a b → less compare_urls a b ≡ true
unfolding compare_urls
less-UrlBefore a b h = rw h refl

not_less : (a b : CollectionPackage) → less compare_urls a b ≡ false → ¬ UrlBefore a b
not_less a b h before = cc (h, less-UrlBefore a b before)

less_of_not : (a b : CollectionPackage) → ¬ UrlBefore a b → less compare_urls a b ≡ false
less_of_not a b h = elim (Bool-cases (less compare_urls a b)) [
  | inl t ↦ absurd (h (UrlBefore-of_less a b t))
  | inr f ↦ f
]

AnyPackage : CollectionPackage → Type 0
AnyPackage p = Unit

compare_urls-IsStrictWeak : IsStrictWeak AnyPackage compare_urls
compare_urls-IsStrictWeak = record {
  asymmetric = λ a b pa pb h.
      less_of_not b a (λ before. cc (UrlBefore-of_less a b h, compare-Before _ _ before));
  unranked = λ a b c pa pb pc h k.
      less_of_not a c (not-Before-trans _ _ _ (not_less a b h) (not_less b c k));
}

packages-AnyPackage : (ps : List CollectionPackage) → All AnyPackage ps
unfolding AnyPackage
packages-AnyPackage [] = tt
packages-AnyPackage (p ∷ ps) = (tt, packages-AnyPackage ps)

-- No package of a collection stands before one whose URL, in lower case, is smaller.
pub collection_packages-Ranked :
    {S W : Type 0} (repo : Repo S W) (slices : SortFunc) (iteration : Iteration) (now : ℕ)
    (format_time : ℕ → Bytes) (ctx : Context) (packages : List ListElement) (s : S)
    → Ranked
        (λ a b. ¬ UrlBefore b a)
        (collection_packages repo slices iteration now format_time ctx packages s)
unfolding collection_packages
collection_packages-Ranked repo slices iteration now format_time ctx packages s =
    let built =
      packages_of_scopes repo slices iteration now format_time ctx
        (iteration.order (group packages [])) s in
    Ranked-map _ (λ a b. not_less b a)
      (slices.sorted AnyPackage compare_urls built compare_urls-IsStrictWeak
        (packages-AnyPackage built))
