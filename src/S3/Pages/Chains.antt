-- ===== src/S3/Pages/Chains.antt =====
-- A listing follows the service's continuation tokens to the last page.
use openspmregistry.Prelude.{
  ℕ, zero, suc, ◌≤◌, ◌≡◌, refl, ◌∙◌, ap, true, false, Option, none, some, List, [], ◌∷◌, ◌++◌, ok,
  append_assoc, append-nil, arith, length,
}
use openspmregistry.Strings.{Bytes, codes}
use openspmregistry.S3.Client.{Client, Listing}
use openspmregistry.S3.Pages.{
  is_last, present, with_suffix, list_pages, list_common_prefixes, list_keys_with_suffix,
}

module _ {S : Type 0} (client : Client S) (s : S) (prefix : Bytes) (delimiter : Option Bytes) where
  -- The pages that the service answers with, each token being that of the page before.
  pub data Chain : Option Bytes → List Listing → Type 0 where
    last :
        {token : Option Bytes} {out : Listing}
        → client.list_objects prefix delimiter token s ≡ ok out
        → is_last out ≡ true
        → Chain token (out ∷ [])
    more :
        {token : Option Bytes} {out : Listing} {outs : List Listing}
        → client.list_objects prefix delimiter token s ≡ ok out
        → is_last out ≡ false
        → Chain out.next_continuation_token outs
        → Chain token (out ∷ outs)

abbrev pub concat_map : (Listing → List Bytes) → List Listing → List Bytes
concat_map collect [] = []
concat_map collect (out ∷ outs) = collect out ++ concat_map collect outs

module _ {S : Type 0} (client : Client S) (s : S) (prefix : Bytes) (delimiter : Option Bytes)
    (collect : Listing → List Bytes) where
  list_pages-Chain :
      (fuel : ℕ) (token : Option Bytes) (outs : List Listing) (result : List Bytes)
      → Chain client s prefix delimiter token outs
      → length outs ≤ fuel
      → list_pages client s collect prefix delimiter fuel token result
        ≡ some (ok (result ++ concat_map collect outs))
  unfolding list_pages
  list_pages-Chain zero token outs result (last e h) le = elim le [ ]
  list_pages-Chain zero token outs result (more e h c) le = elim le [ ]
  list_pages-Chain (suc fuel) token outs result (last {out} e h) le =
      rw (list_pages, e, h, append-nil (collect out)) refl
  list_pages-Chain (suc fuel) token outs result (more {out} {outs = rest} e h c) le =
      rw (list_pages, e, h)
        (list_pages-Chain fuel out.next_continuation_token rest (result ++ collect out) c
            (omega arith)
          ∙ ap (λ t. some (ok t)) (append_assoc result (collect out) (concat_map collect rest)))

-- With as much fuel as the service has pages, the listing of directories returns the common
-- prefixes of all pages in their order.
pub list_common_prefixes-Chain :
    {S : Type 0} (client : Client S) (s : S) (prefix : Bytes) (outs : List Listing) (fuel : ℕ)
    → Chain client s prefix (some (codes "/")) none outs
    → length outs ≤ fuel
    → list_common_prefixes client s fuel prefix
      ≡ some (ok (concat_map (λ out. present out.common_prefixes) outs))
unfolding list_common_prefixes
list_common_prefixes-Chain client s prefix outs fuel c le =
    list_pages-Chain client s prefix (some (codes "/")) (λ out. present out.common_prefixes) fuel
      none outs [] c le

-- With as much fuel as the service has pages, the listing of keys returns those keys of all pages
-- that end in the suffix, in their order.
pub list_keys_with_suffix-Chain :
    {S : Type 0} (client : Client S) (s : S) (prefix suffix : Bytes) (outs : List Listing)
    (fuel : ℕ)
    → Chain client s prefix none none outs
    → length outs ≤ fuel
    → list_keys_with_suffix client s fuel prefix suffix
      ≡ some (ok (concat_map (λ out. with_suffix suffix out.contents) outs))
unfolding list_keys_with_suffix
list_keys_with_suffix-Chain client s prefix suffix outs fuel c le =
    list_pages-Chain client s prefix none (λ out. with_suffix suffix out.contents) fuel none outs []
      c le
