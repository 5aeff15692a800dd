-- ===== src/S3/Pages.antt =====
-- repo/s3/list.go: listings that come in pages.
pub mod Chains
use openspmregistry.Prelude.{
  ℕ, zero, suc, Bool, true, false, Option, none, some, List, [], ◌∷◌, ◌++◌, Result, ok, err,
  if◌then◌else◌,
}
use openspmregistry.Strings.{Bytes, codes, has_suffix}
use openspmregistry.S3.Client.{Client, Listing}

-- the loop over out.CommonPrefixes
unfoldable pub present : List (Option Bytes) → List Bytes
present [] = []
present (none ∷ prefixes) = present prefixes
present (some prefix ∷ prefixes) = prefix ∷ present prefixes

-- the loop over out.Contents
unfoldable pub with_suffix : Bytes → List (Option Bytes) → List Bytes
with_suffix suffix [] = []
with_suffix suffix (none ∷ keys) = with_suffix suffix keys
with_suffix suffix (some key ∷ keys) =
    let rest = with_suffix suffix keys in if has_suffix key suffix then key ∷ rest else rest

-- out.IsTruncated == nil || !*out.IsTruncated
abbrev pub is_last : Listing → Bool
is_last out = elim out.is_truncated [
  | none ↦ true
  | some truncated ↦ elim truncated [ true ↦ false | false ↦ true ]
]

module _ {S : Type 0} (client : Client S) (s : S) where
  -- The loop of both listings, from a continuation token on: `collect` is its inner loop. `none`
  -- says that the fuel is spent before the last page came.
  unfoldable pub list_pages :
      (Listing → List Bytes)
      → Bytes
      → Option Bytes
      → ℕ
      → Option Bytes
      → List Bytes
      → Option (Result (List Bytes))
  list_pages collect prefix delimiter zero token result = none
  list_pages collect prefix delimiter (suc fuel) token result =
      elim (client.list_objects prefix delimiter token s) [
        | err e ↦ some (err e)
        | ok out ↦
            let result' = result ++ collect out in
            let rest =
              list_pages collect prefix delimiter fuel out.next_continuation_token result' in
            if is_last out then some (ok result') else rest
      ]

  unfoldable pub list_common_prefixes : ℕ → Bytes → Option (Result (List Bytes))
  unfolding list_pages
  list_common_prefixes fuel prefix =
      list_pages (λ out. present out.common_prefixes) prefix (some (codes "/")) fuel none []

  unfoldable pub list_keys_with_suffix : ℕ → Bytes → Bytes → Option (Result (List Bytes))
  unfolding list_pages
  list_keys_with_suffix fuel prefix suffix =
      list_pages (λ out. with_suffix suffix out.contents) prefix none fuel none []
