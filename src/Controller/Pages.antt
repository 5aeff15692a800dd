-- ===== src/Controller/Pages.antt =====
-- Pagination in controller/list.go. A slice expression out of range is a panic.
pub mod Windows
use openspmregistry.Prelude.{
  ℕ, zero, suc, ◌+◌, ◌-◌, Bool, true, false, ◌||◌, ◌&&◌, Option, none, some, List, [], ◌∷◌, ◌++◌,
  ltb, leb, if◌then◌else◌, length, take, drop,
}
use openspmregistry.Int.{ℤ, pos, negsuc, lt_int, le_int, add_int, sub_int, mul_int, pos_part}
use openspmregistry.Strings.{Bytes, codes, is_empty, join}
use openspmregistry.Strings.Numbers.{atoi, itoa}

-- A computation that may panic.
pub data Outcome {ℓ} (A : Type ℓ) : Type ℓ where
  done : A → Outcome A
  panic : Outcome A

-- `parseListPagination` on the text of ?page=: the page, and the page size or 0. The error of
-- Atoi is dropped, the value beside it is not.
unfoldable pub parse_list_pagination : Bytes → ℤ → ℤ × ℤ
parse_list_pagination query page_size =
    if le_int page_size (pos 0)
    then (pos 1, pos 0)
    else let (page, _) = atoi query in
      (if lt_int page (pos 1) then (pos 1, page_size) else (page, page_size))

-- min(a, b)
abbrev pub min_int : ℤ → ℤ → ℤ
min_int a b = if lt_int b a then b else a

module _ {A : Type 0} where
  -- elements[start:end]
  unfoldable pub slice : List A → ℤ → ℤ → Outcome (List A)
  slice xs (pos a) (pos b) =
      if leb a b && leb b (length xs) then done (take (b - a) (drop a xs)) else panic
  slice xs _ _ = panic

  -- the rest of `paginateElements`, from the first index on
  unfoldable pub window : List A → ℤ → ℤ → Outcome (List A)
  window elements start per_page =
      if le_int (pos (length elements)) start
      then done []
      else slice elements start (min_int (add_int start per_page) (pos (length elements)))

  unfoldable pub paginate_elements : List A → ℤ → ℤ → Outcome (List A)
  paginate_elements elements page per_page =
      if le_int per_page (pos 0) || lt_int page (pos 1)
      then done elements
      else window elements (mul_int (sub_int page (pos 1)) per_page) per_page
