-- ===== src/Collections/Grouping.antt =====
-- The maps of `GenerateCollection` in repo/collections.go.
pub mod Membership
use mathlib.Core.List.{Permᴰ}
use openspmregistry.Prelude.{List, [], ◌∷◌, ◌++◌, if◌then◌else◌}
use openspmregistry.Strings.{Bytes, eq_bytes}
use openspmregistry.Models.Element.{ListElement}

-- The order in which a range visits the entries of a map: Go promises none.
pub record Iteration : Type 1 where
  pub order : {A : Type 0} → List A → List A
  pub permuted : {A : Type 0} (entries : List A) → Permᴰ (order entries) entries

abbrev pub Map : Type 0 → Type 0
Map V = List (Bytes × V)

-- m[key] = change(m[key]), where `missing` stands for the value of a missing key
unfoldable pub modify : {V : Type 0} → Bytes → V → (V → V) → Map V → Map V
modify key missing change [] = (key, change missing) ∷ []
modify key missing change ((k, v) ∷ m) =
    let rest = modify key missing change m in
    if eq_bytes k key then (k, change v) ∷ m else (k, v) ∷ rest

abbrev pub Names : Type 0
Names = Map (List ListElement)

-- the body of the loop over the packages
unfoldable pub add_package : ListElement → Map Names → Map Names
unfolding modify
add_package e = modify e.scope [] (modify e.package_name [] (λ versions. versions ++ (e ∷ [])))

-- packagesByScope
unfoldable pub group : List ListElement → Map Names → Map Names
unfolding add_package
group [] by_scope = by_scope
group (e ∷ packages) by_scope = group packages (add_package e by_scope)
