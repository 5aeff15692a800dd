-- ===== src/Collections/Grouping/Membership.antt =====
-- What the maps of `GenerateCollection` hold: each listed package version stands under its scope and
-- its name, and nothing else does.
use mathlib.Core.List.{Memᴰ}
use mathlib.Core.List.Memᴰ
use openspmregistry.Prelude.{refl, sym, ap, List, [], ◌∷◌, inl, inr, Bool-cases}
use openspmregistry.Strings.{Bytes, eq_bytes}
use openspmregistry.Strings.Equality.{eq_bytes_iff}
use openspmregistry.Models.Element.{ListElement}
use openspmregistry.Collections.Grouping.{Map, Names, modify, add_package, group}

module _ {V : Type 0} where
  -- m[key] is there and satisfies Q
  abbrev pub Holds : (V → Type 0) → Bytes → Map V → Type 0
  Holds Q key m = (v : V) × Memᴰ (key, v) m × Q v

  skip :
      {Q : V → Type 0} {key : Bytes} (entry : Bytes × V) {m : Map V}
      → Holds Q key m
      → Holds Q key (entry ∷ m)
  skip entry (v, found, q) = (v, Memᴰ.tail found, q)

  modify-new :
      (Q : V → Type 0) (key : Bytes) (missing : V) (change : V → V) (m : Map V)
      → ((v : V) → Q (change v))
      → Holds Q key (modify key missing change m)
  unfolding modify
  modify-new Q key missing change [] h = (change missing, Memᴰ.head refl, h missing)
  modify-new Q key missing change ((k, v) ∷ m) h = elim (Bool-cases (eq_bytes k key)) [
    | inl same ↦
        rw same
          (change v, Memᴰ.head (ap (λ t. (t, change v)) (sym ((eq_bytes_iff k key).0 same))), h v)
    | inr other ↦ rw other (skip {Q = Q} (k, v) (modify-new Q key missing change m h))
  ]

  modify-old :
      (Q : V → Type 0) (key : Bytes) (missing : V) (change : V → V) (j : Bytes) (m : Map V)
      → ((v : V) → Q v → Q (change v))
      → Holds Q j m
      → Holds Q j (modify key missing change m)
  unfolding modify
  modify-old Q key missing change j [] h (u, found, q) = elim found [ ]
  modify-old Q key missing change j ((k, v) ∷ m) h (u, Memᴰ.head e, q) =
      elim (Bool-cases (eq_bytes k key)) [
        | inl same ↦ rw same (change u, Memᴰ.head (ap (λ t. (t.0, change (t.1))) e), h u q)
        | inr other ↦ rw other (u, Memᴰ.head e, q)
      ]
  modify-old Q key missing change j ((k, v) ∷ m) h (u, Memᴰ.tail found, q) =
      elim (Bool-cases (eq_bytes k key)) [
        | inl same ↦ rw same (u, Memᴰ.tail found, q)
        | inr other ↦
            rw other (skip {Q = Q} (k, v) (modify-old Q key missing change j m h (u, found, q)))
      ]

-- The version stands in the map, under its scope and its name.
abbrev pub Held : ListElement → Map Names → Type 0
Held e = Holds {V = Names} (Holds (Memᴰ e) e.package_name) e.scope

add_package-new : (e : ListElement) (m : Map Names) → Held e (add_package e m)
unfolding add_package
add_package-new e m = modify-new _ e.scope [] _ m (λ names.
    modify-new _ e.package_name [] _ names
      (λ versions. Memᴰ.append_right versions (Memᴰ.head {xs = []} refl)))

add_package-old : (e f : ListElement) (m : Map Names) → Held f m → Held f (add_package e m)
unfolding add_package
add_package-old e f m h =
    modify-old _ e.scope [] _ f.scope m
      (λ names k.
        modify-old _ e.package_name [] _ f.package_name names
          (λ versions. Memᴰ.append_left (e ∷ [])) k)
      h

group-old :
    (e : ListElement) (packages : List ListElement) (m : Map Names)
    → Held e m
    → Held e (group packages m)
unfolding group
group-old e [] m h = h
group-old e (f ∷ packages) m h = group-old e packages (add_package f m) (add_package-old f e m h)

pub group-Held :
    (e : ListElement) (packages : List ListElement) (m : Map Names)
    → Memᴰ e packages
    → Held e (group packages m)
unfolding group
group-Held e [] m listed = elim listed [ ]
group-Held e (f ∷ packages) m (Memᴰ.head same) =
    rw same (group-old f packages (add_package f m) (add_package-new f m))
group-Held e (f ∷ packages) m (Memᴰ.tail listed) = group-Held e packages (add_package f m) listed
