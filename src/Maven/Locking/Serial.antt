-- ===== src/Maven/Locking/Serial.antt =====
-- The updates of concurrent requests, as if one ran behind the other.
use openspmregistry.Prelude.{
  ℕ, ◌≡◌, refl, sym, ap, ◌∙◌, ◌==◌, Bool, true, false, Option, none, some, List, [], ◌∷◌, arith,
  if◌then◌else◌,
}
use openspmregistry.Strings.{Bytes}
use openspmregistry.Maven.Locking.{
  Pc, start, loaded, stored, done, Shared, advance, Reach, begin, step, elsewhere,
}
use openspmregistry.Maven.Locking.Exclusion.{Isolated, Inv, Reach-Inv}

-- what a request has got, once its upload is over
abbrev pub result_of : {M R : Type 0} → Pc M R → Option R
result_of (stored mu r) = some r
result_of (done r) = some r
result_of _ = none

abbrev pub result_in : {R : Type 0} → ℕ → List (ℕ × R) → Option R
result_in i [] = none
result_in i ((j, r) ∷ order) = if j == i then some r else result_in i order

-- `run` is a whole update, from its load to its upload.
module _ {S M R : Type 0} (key : ℕ → Bytes) (load : ℕ → S → M) (store : ℕ → M → S → R × S)
    (run : ℕ → S → R × S) where
  -- The server behind updates one at a time, with their results, the last one first.
  pub data Runs (s : S) : List (ℕ × R) → S → Type 0 where
    none_yet : Runs s [] s
    updated :
        {order : List (ℕ × R)} {t : S} (i : ℕ)
        → Runs s order t
        → Runs s ((i, (run i t).0) ∷ order) ((run i t).1)
    others :
        {order : List (ℕ × R)} {t : S} (change : S → S)
        → ((i : ℕ) (u : S) → load i (change u) ≡ load i u)
        → Runs s order t
        → Runs s order (change t)

  -- A state is that behind some order of the updates that are over, with the same results.
  abbrev pub IsSerial : S → Shared S M R → Type 0
  IsSerial s a =
      (order : List (ℕ × R)) × Runs s order a.server
      × ((i : ℕ) → result_in i order ≡ result_of (a.pc i))

  abbrev uploading : Pc M R → Bool
  uploading (loaded mu m) = true
  uploading _ = false

  module _ (a : Shared S M R) (i : ℕ) where
    quiet-server :
        (p : Pc M R) → uploading p ≡ false → (advance key load store i p a).server ≡ a.server
    unfolding advance
    quiet-server start q = ground arith
    quiet-server p q = ground arith

    quiet-results :
        (p : Pc M R)
        → uploading p ≡ false
        → a.pc i ≡ p
        → (j : ℕ) → result_of ((advance key load store i p a).pc j) ≡ result_of (a.pc j)
    unfolding advance
    quiet-results start q at j = ground arith
    quiet-results p q at j = ground arith

    quiet :
        {s : S} (p : Pc M R)
        → uploading p ≡ false
        → a.pc i ≡ p
        → IsSerial s a
        → IsSerial s (advance key load store i p a)
    quiet p q at (order, runs, listed) =
        (order, rw (quiet-server p q) runs, λ j. listed j ∙ sym (quiet-results p q at j))

    uploads :
        {s : S} (mu : ℕ) (m : M)
        → a.pc i ≡ loaded mu m
        → store i m a.server ≡ run i a.server
        → IsSerial s a
        → IsSerial s (advance key load store i (loaded mu m) a)
    unfolding advance
    uploads mu m at fresh (order, runs, listed) =
        rw fresh ((i, (run i a.server).0) ∷ order, updated i runs, λ j. ground (arith, listed j))

    advance-IsSerial :
        {s : S}
        → ((t : S) → store i (load i t) t ≡ run i t)
        → Inv key load store a
        → (p : Pc M R) → a.pc i ≡ p
        → IsSerial s a
        → IsSerial s (advance key load store i p a)
    advance-IsSerial whole v (loaded mu m) at h =
        uploads mu m at (ap (λ l. store i l a.server) (v.current i mu m at) ∙ whole a.server) h
    advance-IsSerial whole v start at h = quiet start refl at h
    advance-IsSerial whole v p at h = quiet p refl at h

  -- Whatever the order in which the steps of the requests are made
  pub Reach-IsSerial :
      ((i : ℕ) (t : S) → store i (load i t) t ≡ run i t)
      → Isolated key load store
      → {s : S} {a : Shared S M R} → Reach key load store s a
      → IsSerial s a
  Reach-IsSerial whole isolated begin = ([], none_yet, λ i. refl)
  Reach-IsSerial whole isolated (step {a} i r) =
      advance-IsSerial a i (whole i) (Reach-Inv key load store isolated r) (a.pc i) refl
        (Reach-IsSerial whole isolated r)
  Reach-IsSerial whole isolated (elsewhere change keeps r) =
      let (order, runs, listed) = Reach-IsSerial whole isolated r in
      (order, others change keeps runs, listed)
