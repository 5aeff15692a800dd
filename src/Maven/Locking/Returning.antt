-- ===== src/Maven/Locking/Returning.antt =====
-- No deadlock: whatever has been done, every request can be brought to its return.
use openspmregistry.Prelude.{
  ℕ, ◌≡◌, ◌≢◌, refl, ap, ◌==◌, true, false, some, List, [], ◌∷◌, arith, Bool-cases, Option-cases,
  inl, inr,
}
use openspmregistry.Strings.{Bytes}
use openspmregistry.Maven.Locking.{
  Pc, start, in_map, missing, keyed, waiting, holding, loaded, stored, done, Shared, mutex_for,
  advance, Reach, step,
}
use openspmregistry.Maven.Locking.Exclusion.{holds_map, held_of}
use openspmregistry.Maven.Locking.Progress.{stage, has_returned, Reach-Owned}

module _ {S M R : Type 0} (key : ℕ → Bytes) (load : ℕ → S → M) (store : ℕ → M → S → R × S) where
  abbrev go : ℕ → Shared S M R → Shared S M R
  go i a = advance key load store i (a.pc i) a

  -- the steps of these requests, the first one first
  pub run : List ℕ → Shared S M R → Shared S M R
  run [] a = a
  run (i ∷ steps) a = run steps (go i a)

  -- Some steps bring the request to its return.
  abbrev pub Returns : Shared S M R → ℕ → Type 0
  Returns a i = (steps : List ℕ) × (has_returned ((run steps a).pc i) ≡ true)

  behind_step : (a : Shared S M R) (i j : ℕ) → Returns (go j a) i → Returns a i
  unfolding run
  behind_step a i j (steps, returned) = (j ∷ steps, returned)

  other_pc :
      (a : Shared S M R) (i j : ℕ) (p : Pc M R)
      → (i == j) ≡ false
      → (advance key load store j p a).pc i ≡ a.pc i
  unfolding advance
  other_pc a i j start apart = ground arith
  other_pc a i j p apart = ground arith

  apart_by : (a : Shared S M R) (i j : ℕ) → stage (a.pc i) ≢ stage (a.pc j) → (i == j) ≡ false
  apart_by a i j h = elim (Bool-cases (i == j)) [
    | inl same ↦ let e : i ≡ j = ground arith in absurd (h (ap (λ k. stage (a.pc k)) e))
    | inr apart ↦ apart
  ]

  module _ (i : ℕ) where
    from_stored : (a : Shared S M R) (mu : ℕ) (r : R) → a.pc i ≡ stored mu r → Returns a i
    unfolding run advance
    from_stored a mu r at = (i ∷ [], ground arith)

    from_loaded : (a : Shared S M R) (mu : ℕ) (m : M) → a.pc i ≡ loaded mu m → Returns a i
    unfolding advance
    from_loaded a mu m at =
        behind_step a i i (from_stored (go i a) mu ((store i m a.server).0) (ground arith))

    from_holding : (a : Shared S M R) (mu : ℕ) → a.pc i ≡ holding mu → Returns a i
    unfolding advance
    from_holding a mu at =
        behind_step a i i (from_loaded (go i a) mu (load i a.server) (ground arith))

    -- the mutex of the key is free, or is released in one to three steps of its holder
    from_free :
        (a : Shared S M R) (mu : ℕ) → a.pc i ≡ waiting mu → a.key_mu mu ≡ false → Returns a i
    unfolding advance
    from_free a mu at free = behind_step a i i (from_holding (go i a) mu (ground arith))

    module _ (j : ℕ) where
      behind_stored :
          (a : Shared S M R) (mu : ℕ) (r : R)
          → a.pc i ≡ waiting mu
          → a.pc j ≡ stored mu r
          → Returns a i
      unfolding advance
      behind_stored a mu r at there =
          let apart = apart_by a i j (rw (at, there) (λ e. omega (arith, e))) in
          behind_step a i j (from_free (go j a) mu (ground arith) (ground arith))

      behind_loaded :
          (a : Shared S M R) (mu : ℕ) (m : M)
          → a.pc i ≡ waiting mu
          → a.pc j ≡ loaded mu m
          → Returns a i
      unfolding advance
      behind_loaded a mu m at there =
          let apart = apart_by a i j (rw (at, there) (λ e. omega (arith, e))) in
          behind_step a i j
            (behind_stored (go j a) mu ((store j m a.server).0) (ground arith) (ground arith))

      behind_holding :
          (a : Shared S M R) (mu : ℕ) → a.pc i ≡ waiting mu → a.pc j ≡ holding mu → Returns a i
      unfolding advance
      behind_holding a mu at there =
          let apart = apart_by a i j (rw (at, there) (λ e. omega (arith, e))) in
          behind_step a i j
            (behind_loaded (go j a) mu (load j a.server) (ground arith) (ground arith))

      behind_holder :
          (a : Shared S M R) (mu : ℕ) (p : Pc M R)
          → a.pc i ≡ waiting mu
          → a.pc j ≡ p
          → held_of p ≡ some mu
          → Returns a i
      behind_holder a mu (holding nu) at there held =
          let same : nu ≡ mu = cc in behind_holding a mu at (rw same at there)
      behind_holder a mu (loaded nu m) at there held =
          let same : nu ≡ mu = cc in behind_loaded a mu m at (rw same at there)
      behind_holder a mu (stored nu r) at there held =
          let same : nu ≡ mu = cc in behind_stored a mu r at (rw same at there)
      behind_holder a mu p at there held = absurd (cc)

    module _ {s : S} where
      from_waiting :
          {a : Shared S M R} (r : Reach key load store s a) (mu : ℕ)
          → a.pc i ≡ waiting mu
          → Returns a i
      from_waiting {a} r mu at = elim (Bool-cases (a.key_mu mu)) [
        | inr free ↦ from_free a mu at free
        | inl taken ↦
            let (j, held) = (Reach-Owned key load store r).key_owner mu taken in
            behind_holder j a mu (a.pc j) at refl held
      ]

      from_keyed :
          {a : Shared S M R} (r : Reach key load store s a) (mu : ℕ)
          → a.pc i ≡ keyed mu
          → Returns a i
      unfolding advance
      from_keyed {a} r mu at = behind_step a i i (from_waiting (step i r) mu (ground arith))

      from_missing :
          {a : Shared S M R} (r : Reach key load store s a) → a.pc i ≡ missing → Returns a i
      unfolding advance
      from_missing {a} r at = behind_step a i i (from_keyed (step i r) a.next_mutex (ground arith))

      from_in_map :
          {a : Shared S M R} (r : Reach key load store s a) → a.pc i ≡ in_map → Returns a i
      unfolding advance
      from_in_map {a} r at = elim (Option-cases (mutex_for (key i) a.metadata_keys)) [
        | inl absent ↦ behind_step a i i (from_missing (step i r) (ground arith))
        | inr (mu, found) ↦ behind_step a i i (from_keyed (step i r) mu (ground arith))
      ]

      -- the mutex of the map is free, or is released in one to three steps of its holder
      from_open :
          {a : Shared S M R} (r : Reach key load store s a)
          → a.pc i ≡ start
          → a.metadata_mu ≡ false
          → Returns a i
      unfolding advance
      from_open {a} r at free = behind_step a i i (from_in_map (step i r) (ground arith))

      module _ (j : ℕ) where
        behind_keyed :
            {a : Shared S M R} (r : Reach key load store s a) (mu : ℕ)
            → a.pc i ≡ start
            → a.pc j ≡ keyed mu
            → Returns a i
        unfolding advance
        behind_keyed {a} r mu at there =
            let apart = apart_by a i j (rw (at, there) (λ e. omega (arith, e))) in
            behind_step a i j (from_open (step j r) (ground arith) (ground arith))

        behind_missing :
            {a : Shared S M R} (r : Reach key load store s a)
            → a.pc i ≡ start
            → a.pc j ≡ missing
            → Returns a i
        unfolding advance
        behind_missing {a} r at there =
            let apart = apart_by a i j (rw (at, there) (λ e. omega (arith, e))) in
            behind_step a i j (behind_keyed (step j r) a.next_mutex (ground arith) (ground arith))

        behind_in_map :
            {a : Shared S M R} (r : Reach key load store s a)
            → a.pc i ≡ start
            → a.pc j ≡ in_map
            → Returns a i
        unfolding advance
        behind_in_map {a} r at there =
            let apart = apart_by a i j (rw (at, there) (λ e. omega (arith, e))) in
            elim (Option-cases (mutex_for (key j) a.metadata_keys)) [
              | inl absent ↦
                  behind_step a i j (behind_missing (step j r) (ground arith) (ground arith))
              | inr (mu, found) ↦
                  behind_step a i j (behind_keyed (step j r) mu (ground arith) (ground arith))
            ]

        behind_map_holder :
            {a : Shared S M R} (r : Reach key load store s a) (p : Pc M R)
            → a.pc i ≡ start
            → a.pc j ≡ p
            → holds_map p ≡ true
            → Returns a i
        behind_map_holder r in_map at there held = behind_in_map r at there
        behind_map_holder r missing at there held = behind_missing r at there
        behind_map_holder r (keyed mu) at there held = behind_keyed r mu at there
        behind_map_holder r p at there held = absurd (cc)

      from :
          {a : Shared S M R} (r : Reach key load store s a) (p : Pc M R) → a.pc i ≡ p → Returns a i
      unfolding run
      from {a} r start at = elim (Bool-cases a.metadata_mu) [
        | inr free ↦ from_open r at free
        | inl taken ↦
            let (j, held) = (Reach-Owned key load store r).map_owner taken in
            behind_map_holder j r (a.pc j) at refl held
      ]
      from r in_map at = from_in_map r at
      from r missing at = from_missing r at
      from r (keyed mu) at = from_keyed r mu at
      from r (waiting mu) at = from_waiting r mu at
      from {a} r (holding mu) at = from_holding a mu at
      from {a} r (loaded mu m) at = from_loaded a mu m at
      from {a} r (stored mu t) at = from_stored a mu t at
      from r (done t) at = ([], rw at refl)

  -- The mutexes cause no deadlock: from every state that concurrent calls of updateMetadataLocked can
  -- reach, and for each call, begun or not, some steps of the calls lead to its return.
  pub Reach-Returns : {s : S} {a : Shared S M R} → Reach key load store s a → (i : ℕ) → Returns a i
  Reach-Returns {s} {a} r i = from i r (a.pc i) refl
