-- ===== src/Maven/Locking/Exclusion.antt =====
-- Which request holds which mutex, and what it has loaded.
use openspmregistry.Prelude.{
  ℕ, ◌≡◌, ◌≢◌, refl, sym, ap, ◌∙◌, ◌==◌, Bool, true, false, Option, none, some, arith, Bool-cases,
  inl, inr,
}
use openspmregistry.Strings.{Bytes}
use openspmregistry.Strings.Equality.{eq_bytes_iff}
use openspmregistry.Maven.Locking.{
  Pc, start, in_map, missing, keyed, waiting, holding, loaded, stored, Shared, mutex_for,
  new_shared, advance, Reach, begin, step, elsewhere,
}

module _ {M R : Type 0} where
  -- between Lock and Unlock of metadataMu
  abbrev pub holds_map : Pc M R → Bool
  holds_map in_map = true
  holds_map missing = true
  holds_map (keyed mu) = true
  holds_map _ = false

  -- the mutex that it found or made
  abbrev pub mutex_of : Pc M R → Option ℕ
  mutex_of (keyed mu) = some mu
  mutex_of (waiting mu) = some mu
  mutex_of (holding mu) = some mu
  mutex_of (loaded mu m) = some mu
  mutex_of (stored mu r) = some mu
  mutex_of _ = none

  -- the mutex that it holds
  abbrev pub held_of : Pc M R → Option ℕ
  held_of (holding mu) = some mu
  held_of (loaded mu m) = some mu
  held_of (stored mu r) = some mu
  held_of _ = none

module _ {S M R : Type 0} (key : ℕ → Bytes) (load : ℕ → S → M) (store : ℕ → M → S → R × S) where
  -- An upload for one key leaves what the requests for other keys load.
  abbrev pub Isolated : Type 0
  Isolated = (i j : ℕ) (m : M) (s : S) → key i ≢ key j → load i ((store j m s).1) ≡ load i s

  pub record Inv (a : Shared S M R) : Type 0 where
    pub map_locked : (i : ℕ) → holds_map (a.pc i) ≡ true → a.metadata_mu ≡ true
    pub map_alone : (i j : ℕ) → holds_map (a.pc i) ≡ true → holds_map (a.pc j) ≡ true → i ≡ j
    pub absent : (i : ℕ) → a.pc i ≡ missing → mutex_for (key i) a.metadata_keys ≡ none
    pub found :
        (i mu : ℕ) → mutex_of (a.pc i) ≡ some mu → mutex_for (key i) a.metadata_keys ≡ some mu
    pub locked : (i mu : ℕ) → held_of (a.pc i) ≡ some mu → a.key_mu mu ≡ true
    pub alone : (i j mu : ℕ) → held_of (a.pc i) ≡ some mu → held_of (a.pc j) ≡ some mu → i ≡ j
    pub current : (i mu : ℕ) (m : M) → a.pc i ≡ loaded mu m → m ≡ load i a.server

  Inv-new : (s : S) → Inv (new_shared s)
  Inv-new s = record {
    map_locked = λ i h. cc;
    map_alone = λ i j h. cc;
    absent = λ i h. cc;
    found = λ i mu h. cc;
    locked = λ i mu h. cc;
    alone = λ i j mu h. cc;
    current = λ i mu m h. cc;
  }

  held-mutex : (p : Pc M R) (mu : ℕ) → held_of p ≡ some mu → mutex_of p ≡ some mu
  held-mutex start mu h = cc
  held-mutex p mu h = ground arith

  module _ {a : Shared S M R} (v : Inv a) (i : ℕ) where
    abbrev behind : Pc M R → Shared S M R
    behind p = advance key load store i p a

    advance-map_locked :
        (p : Pc M R)
        → a.pc i ≡ p
        → (j : ℕ) → holds_map ((behind p).pc j) ≡ true
        → (behind p).metadata_mu ≡ true
    unfolding advance
    advance-map_locked start at j h = ground (arith, v.map_locked j)
    advance-map_locked p at j h = ground (arith, v.map_locked j, v.map_locked i, v.map_alone i j)

    advance-map_alone :
        (p : Pc M R)
        → a.pc i ≡ p
        → (j k : ℕ) → holds_map ((behind p).pc j) ≡ true
        → holds_map ((behind p).pc k) ≡ true
        → j ≡ k
    unfolding advance
    advance-map_alone start at j k h g =
        ground (arith, v.map_locked j, v.map_locked k, v.map_alone j k)
    advance-map_alone p at j k h g =
        ground (arith, v.map_alone j k, v.map_alone i j, v.map_alone i k)

    advance-absent :
        (p : Pc M R)
        → a.pc i ≡ p
        → (j : ℕ) → (behind p).pc j ≡ missing
        → mutex_for (key j) (behind p).metadata_keys ≡ none
    unfolding advance
    advance-absent start at j h = ground (arith, v.absent j)
    advance-absent p at j h =
        ground (arith, v.absent j, v.map_alone i j, eq_bytes_iff (key i) (key j))

    advance-found :
        (p : Pc M R)
        → a.pc i ≡ p
        → (j mu : ℕ) → mutex_of ((behind p).pc j) ≡ some mu
        → mutex_for (key j) (behind p).metadata_keys ≡ some mu
    unfolding advance
    advance-found start at j mu h = ground (arith, v.found j mu)
    advance-found p at j mu h =
        ground (arith, v.found j mu, v.absent i, eq_bytes_iff (key i) (key j))

    advance-locked :
        (p : Pc M R)
        → a.pc i ≡ p
        → (j mu : ℕ) → held_of ((behind p).pc j) ≡ some mu
        → (behind p).key_mu mu ≡ true
    unfolding advance
    advance-locked start at j mu h = ground (arith, v.locked j mu)
    advance-locked p at j mu h = ground (arith, v.locked j mu, v.alone i j mu, v.locked i mu)

    advance-alone :
        (p : Pc M R)
        → a.pc i ≡ p
        → (j k mu : ℕ) → held_of ((behind p).pc j) ≡ some mu
        → held_of ((behind p).pc k) ≡ some mu
        → j ≡ k
    unfolding advance
    advance-alone start at j k mu h g = ground (arith, v.alone j k mu)
    advance-alone p at j k mu h g =
        ground (arith, v.alone j k mu, v.locked j mu, v.locked k mu, v.alone i j mu, v.alone i k mu)

    -- Requests for one key that both hold their mutexes are the same.
    same_key :
        (j mu nu : ℕ)
        → held_of (a.pc i) ≡ some mu
        → held_of (a.pc j) ≡ some nu
        → key i ≡ key j
        → i ≡ j
    same_key j mu nu hi hj e = ground (
      arith,
      held-mutex (a.pc i) mu,
      held-mutex (a.pc j) nu,
      v.found i mu,
      v.found j nu,
      ap (λ k. mutex_for k a.metadata_keys) e,
      v.alone i j mu,
    )

    module _ (isolated : Isolated) where
      advance-current :
          (p : Pc M R)
          → a.pc i ≡ p
          → (j mu : ℕ) (m : M) → (behind p).pc j ≡ loaded mu m
          → m ≡ load j (behind p).server
      unfolding advance
      advance-current start at j mu m h = ground (arith, v.current j mu m)
      advance-current (loaded nu n) at j mu m h = elim (Bool-cases (i == j)) [
        | inl same ↦ ground arith
        | inr apart ↦
            let there : a.pc j ≡ loaded mu m = ground arith in
            let other : key i ≢ key j =
              λ e. ground (arith, same_key j nu mu (rw at refl) (rw there refl) e) in
            v.current j mu m there ∙ sym (isolated j i n a.server (λ e. other (sym e)))
      ]
      advance-current p at j mu m h = ground (arith, v.current j mu m)

      advance-Inv : (p : Pc M R) → a.pc i ≡ p → Inv (behind p)
      advance-Inv p at = record {
        map_locked = advance-map_locked p at;
        map_alone = advance-map_alone p at;
        absent = advance-absent p at;
        found = advance-found p at;
        locked = advance-locked p at;
        alone = advance-alone p at;
        current = advance-current p at;
      }

  pub Reach-Inv : Isolated → {s : S} {a : Shared S M R} → Reach key load store s a → Inv a
  Reach-Inv isolated {s} begin = Inv-new s
  Reach-Inv isolated (step {a} i r) = advance-Inv (Reach-Inv isolated r) i isolated (a.pc i) refl
  Reach-Inv isolated (elsewhere {a} change keeps r) =
      let v = Reach-Inv isolated r in
      record {
        map_locked = v.map_locked;
        map_alone = v.map_alone;
        absent = v.absent;
        found = v.found;
        locked = v.locked;
        alone = v.alone;
        current = λ i mu m h. v.current i mu m h ∙ sym (keeps i a.server);
      }
