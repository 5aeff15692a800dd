-- ===== src/Maven/Locking/Progress.antt =====
-- A mutex that is locked is held by a request that has not returned.
use openspmregistry.Prelude.{ℕ, ◌≡◌, refl, Bool, true, false, some, arith, Bool-cases, inl, inr}
use openspmregistry.Strings.{Bytes}
use openspmregistry.Maven.Locking.{
  Pc, start, in_map, missing, keyed, waiting, holding, loaded, stored, done, Shared, advance, Reach,
  begin, step, elsewhere,
}
use openspmregistry.Maven.Locking.Exclusion.{holds_map, held_of}

-- how far a request has come
abbrev pub stage : {M R : Type 0} → Pc M R → ℕ
stage start = 0
stage in_map = 1
stage missing = 2
stage (keyed mu) = 3
stage (waiting mu) = 4
stage (holding mu) = 5
stage (loaded mu m) = 6
stage (stored mu r) = 7
stage (done r) = 8

abbrev pub has_returned : {M R : Type 0} → Pc M R → Bool
has_returned (done r) = true
has_returned _ = false

module _ {S M R : Type 0} (key : ℕ → Bytes) (load : ℕ → S → M) (store : ℕ → M → S → R × S) where
  -- A mutex that is locked is held by a request.
  pub record Owned (a : Shared S M R) : Type 0 where
    pub map_owner : a.metadata_mu ≡ true → (i : ℕ) × (holds_map (a.pc i) ≡ true)
    pub key_owner : (mu : ℕ) → a.key_mu mu ≡ true → (i : ℕ) × (held_of (a.pc i) ≡ some mu)

  module _ {a : Shared S M R} (v : Owned a) (i : ℕ) where
    abbrev behind : Pc M R → Shared S M R
    behind p = advance key load store i p a

    -- the owner of a mutex that this step neither takes nor releases
    map_kept :
        (p : Pc M R)
        → a.pc i ≡ p
        → holds_map p ≡ false
        → (j : ℕ) → holds_map (a.pc j) ≡ true
        → holds_map ((behind p).pc j) ≡ true
    unfolding advance
    map_kept start at out j h = ground arith
    map_kept p at out j h = ground arith

    key_kept :
        (p : Pc M R)
        → a.pc i ≡ p
        → (mu j : ℕ) → (behind p).key_mu mu ≡ true
        → held_of (a.pc j) ≡ some mu
        → held_of ((behind p).pc j) ≡ some mu
    unfolding advance
    key_kept start at mu j h held = ground arith
    key_kept p at mu j h held = ground arith

    advance-map_owner :
        (p : Pc M R)
        → a.pc i ≡ p
        → (behind p).metadata_mu ≡ true
        → (j : ℕ) × (holds_map ((behind p).pc j) ≡ true)
    unfolding advance
    advance-map_owner start at h = elim (Bool-cases a.metadata_mu) [
      | inl taken ↦ let (j, owns) = v.map_owner taken in (j, map_kept start at refl j owns)
      | inr free ↦ (i, ground arith)
    ]
    advance-map_owner in_map at h = (i, ground arith)
    advance-map_owner missing at h = (i, ground arith)
    advance-map_owner (keyed mu) at h = absurd (cc)
    advance-map_owner p at h =
        let taken : a.metadata_mu ≡ true = ground arith in
        let (j, owns) = v.map_owner taken in (j, map_kept p at refl j owns)

    advance-key_owner :
        (p : Pc M R)
        → a.pc i ≡ p
        → (mu : ℕ) → (behind p).key_mu mu ≡ true
        → (j : ℕ) × (held_of ((behind p).pc j) ≡ some mu)
    unfolding advance
    advance-key_owner (waiting nu) at mu h = elim (Bool-cases (a.key_mu mu)) [
      | inl taken ↦
          let (j, owns) = v.key_owner mu taken in (j, key_kept (waiting nu) at mu j h owns)
      | inr free ↦ (i, ground arith)
    ]
    advance-key_owner p at mu h =
        let taken : a.key_mu mu ≡ true = ground arith in
        let (j, owns) = v.key_owner mu taken in (j, key_kept p at mu j h owns)

  pub Reach-Owned : {s : S} {a : Shared S M R} → Reach key load store s a → Owned a
  Reach-Owned begin = record { map_owner = λ h. absurd (cc); key_owner = λ mu h. absurd (cc) }
  Reach-Owned (step {a} i r) =
      let v = Reach-Owned r in
      record {
        map_owner = advance-map_owner v i (a.pc i) refl;
        key_owner = advance-key_owner v i (a.pc i) refl;
      }
  Reach-Owned (elsewhere change keeps r) =
      let v = Reach-Owned r in record { map_owner = v.map_owner; key_owner = v.key_owner }
