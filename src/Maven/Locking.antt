-- ===== src/Maven/Locking.antt =====
-- updateMetadataLocked of repo/maven/access.go, a step at a time: requests that update the metadata
-- at once, interleaved in any order. Each is numbered, and one that waits for a mutex does not move.
pub mod Exclusion
pub mod Serial
pub mod Updates
pub mod Progress
pub mod Returning
use openspmregistry.Prelude.{
  ℕ, suc, ◌≡◌, Bool, true, false, Option, none, some, List, [], ◌∷◌, ◌==◌, if◌then◌else◌,
}
use openspmregistry.Strings.{Bytes, eq_bytes}

-- Where a request stands, with its keyMu, which is a number.
pub data Pc (M R : Type 0) : Type 0 where
  start : Pc M R
  -- it holds metadataMu, before and behind the look into the map
  in_map : Pc M R
  missing : Pc M R
  -- it holds metadataMu and has keyMu
  keyed : ℕ → Pc M R
  -- before keyMu.Lock
  waiting : ℕ → Pc M R
  -- it holds keyMu: before the load, before the upload, and behind it
  holding : ℕ → Pc M R
  loaded : ℕ → M → Pc M R
  stored : ℕ → R → Pc M R
  -- it has returned
  done : R → Pc M R

-- What the requests share: the mutexes of `access`, of which the map holds one for each key, and the
-- server.
pub record Shared (S M R : Type 0) : Type 0 where
  pub metadata_mu : Bool
  pub metadata_keys : List (Bytes × ℕ)
  -- the number of the next &sync.Mutex{}
  pub next_mutex : ℕ
  pub key_mu : ℕ → Bool
  pub server : S
  pub pc : ℕ → Pc M R

abbrev pub update : {A : Type 0} → (ℕ → A) → ℕ → A → ℕ → A
update f i a j = if i == j then a else f j

abbrev pub mutex_for : Bytes → List (Bytes × ℕ) → Option ℕ
mutex_for key [] = none
mutex_for key ((k, mu) ∷ keys) = if eq_bytes k key then some mu else mutex_for key keys

module _ {S M R : Type 0} where
  abbrev pub goes_to : ℕ → Pc M R → Shared S M R → Shared S M R
  goes_to i p a = record a { pc = update a.pc i p }

  -- `newAccess`, and the requests before their first step
  abbrev pub new_shared : S → Shared S M R
  new_shared s = record {
    metadata_mu = false;
    metadata_keys = [];
    next_mutex = 0;
    key_mu = λ mu. false;
    server = s;
    pc = λ i. start;
  }

  abbrev with_mutex : ℕ → Option ℕ → Shared S M R → Shared S M R
  with_mutex i none a = goes_to i missing a
  with_mutex i (some mu) a = goes_to i (keyed mu) a

  abbrev with_result : ℕ → ℕ → R × S → Shared S M R → Shared S M R
  with_result i mu (r, s) a = goes_to i (stored mu r) (record a { server = s })

  -- `load` makes the metadata to upload from what the server has, `store` uploads it.
  module _ (key : ℕ → Bytes) (load : ℕ → S → M) (store : ℕ → M → S → R × S) where
    -- the step of a request
    unfoldable pub advance : ℕ → Pc M R → Shared S M R → Shared S M R
    advance i start a =
        if a.metadata_mu then a else goes_to i in_map (record a { metadata_mu = true })
    advance i in_map a = with_mutex i (mutex_for (key i) a.metadata_keys) a
    advance i missing a = goes_to i (keyed a.next_mutex) (record a {
      metadata_keys = (key i, a.next_mutex) ∷ a.metadata_keys;
      next_mutex = suc a.next_mutex;
    })
    advance i (keyed mu) a = goes_to i (waiting mu) (record a { metadata_mu = false })
    advance i (waiting mu) a =
        if a.key_mu mu
        then a
        else goes_to i (holding mu) (record a { key_mu = update a.key_mu mu true })
    advance i (holding mu) a = goes_to i (loaded mu (load i a.server)) a
    advance i (loaded mu m) a = with_result i mu (store i m a.server) a
    advance i (stored mu r) a = goes_to i (done r) (record a { key_mu = update a.key_mu mu false })
    advance i (done r) a = a

    -- The reachable states. Other uploads change the server, and leave the metadata as it is.
    pub data Reach (s : S) : Shared S M R → Type 0 where
      begin : Reach s (new_shared s)
      step : {a : Shared S M R} (i : ℕ) → Reach s a → Reach s (advance i (a.pc i) a)
      elsewhere :
          {a : Shared S M R} (change : S → S)
          → ((i : ℕ) (t : S) → load i (change t) ≡ load i t)
          → Reach s a
          → Reach s (record a { server = change a.server })
