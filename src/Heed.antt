-- ===== src/Heed.antt =====
-- The interface of the embedded key-value store (the `heed` crate over LMDB), which is no code of
-- this repository: its types and calls are the fields of a record, and its documented behaviour
-- is the record's laws. A database is ordered by its keys; the keys are big-endian numbers in
-- meilisearch-http/src/index_controller/update_store.rs and texts in uuid_resolver.rs.
pub mod Listing
pub mod Laws
pub mod Keys
pub mod Sorted
use transplant.Base.{
  ℕ, ◌≡◌, ◌↔◌, Bool, true, false, Option, none, some, List, [], ◌∷◌, head?, last?, if◌then◌else◌,
}

-- A type of keys: its equality and its strict total order.
pub record Key (K : Type 0) : Type 0 where
  pub same : K → K → Bool
  pub before : K → K → Bool
  pub same_iff : (a b : K) → (same a b ≡ true) ↔ (a ≡ b)
  pub before_irrefl : (a : K) → before a a ≡ false
  pub before_trans : (a b c : K) → before a b ≡ true → before b c ≡ true → before a c ≡ true
  pub before_total : (a b : K) → same a b ≡ false → before a b ≡ false → before b a ≡ true

module _ {K : Type 0} (key : Key K) where
  abbrev pub lookup : {V : Type 0} → K → List (K × V) → Option V
  lookup k [] = none
  lookup k ((j, v) ∷ l) = if key.same j k then some v else lookup k l

  -- Every key of the list comes after `k`.
  abbrev pub Above : {V : Type 0} → K → List (K × V) → Type 0
  Above k [] = Unit
  Above k ((j, v) ∷ l) = (key.before k j ≡ true) × Above k l

  abbrev pub Ascending : {V : Type 0} → List (K × V) → Type 0
  Ascending [] = Unit
  Ascending ((k, v) ∷ l) = Above k l × Ascending l

-- `get`, `put`, `delete`, `iter`, `first` and `last` of `heed::Database`, on the contents that a
-- transaction sees. The failures of the calls are not here: they are the callers' argument.
pub record Heed {K : Type 0} (key : Key K) : Type 1 where
  pub Database : Type 0 → Type 0
  pub empty : (V : Type 0) → Database V
  pub get : {V : Type 0} → Database V → K → Option V
  pub put : {V : Type 0} → Database V → K → V → Database V
  pub delete : {V : Type 0} → Database V → K → Database V
  pub iter : {V : Type 0} → Database V → List (K × V)
  pub first : {V : Type 0} → Database V → Option (K × V)
  pub last : {V : Type 0} → Database V → Option (K × V)
  pub get-empty : (V : Type 0) (k : K) → get (empty V) k ≡ none
  pub get-put :
      {V : Type 0} (d : Database V) (k j : K) (v : V)
      → get (put d k v) j ≡ (if key.same k j then some v else get d j)
  pub get-delete :
      {V : Type 0} (d : Database V) (k j : K)
      → get (delete d k) j ≡ (if key.same k j then none else get d j)
  pub iter-Ascending : {V : Type 0} (d : Database V) → Ascending key (iter d)
  pub get-iter : {V : Type 0} (d : Database V) (k : K) → get d k ≡ lookup key k (iter d)
  pub first-iter : {V : Type 0} (d : Database V) → first d ≡ head? (iter d)
  pub last-iter : {V : Type 0} (d : Database V) → last d ≡ last? (iter d)
