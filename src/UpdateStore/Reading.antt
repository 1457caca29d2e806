-- ===== src/UpdateStore/Reading.antt =====
-- What the status of an update depends on, `meta` of
-- meilisearch-http/src/index_controller/update_store.rs.
use transplant.Base.{ℕ, ◌≡◌, sym, ap, ◌∙◌, none, arith}
use transplant.Heed.{Heed}
use transplant.Heed.Keys.{nat_key}
use transplant.UpdateStore.{Store, Tables, begin, no_faults}
use transplant.UpdateStore.Read.{meta, stored_meta}

module _ (heed : Heed nat_key) {M N E : Type 0} where
  stored_meta-env :
      (t : Tables heed M N E) (n : ℕ) (s s' : Store heed M N E)
      → (stored_meta heed no_faults t n s).0 ≡ (stored_meta heed no_faults t n s').0
  unfolding stored_meta
  stored_meta-env t n s s' = ground arith

  meta-idle :
      (n : ℕ) (s : Store heed M N E)
      → s.processing ≡ none
      → (meta heed no_faults n s).0 ≡ (stored_meta heed no_faults s.env n s).0
  unfolding meta begin
  meta-idle n s p = ground (arith, p)

  -- The status that is read of a store where nothing is being processed is that of its tables.
  pub meta-env :
      (n : ℕ) (s s' : Store heed M N E)
      → s.env ≡ s'.env
      → s.processing ≡ none
      → s'.processing ≡ none
      → (meta heed no_faults n s).0 ≡ (meta heed no_faults n s').0
  meta-env n s s' e p q =
      meta-idle n s p
      ∙ (ap (λ t. (stored_meta heed no_faults t n s).0) e
          ∙ (stored_meta-env s'.env n s s' ∙ sym (meta-idle n s' q)))
