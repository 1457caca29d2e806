-- ===== src/Index/Updates/Laws.antt =====
-- An update of an index happens as a whole or not at all, meilisearch-http/src/index/updates.rs.
use transplant.Base.{◌≡◌, Option, String, ◌⊎◌, inl, inr, arith}
use transplant.Base.Outcome.{ok, Outcome-cases}
use transplant.Base.Exec.{Exec}
use transplant.Index.{Milli, Settings}
use transplant.Index.Updates.{
  Updating, Facets, in_write_txn, update_documents, clear_documents, update_settings, update_facets,
  delete_documents,
}

module _ (milli : Milli) (updating : Updating milli) where
  open milli use {Index, Txn}

  -- The update returned a result, or the index is as it was.
  abbrev pub IsAtomic : {A : Type 0} → Exec Index String A → Type 0
  IsAtomic {A} update =
      (index : Index) → ((a : A) × ((update index).0 ≡ ok a)) ⊎ ((update index).1 ≡ index)

  in_write_txn-IsAtomic :
      {A : Type 0} (body : Exec Txn String A) → IsAtomic (in_write_txn milli updating body)
  in_write_txn-IsAtomic body index =
      elim (Outcome-cases (in_write_txn milli updating body index).0) [
        | inl returned ↦ inl returned
        | inr (inl (e, h)) ↦ inr (ground (arith, h))
        | inr (inr (m, h)) ↦ inr (ground (arith, h))
      ]

  pub update_documents-IsAtomic :
      (format : updating.Format) (method : updating.Method) (content : updating.Content)
      (builder : updating.UpdateBuilder) (key : Option String)
      → IsAtomic (update_documents milli updating format method content builder key)
  unfolding update_documents
  update_documents-IsAtomic format method content builder key = in_write_txn-IsAtomic _

  pub clear_documents-IsAtomic :
      (builder : updating.UpdateBuilder) → IsAtomic (clear_documents milli updating builder)
  unfolding clear_documents
  clear_documents-IsAtomic builder = in_write_txn-IsAtomic _

  pub update_settings-IsAtomic :
      (changes : Settings) (builder : updating.UpdateBuilder)
      → IsAtomic (update_settings milli updating changes builder)
  unfolding update_settings
  update_settings-IsAtomic changes builder = in_write_txn-IsAtomic _

  pub update_facets-IsAtomic :
      (levels : Facets) (builder : updating.UpdateBuilder)
      → IsAtomic (update_facets milli updating levels builder)
  unfolding update_facets
  update_facets-IsAtomic levels builder = in_write_txn-IsAtomic _

  pub delete_documents-IsAtomic :
      (content : updating.Content) (builder : updating.UpdateBuilder)
      → IsAtomic (delete_documents milli updating content builder)
  unfolding delete_documents
  delete_documents-IsAtomic content builder index =
      elim (Outcome-cases (updating.from_reader content)) [
        | inl (ids, e) ↦ rw e (in_write_txn-IsAtomic _ index)
        | inr (inl (x, e)) ↦ inr (ground (arith, e))
        | inr (inr (m, e)) ↦ inr (ground (arith, e))
      ]
