-- ===== src/Index/Engine.antt =====
-- The functions of one index as what the index actor is given, and what follows for the updates that
-- the actor runs, meilisearch-http/src/index and index_controller/update_handler.rs.
use transplant.Base.{ℕ, ◌≡◌, refl, true, Option, some, String, ◌⊎◌, inl, inr, arith}
use transplant.Base.Outcome.{ok}
use transplant.Updates.{
  Uuid, DateTime, Processing, Failed, processing_meta, processing_id, processing_index_uuid,
}
use transplant.Index as One
use transplant.Index.{Milli}
use transplant.Index.Json.{Document}
use transplant.Index.Highlight.{Analyzer}
use transplant.Index.Search as Searching
use transplant.Index.Updates as Changing
use transplant.Index.Updates.{Updating}
use transplant.Index.Updates.Laws.{
  IsAtomic, update_documents-IsAtomic, clear_documents-IsAtomic, update_settings-IsAtomic,
  update_facets-IsAtomic, delete_documents-IsAtomic,
}
use transplant.IndexActor as Indexing
use transplant.IndexActor.{
  UpdateMeta, documents_addition, clear_documents, delete_documents, settings_update, facets_update,
  run_update,
}

-- What the index actor itself calls of `milli`: the creation of an index, and its metadata.
pub record Metadata (Index : Type 0) : Type 0 where
  pub new_index : Index
  pub created_at : Index → DateTime
  pub updated_at : Index → DateTime
  pub primary_key : Index → Option String
  pub put_primary_key : Index → String → Index
  pub primary_key-put : (i : Index) (k : String) → primary_key (put_primary_key i k) ≡ some k

module _ (milli : Milli) (updating : Updating milli) (searching : Searching.Engine milli)
    (analyzer : Analyzer) (metadata : Metadata milli.Index)
    (update_builder : ℕ → updating.UpdateBuilder) (elapsed : ℕ) where
  -- `update_builder` is the method of `UpdateHandler`, of the update's id.
  abbrev pub engine : Indexing.Engine
  engine = record {
    Index = milli.Index;
    Method = updating.Method;
    Format = updating.Format;
    Settings = One.Settings;
    Facets = Changing.Facets;
    UpdateResult = Changing.UpdateResult updating.Addition;
    Content = updating.Content;
    Query = Searching.SearchQuery;
    SearchResult = Searching.SearchResult searching.Distribution;
    Document = Document;
    new_index = metadata.new_index;
    created_at = metadata.created_at;
    updated_at = metadata.updated_at;
    primary_key = metadata.primary_key;
    put_primary_key = metadata.put_primary_key;
    primary_key-put = metadata.primary_key-put;
    update_documents = λ id index format method content key.
        Changing.update_documents milli updating format method content (update_builder id) key
          index;
    clear = λ id. Changing.clear_documents milli updating (update_builder id);
    delete = λ id index content.
        Changing.delete_documents milli updating content (update_builder id) index;
    update_settings = λ id index changes.
        Changing.update_settings milli updating changes (update_builder id) index;
    update_facets =
        λ id index levels. Changing.update_facets milli updating levels (update_builder id) index;
    perform_search = Searching.perform_search milli searching analyzer elapsed;
    settings = One.settings milli;
    retrieve_documents = One.retrieve_documents milli;
    retrieve_document = One.retrieve_document milli;
  }

  run_update-IsAtomic :
      (meta : Processing (Indexing.Meta engine)) (content : updating.Content)
      → IsAtomic milli updating (run_update engine meta content)
  unfolding run_update
  run_update-IsAtomic meta content index = by_kind (processing_meta meta) refl
    where
      by_kind :
          (kind : Indexing.Meta engine)
          → processing_meta meta ≡ kind
          → ((a : Changing.UpdateResult updating.Addition) × ((run_update engine meta content
                  index).0
                ≡ ok a))
            ⊎ ((run_update engine meta content index).1 ≡ index)
      by_kind (documents_addition method format key) e = rw e (
          update_documents-IsAtomic milli updating format method content
            (update_builder (processing_id meta)) key index)
      by_kind clear_documents e =
          rw e (clear_documents-IsAtomic milli updating (update_builder (processing_id meta)) index)
      by_kind delete_documents e = rw e (
          delete_documents-IsAtomic milli updating content (update_builder (processing_id meta))
            index)
      by_kind (settings_update changes) e = rw e (
          update_settings-IsAtomic milli updating changes (update_builder (processing_id meta))
            index)
      by_kind (facets_update levels) e =
          rw e (
            update_facets-IsAtomic milli updating levels (update_builder (processing_id meta))
              index)

  -- When the index actor answers that an update of an existing index has failed, whatever the kind
  -- of the update, every index is as it was.
  pub failed-atomic :
      (fault : Indexing.Faults) (now : DateTime) (meta : Processing (Indexing.Meta engine))
      (content : updating.Content) (s : Indexing.State engine)
      {f : Failed (Indexing.Meta engine) String}
      → s.dir_exists (processing_index_uuid meta) ≡ true
      → (Indexing.handle_update engine fault now meta content s).0 ≡ ok (inr f)
      → (id : Uuid)
      → (Indexing.handle_update engine fault now meta content s).1.index id ≡ s.index id
  unfolding Indexing.handle_update Indexing.get Indexing.open_index
  failed-atomic fault now meta content s there h id =
      let own = s.index (processing_index_uuid meta) in
      elim (run_update-IsAtomic meta content own) [
        | inl (a, e) ↦ absurd (ground (arith, h, there, e))
        | inr e ↦ ground (arith, h, there, e)
      ]
