-- ===== src/IndexActor/Laws.antt =====
-- What the handlers of meilisearch-http/src/index_controller/index_actor.rs and the update handler
-- beside it return.
use transplant.Base.{
  ◌≡◌, ◌≢◌, refl, sym, ap, ◌∙◌, true, false, Option, none, some, arith, ◌⊎◌, String,
}
use transplant.Base.Outcome.{Outcome, ok, err, panicked}
use transplant.Base.Exec.{Exec, ◌>>◌, attempt, bind-ok}
use transplant.Updates.{
  Uuid, DateTime, Processing, Processed, Failed, processing_id, processing_index_uuid,
}
use transplant.UpdateStore.Preserve.{result_id}
use transplant.IndexActor.{
  Engine, State, Faults, no_faults, IndexMeta, IndexError, unexisting_index, create, get,
  delete_index, open_index, set_primary_key, handle_create_index, handle_get_meta,
  handle_update_index, handle_delete, handle_update, run_update, conclude, Meta, new_meta,
  join_meta,
}

module _ (engine : Engine) where
  open engine use {primary_key, put_primary_key, Content}

  -- What the index's metadata are when they can be read.
  abbrev meta_of : engine.Index → IndexMeta
  meta_of i = record {
    created_at = engine.created_at i;
    updated_at = engine.updated_at i;
    primary_key = primary_key i;
  }

  create-ok :
      (fault : Faults) (id : Uuid) (key : Option String) (s : State engine) {i : Uuid}
      → (create engine fault id key s).0 ≡ ok i
      → let s' = (create engine fault id key s).1 in
        (s.dir_exists id ≡ false)
        × (i ≡ id)
        × (s'.loaded id ≡ true)
        × ((k : String) → key ≡ some k → primary_key (s'.index id) ≡ some k)
  unfolding create open_index set_primary_key
  create-ok fault id none s h = (ground arith, ground arith, ground arith, λ k e. cc e)
  create-ok fault id (some k) s h = (
    ground arith,
    ground arith,
    ground arith,
    λ k' e. ground (arith, e, engine.primary_key-put engine.new_index k),
  )

  meta-ok :
      (fault : Faults) (i : Uuid) (s : State engine) {meta : IndexMeta}
      → ((attempt (fault join_meta) >> new_meta engine fault i) s).0 ≡ ok meta
      → (meta ≡ meta_of (s.index i))
        × (((attempt (fault join_meta) >> new_meta engine fault i) s).1 ≡ s)
  meta-ok fault i s h = ground arith

  get_meta-loaded :
      (id : Uuid) (s : State engine)
      → s.loaded id ≡ true
      → (handle_get_meta engine no_faults id s).0 ≡ ok (meta_of (s.index id))
  unfolding handle_get_meta get
  get_meta-loaded id s h = rw h refl

  -- When the creation of an index returns metadata, the index had no directory, its primary key
  -- is the one that was asked for, if one was, and asking for its metadata afterwards, when no
  -- call fails, returns the same.
  pub create-get_meta :
      (fault : Faults) (id : Uuid) (key : Option String) (s : State engine) {meta : IndexMeta}
      → (handle_create_index engine fault id key s).0 ≡ ok meta
      → let s' = (handle_create_index engine fault id key s).1 in
        (s.dir_exists id ≡ false)
        × ((k : String) → key ≡ some k → meta.primary_key ≡ some k)
        × ((handle_get_meta engine no_faults id s').0 ≡ ok meta)
  unfolding handle_create_index
  create-get_meta fault id key s {meta} h =
      let rest : Uuid → Exec (State engine) IndexError IndexMeta =
        λ i. attempt (fault join_meta) >> new_meta engine fault i in
      let (i, made, same) = bind-ok (create engine fault id key) rest s h in
      let (new, is_id, loaded, keyed) = create-ok fault id key s made in
      let s₁ = (create engine fault id key s).1 in
      let finished : (rest i s₁).0 ≡ ok meta = ground (arith, same, h) in
      let (is_meta, kept) = meta-ok fault i s₁ finished in
      let last : (handle_create_index engine fault id key s).1 ≡ s₁ = ap (λ r. r.1) same ∙ kept in
      let own : meta ≡ meta_of (s₁.index id) = is_meta ∙ ap (λ j. meta_of (s₁.index j)) is_id in
      (
        new,
        λ k e. ap (λ m. m.primary_key) own ∙ keyed k e,
        ap (λ x. (handle_get_meta engine no_faults id x).0) last
            ∙ get_meta-loaded id s₁ loaded
            ∙ ap (λ m. ok m) (sym own),
      )

  -- On an index with a directory and a primary key, asking for a primary key never returns
  -- metadata, and leaves every index as it was.
  pub update_index-keeps_key :
      (fault : Faults) (id : Uuid) (k k' : String) (s : State engine)
      → primary_key (s.index id) ≡ some k
      → s.dir_exists id ≡ true
      → ((m : IndexMeta) → (handle_update_index engine fault id (some k') s).0 ≢ ok m)
        × ((j : Uuid) → (handle_update_index engine fault id (some k') s).1.index j ≡ s.index j)
  unfolding handle_update_index get open_index
  update_index-keeps_key fault id k k' s has there = (λ m h. ground arith, λ j. ground arith)

  -- When asking for a primary key returns metadata, the metadata and the index have that primary
  -- key.
  pub update_index-sets_key :
      (fault : Faults) (id : Uuid) (k : String) (s : State engine) {meta : IndexMeta}
      → (handle_update_index engine fault id (some k) s).0 ≡ ok meta
      → (meta.primary_key ≡ some k)
        × (primary_key ((handle_update_index engine fault id (some k) s).1.index id) ≡ some k)
  unfolding handle_update_index get open_index
  update_index-sets_key fault id k s h = (
    ground (arith, engine.primary_key-put (s.index id) k),
    ground (arith, engine.primary_key-put (s.index id) k),
  )

  -- When the deletion of an index returns, asking for its metadata answers that it does not
  -- exist, whatever fails then.
  pub handle_delete-get_meta :
      (fault fault' : Faults) (id : Uuid) (s : State engine)
      → (handle_delete engine fault id s).0 ≡ ok tt
      → (handle_get_meta engine fault' id (handle_delete engine fault id s).1).0
        ≡ err unexisting_index
  unfolding handle_delete handle_get_meta delete_index get
  handle_delete-get_meta fault fault' id s h = ground arith

  conclude-id :
      (meta : Processing (Meta engine)) (now : DateTime) (r : Outcome String engine.UpdateResult)
      {q : Processed (Meta engine) engine.UpdateResult ⊎ Failed (Meta engine) String}
      → conclude engine meta now r ≡ ok q
      → result_id q ≡ processing_id meta
  conclude-id meta now (ok x) h = ground (arith, h)
  conclude-id meta now (err x) h = ground (arith, h)
  conclude-id meta now (panicked x) h = cc

  -- When an update is handled, its result, processed or failed, bears the id of the update.
  pub handle_update-id :
      (fault : Faults) (now : DateTime) (meta : Processing (Meta engine)) (content : Content)
      (s : State engine)
      {q : Processed (Meta engine) engine.UpdateResult ⊎ Failed (Meta engine) String}
      → (handle_update engine fault now meta content s).0 ≡ ok q
      → result_id q ≡ processing_id meta
  unfolding handle_update get create open_index set_primary_key
  handle_update-id fault now meta content s h =
      let at = processing_index_uuid meta in
      ground (
        arith,
        conclude-id meta now (run_update engine meta content (s.index at)).0,
        conclude-id meta now (run_update engine meta content engine.new_index).0,
      )
