-- ===== src/Index/Updates.antt =====
-- The updates of one index, meilisearch-http/src/index/updates.rs. Each runs in a write transaction,
-- whose changes are lost unless it is committed.
pub mod Laws
use transplant.Base.{ℕ, Bool, true, false, Option, none, some, List, [], ◌∷◌, String}
use transplant.Base.Outcome.{Outcome, ok, err, panicked, map_err}
use transplant.Base.Exec.{Exec, ◌>>=◌, ◌>>◌, pure, lift, gets, modify}
use transplant.Index.{Milli, Settings}

pub data UpdateResult (Addition : Type 0) : Type 0 where
  documents_addition : Addition → UpdateResult Addition
  document_deletion : ℕ → UpdateResult Addition
  other : UpdateResult Addition

pub record Facets : Type 0 where
  pub level_group_size : Option ℕ
  pub min_level_size : Option ℕ

-- What updates.rs calls of `milli::update`: the builder of an update is configured and then executed
-- on the transaction. `from_reader` is the JSON crate's reading of a list of ids.
pub record Updating (milli : Milli) : Type 1 where
  pub Content : Type 0
  pub Format : Type 0
  pub Method : Type 0
  pub Addition : Type 0
  pub UpdateBuilder : Type 0
  pub IndexDocuments : Type 0
  pub SettingsBuilder : Type 0
  pub FacetsBuilder : Type 0
  pub DeleteDocuments : Type 0
  pub write_txn : milli.Index → Outcome String milli.Txn
  pub commit : milli.Index → milli.Txn → Outcome String milli.Index
  pub primary_key : milli.Txn → Outcome String (Option String)
  pub put_primary_key : String → Exec milli.Txn String (Unit {0})
  pub index_documents : UpdateBuilder → milli.Txn → IndexDocuments
  pub update_format : Format → IndexDocuments → IndexDocuments
  pub index_documents_method : Method → IndexDocuments → IndexDocuments
  pub execute_index : IndexDocuments → Content → Exec milli.Txn String Addition
  pub execute_clear : UpdateBuilder → Exec milli.Txn String ℕ
  pub settings : UpdateBuilder → milli.Txn → SettingsBuilder
  pub set_searchable_fields : List String → SettingsBuilder → SettingsBuilder
  pub reset_searchable_fields : SettingsBuilder → SettingsBuilder
  pub set_displayed_fields : List String → SettingsBuilder → SettingsBuilder
  pub reset_displayed_fields : SettingsBuilder → SettingsBuilder
  pub set_faceted_fields : List (String × String) → SettingsBuilder → SettingsBuilder
  pub set_criteria : List String → SettingsBuilder → SettingsBuilder
  pub reset_criteria : SettingsBuilder → SettingsBuilder
  pub execute_settings : SettingsBuilder → Exec milli.Txn String (Unit {0})
  pub facets : UpdateBuilder → milli.Txn → FacetsBuilder
  pub level_group_size : ℕ → FacetsBuilder → FacetsBuilder
  pub min_level_size : ℕ → FacetsBuilder → FacetsBuilder
  pub execute_facets : FacetsBuilder → Exec milli.Txn String (Unit {0})
  pub delete_documents : UpdateBuilder → milli.Txn → Outcome String DeleteDocuments
  pub delete_external_id : String → DeleteDocuments → DeleteDocuments
  pub execute_delete : DeleteDocuments → Exec milli.Txn String ℕ
  pub from_reader : Content → Outcome String (List String)

-- A setting that is given is set or reset; one that is not is left alone.
abbrev pub transpose : {A B : Type 0} → (A → B → B) → (B → B) → Option (Option A) → B → B
transpose change reset none b = b
transpose change reset (some none) b = reset b
transpose change reset (some (some a)) b = change a b

abbrev pub given : {A B : Type 0} → (A → B → B) → Option A → B → B
given change none b = b
given change (some a) b = change a b

module _ (milli : Milli) (updating : Updating milli) where
  open milli use {Index, Txn}
  open updating use {
    Content, Format, Method, Addition, UpdateBuilder, IndexDocuments, SettingsBuilder,
    FacetsBuilder, DeleteDocuments,
  }

  -- The body runs on the transaction, which is then committed; an error drops it.
  abbrev pub in_write_txn : {A : Type 0} → Exec Txn String A → Exec Index String A
  in_write_txn body index = elim (updating.write_txn index) [
    | err e ↦ (err e, index)
    | panicked m ↦ (panicked m, index)
    | ok wtxn ↦
        let (r, wtxn') = body wtxn in
        elim r [
          | err e ↦ (err e, index)
          | panicked m ↦ (panicked m, index)
          | ok a ↦ elim (updating.commit index wtxn') [
            | err e ↦ (err e, index)
            | panicked m ↦ (panicked m, index)
            | ok index' ↦ (ok a, index')
          ]
        ]
  ]

  -- The primary key is set if it is not set already.
  abbrev pub own_key : Option String → Option String → Exec Txn String (Unit {0})
  own_key none (some key) = updating.put_primary_key key
  own_key none none = pure tt
  own_key (some k) key = pure tt

  unfoldable pub update_documents :
      Format
      → Method
      → Content
      → UpdateBuilder
      → Option String
      → Exec Index String (UpdateResult Addition)
  update_documents format method content update_builder key = in_write_txn (do
    wtxn ← gets (λ t. t)
    found ← lift (updating.primary_key wtxn)
    own_key found key
    keyed ← gets (λ t. t)
    let builder =
        updating.index_documents_method method
          (updating.update_format format (updating.index_documents update_builder keyed))
    addition_result ← updating.execute_index builder content
    pure (documents_addition addition_result))

  unfoldable pub clear_documents : UpdateBuilder → Exec Index String (UpdateResult Addition)
  clear_documents update_builder =
      in_write_txn (do updating.execute_clear update_builder; pure other)

  -- The settings JSON as the changes of a builder.
  unfoldable pub configure : Settings → SettingsBuilder → SettingsBuilder
  configure changes builder =
      let searchable =
        transpose updating.set_searchable_fields updating.reset_searchable_fields
          changes.searchable_attributes builder in
      let displayed =
        transpose updating.set_displayed_fields updating.reset_displayed_fields
          changes.displayed_attributes searchable in
      let faceted =
        transpose updating.set_faceted_fields (updating.set_faceted_fields [])
          changes.attributes_for_faceting displayed in
      transpose updating.set_criteria updating.reset_criteria changes.ranking_rules faceted

  unfoldable pub update_settings :
      Settings → UpdateBuilder → Exec Index String (UpdateResult Addition)
  update_settings changes update_builder = in_write_txn (do
    wtxn ← gets (λ t. t)
    updating.execute_settings (configure changes (updating.settings update_builder wtxn))
    pure other)

  unfoldable pub update_facets : Facets → UpdateBuilder → Exec Index String (UpdateResult Addition)
  update_facets levels update_builder = in_write_txn (do
    wtxn ← gets (λ t. t)
    let builder = updating.facets update_builder wtxn
    let grouped = given updating.level_group_size levels.level_group_size builder
    updating.execute_facets (given updating.min_level_size levels.min_level_size grouped)
    pure other)

  abbrev delete_external_ids : List String → DeleteDocuments → DeleteDocuments
  delete_external_ids [] builder = builder
  delete_external_ids (id ∷ ids) builder =
      delete_external_ids ids (updating.delete_external_id id builder)

  unfoldable pub delete_documents :
      Content → UpdateBuilder → Exec Index String (UpdateResult Addition)
  delete_documents document_ids update_builder = do
    ids ← lift (updating.from_reader document_ids)
    in_write_txn (do
      txn ← gets (λ t. t)
      builder ← lift (updating.delete_documents update_builder txn)
      deleted ← updating.execute_delete (delete_external_ids ids builder)
      pure (document_deletion deleted))
