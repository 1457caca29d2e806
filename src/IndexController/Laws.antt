-- ===== src/IndexController/Laws.antt =====
-- What the methods of meilisearch-http/src/index_controller/mod.rs do across the three actors.
use transplant.Base.{◌≡◌, sym, ap, ◌∙◌, true, Option, some, String, arith, inl, inr}
use transplant.Base.Outcome.{ok, err, Outcome-cases}
use transplant.Heed.Keys.{Text}
use transplant.Updates.{Uuid}
use transplant.UuidResolver as Names
use transplant.UuidResolver.{UuidError, unexisting_index}
use transplant.UpdateStore as Queue
use transplant.UpdateActor as Updating
use transplant.IndexActor as Indexing
use transplant.IndexActor.{IndexMeta}
use transplant.UuidResolver.Laws.{create-get}
use transplant.IndexActor.Laws.{create-get_meta}
use transplant.IndexController.{
  of_uuid, IndexMetadata, World, Call, Controller, get_uuid, create_index,
}
use transplant.IndexController.Queries.{get_index}

-- A call of a method with no call of an actor failing.
abbrev pub quiet : Call
quiet = record {
  resolving = Names.no_faults;
  inserting = Names.no_faults;
  updating = Updating.no_faults;
  storing = Queue.no_faults;
  indexing = Indexing.no_faults;
  new_v4 = 0;
  file_v4 = 0;
  now = 0;
}

module _ (world : World) where
  open world use {names, queue, uuids, json, path_of, engine}

  abbrev named : Text → IndexMeta → IndexMetadata
  named uid meta = record { uid = uid; name = uid; meta = meta }

  get_index-known :
      (s : Controller world) (uid : Text) (id : Uuid) (meta : IndexMeta)
      → s.resolver.running ≡ true
      → s.indexes.running ≡ true
      → (Names.handle_get names uuids Names.no_faults uid s.resolver.state).0 ≡ ok id
      → (Indexing.handle_get_meta engine Indexing.no_faults id s.indexes.state).0 ≡ ok meta
      → (get_index world quiet uid s).0 ≡ ok (named uid meta)
  unfolding get_index get_uuid
  get_index-known s uid id meta r i known has = ground arith

  get_index-missing :
      (c : Call) (s : Controller world) (uid : Text) {e : UuidError}
      → s.resolver.running ≡ true
      → (Names.handle_get names uuids c.resolving uid s.resolver.state).0 ≡ err e
      → (get_index world c uid s).0 ≡ err (of_uuid e)
  unfolding get_index get_uuid
  get_index-missing c s uid r missing = ground arith

  -- What a creation that returns did to the resolver and to the indexes.
  create_index-ok :
      (c : Call) (uid : Text) (key : Option String) (s : Controller world) {m : IndexMetadata}
      → (create_index world c (record { uid = some uid; primary_key = key }) s).0 ≡ ok m
      → let s' = (create_index world c (record { uid = some uid; primary_key = key }) s).1 in
        let names_after =
          (Names.handle_create names uuids c.resolving c.new_v4 uid s.resolver.state).1 in
        (id : Uuid) × (meta : IndexMeta) × (m ≡ named uid meta)
        × ((Names.handle_create names uuids c.resolving c.new_v4 uid s.resolver.state).0 ≡ ok id)
        × ((Indexing.handle_create_index engine c.indexing id key s.indexes.state).0 ≡ ok meta)
        × (s'.resolver ≡ record { running = true; state = names_after })
        × (s'.indexes ≡ record {
          running = true;
          state = (Indexing.handle_create_index engine c.indexing id key s.indexes.state).1;
        })
  unfolding create_index
  create_index-ok c uid key s h =
      elim (Outcome-cases
        (Names.handle_create names uuids c.resolving c.new_v4 uid s.resolver.state).0) [
          | inl (id, made) ↦
              elim (Outcome-cases
                (Indexing.handle_create_index engine c.indexing id key s.indexes.state).0) [
                  | inl (meta, has) ↦ (
                    id,
                    meta,
                    ground (arith, h, made, has),
                    made,
                    has,
                    ground (arith, h, made, has),
                    ground (arith, h, made, has),
                  )
                  | inr (inl (e, fails)) ↦ absurd (ground (arith, h, made, fails))
                  | inr (inr (p, fails)) ↦ absurd (ground (arith, h, made, fails))
                ]
          | inr (inl (e, fails)) ↦ absurd (ground (arith, h, fails))
          | inr (inr (p, fails)) ↦ absurd (ground (arith, h, fails))
        ]

  -- When the creation of an index returns, whatever else may have failed, the name was unknown, and
  -- asking for the index by its name afterwards, with no call failing, returns what the creation
  -- returned; the primary key is the one that was asked for, if one was.
  pub create_index-get_index :
      (c : Call) (uid : Text) (key : Option String) (s : Controller world) {m : IndexMetadata}
      → (create_index world c (record { uid = some uid; primary_key = key }) s).0 ≡ ok m
      → let s' = (create_index world c (record { uid = some uid; primary_key = key }) s).1 in
        ((Names.handle_get names uuids Names.no_faults uid s.resolver.state).0
          ≡ err (unexisting_index uid))
        × ((get_index world quiet uid s').0 ≡ ok m)
        × ((k : String) → key ≡ some k → m.meta.primary_key ≡ some k)
  create_index-get_index c uid key s h =
      let (id, meta, is_m, made, has, after_names, after_indexes) = create_index-ok c uid key s h in
      let s' = (create_index world c (record { uid = some uid; primary_key = key }) s).1 in
      let (valid, was_new, known, others) =
        create-get names uuids c.resolving c.new_v4 uid s.resolver.state made in
      let (was_free, keyed, readable) =
        create-get_meta engine c.indexing id key s.indexes.state has in
      (
        was_new,
        get_index-known s' uid id meta (ap (λ a. a.running) after_names)
              (ap (λ a. a.running) after_indexes)
              (ap (λ a. (Names.handle_get names uuids Names.no_faults uid a.state).0) after_names
                ∙ known)
              (ap (λ a. (Indexing.handle_get_meta engine Indexing.no_faults id a.state).0)
                  after_indexes
                ∙ readable)
            ∙ ap (λ x. ok x) (sym is_m),
        λ k e. ap (λ x. x.meta.primary_key) is_m ∙ keyed k e,
      )
