-- ===== src/IndexController/Tests.antt =====
-- Concrete calls of the methods of meilisearch-http/src/index_controller/mod.rs, with an engine whose
-- index is its primary key. The name "ab" stands for the uuid 5, and no other name is known.
use transplant.Base.{
  ℕ, ◌≡◌, ◌≢◌, arith, refl, true, false, Option, none, some, List, [], ◌∷◌, String, ◌==◌,
}
use transplant.Base.Outcome.{Outcome, ok, err}
use transplant.Heed.Keys.{Text, text_key, nat_key}
use transplant.Heed.Sorted.{sorted_heed}
use transplant.Updates.{Uuid, pending, new_pending}
use transplant.UpdateStore as Queue
use transplant.UuidResolver as Names
use transplant.UuidResolver.{UuidBytes, Bytes, unexisting_index, badly_formatted}
use transplant.UpdateActor as Updating
use transplant.UpdateActor.{opened, empty_tables, bytes, Chunk}
use transplant.UpdateActor.RoundTrip.{IsReady, opened-IsConsistent, empty-WellFormed, empty-HasRoom}
use transplant.IndexActor as Indexing
use transplant.IndexActor.{Engine, IndexMeta, Meta, documents_addition}
use transplant.IndexController.{
  World, Call, Controller, Status, IndexMetadata, of_uuid, create_index, delete_index,
  add_documents, clear_documents_of, delete_documents_of, update_settings, register_new,
  queue_update, insert_name,
}
use transplant.IndexController.Queries.{
  get_index, update_status, all_update_status, settings, documents, document, search, update_index,
}
use transplant.IndexController.Laws.{quiet, create_index-get_index}
use transplant.IndexController.Deletion.{IsRefused, delete_index-gone, unknown-IsRefused}
use transplant.IndexController.Documents.{add_documents-update_status, add_documents-orphan}

abbrev from_slice : Bytes → Outcome String Uuid
from_slice (u ∷ []) = ok u
from_slice _ = err "invalid bytes length"

abbrev pub engine : Engine
engine = record {
  Index = Option String;
  Method = Unit {0};
  Format = Unit {0};
  Settings = Unit {0};
  Facets = Unit {0};
  UpdateResult = ℕ;
  Content = List ℕ;
  Query = Unit {0};
  SearchResult = ℕ;
  Document = ℕ;
  new_index = none;
  created_at = λ i. 0;
  updated_at = λ i. 0;
  primary_key = λ i. i;
  put_primary_key = λ i k. some k;
  primary_key-put = λ i k. refl;
  update_documents = λ id i f m c k. (ok 1, i);
  clear = λ id i. (ok 2, i);
  delete = λ id i c. (ok 3, i);
  update_settings = λ id i s. (ok 4, i);
  update_facets = λ id i f. (ok 5, i);
  perform_search = λ i q. ok 0;
  settings = λ i. ok tt;
  retrieve_documents = λ i o l a. ok [];
  retrieve_document = λ i d a. ok 0;
}

abbrev pub world : World
world = record {
  names = sorted_heed text_key;
  queue = sorted_heed nat_key;
  uuids = record {
    as_bytes = λ u. u ∷ [];
    from_slice = from_slice;
    from_slice-as_bytes = λ u. refl;
  };
  json = record { is_accepted = λ c. true; serde_error = λ c. none };
  path_of = λ u. "update_file";
  engine = engine;
  ids_to_vec = λ ids. [];
}

abbrev ab : Text
ab = 97 ∷ 98 ∷ []

abbrev cd : Text
cd = 99 ∷ 100 ∷ []

abbrev blank : Text
blank = 32 ∷ []

-- The index 5 is there, with its store; the others have a store but no directory of an index.
abbrev pub start : Controller world
start = record {
  resolver = record {
    running = true;
    state = world.names.put (world.names.empty Bytes) ab (5 ∷ []);
  };
  updates = record {
    running = true;
    state = record {
      loaded = λ u. true;
      dir_exists = λ u. true;
      store = λ u.
          opened world.queue world.json world.path_of
            (empty_tables world.queue world.json world.path_of);
      files = λ path. none;
    };
  };
  indexes = record {
    running = true;
    state = record { loaded = λ u. u == 5; dir_exists = λ u. u == 5; index = λ u. some "id" };
  };
}

abbrev call : Call
call = record quiet { new_v4 = 9 }

abbrev made : IndexMetadata
made = record {
  uid = cd;
  name = cd;
  meta = record { created_at = 0; updated_at = 0; primary_key = some "id" };
}

create_index-get_index_example :
    let s' =
      (create_index world call (record { uid = some cd; primary_key = some "id" }) start).1 in
    ((Names.handle_get world.names world.uuids Names.no_faults cd start.resolver.state).0
      ≡ err (unexisting_index cd))
    × ((get_index world quiet cd s').0 ≡ ok made)
    × ((k : String) → some "id" ≡ some k → some "id" ≡ some k)
unfolding create_index Names.handle_create Names.create_uuid Names.is_index_uid_valid
    Indexing.handle_create_index Indexing.create Indexing.open_index Indexing.set_primary_key
    Updating.handle_create Updating.get_or_create
create_index-get_index_example =
    create_index-get_index world call cd (some "id") start {m = made} refl

delete_index-gone_example :
    let s' = (delete_index world call ab start).1 in
    (id : Uuid) × ((Names.handle_get world.names world.uuids Names.no_faults ab
        start.resolver.state).0
      ≡ ok id)
    × ((Names.handle_get world.names world.uuids Names.no_faults ab s'.resolver.state).0
        ≡ err (unexisting_index ab))
    × ((fault : Updating.Faults) (stored : Queue.Faults) (k : ℕ)
        → (Updating.handle_get_update world.queue world.json world.path_of fault stored id k
            s'.updates.state).0
          ≡ err (Updating.unexisting_index id))
    × ((fault : Indexing.Faults)
        → (Indexing.handle_get_meta engine fault id s'.indexes.state).0
          ≡ err Indexing.unexisting_index)
unfolding delete_index Names.handle_delete Names.delete_uuid Updating.handle_delete
    Updating.delete_store Indexing.handle_delete Indexing.delete_index
delete_index-gone_example = delete_index-gone world call ab start refl

unknown-IsRefused_example :
    IsRefused world cd (clear_documents_of world call cd) start
    × ((ids : List String) → IsRefused world cd (delete_documents_of world call cd ids) start)
    × ((changed : Unit {0})
        → IsRefused world cd (update_settings world call cd changed false) start)
    × ((k : ℕ) → IsRefused world cd (update_status world call cd k) start)
    × IsRefused world cd (all_update_status world call cd) start
    × IsRefused world cd (settings world call cd) start
    × ((offset limit : ℕ) (attributes : Option (List String))
        → IsRefused world cd (documents world call cd offset limit attributes) start)
    × ((id : String) (attributes : Option (List String))
        → IsRefused world cd (document world call cd id attributes) start)
    × ((key : Option String)
        → IsRefused world cd
            (update_index world call cd (record { uid = none; primary_key = key }))
            start)
    × ((query : Unit {0}) → IsRefused world cd (search world call cd query) start)
    × IsRefused world cd (get_index world call cd) start
unfolding Names.handle_get Names.get_uuid
unknown-IsRefused_example = unknown-IsRefused world call cd start refl refl

abbrev payload : List Chunk
payload = bytes (91 ∷ 93 ∷ []) ∷ []

pub start-IsReady : (id : Uuid) → IsReady world.queue (start.updates.state.store id)
start-IsReady id = (
  opened-IsConsistent world.queue world.json world.path_of
      (empty_tables world.queue world.json world.path_of)
      (empty-WellFormed world.queue world.json world.path_of),
  empty-HasRoom world.queue {E = String} (empty_tables world.queue world.json world.path_of) refl
      refl refl,
)

abbrev added : Uuid → Status world
added id = pending (new_pending (documents_addition tt tt none) 0 id 0)

add_documents-update_status_example :
    let s' = (add_documents world call cd tt tt payload none start).1 in
    (id : Uuid) × (k : ℕ) × ((Names.handle_get world.names world.uuids Names.no_faults cd
        s'.resolver.state).0
      ≡ ok id)
    × (added 9 ≡ pending (new_pending (documents_addition tt tt none) k id 0))
    × ((update_status world quiet cd k s').0 ≡ ok (added 9))
unfolding add_documents register_new queue_update insert_name Names.handle_get Names.get_uuid
    Names.handle_insert Names.insert_uuid Names.is_index_uid_valid Updating.handle_update
    Updating.get_or_create Updating.receive_payload Updating.write_payload Updating.check_payload
    Queue.register_update Queue.new_update_id
add_documents-update_status_example =
    add_documents-update_status world call cd tt tt payload none start {status = added 9} refl
      (λ k name e. cc e) start-IsReady

-- The name `ab` stands for 5, and no other name for anything.
start-unnamed :
    (name : Text)
    → (Names.handle_get world.names world.uuids Names.no_faults name start.resolver.state).0 ≢ ok 9
unfolding Names.handle_get Names.get_uuid
start-unnamed name e = ground (
  arith,
  e,
  world.names.get-put (world.names.empty Bytes) ab name (5 ∷ []),
  world.names.get-empty Bytes name,
)

add_documents-orphan_example :
    let s' = (add_documents world call blank tt tt payload none start).1 in
    ((add_documents world call blank tt tt payload none start).0
      ≡ err (of_uuid (badly_formatted blank)))
    × (s'.resolver.state ≡ start.resolver.state)
    × ((name : Text)
        → (Names.handle_get world.names world.uuids Names.no_faults name s'.resolver.state).0
          ≢ ok 9)
    × (k : ℕ) × (◌≡◌ {A = Status world}
        (added 9)
        (pending (new_pending (documents_addition tt tt none) k 9 0)))
    × ((Updating.handle_get_update world.queue world.json world.path_of Updating.no_faults
          Queue.no_faults 9 k s'.updates.state).0
        ≡ ok (added 9))
unfolding Names.handle_get Names.get_uuid Names.is_index_uid_valid Updating.handle_update
    Updating.get_or_create Updating.receive_payload Updating.write_payload Updating.check_payload
    Queue.register_update Queue.new_update_id
add_documents-orphan_example =
    add_documents-orphan world call blank tt tt payload none start {status = added 9} refl refl refl
      refl (start-IsReady 9) start-unnamed refl
