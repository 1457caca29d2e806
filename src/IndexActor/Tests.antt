-- ===== src/IndexActor/Tests.antt =====
-- Concrete messages to the actor of meilisearch-http/src/index_controller/index_actor.rs, with an
-- engine whose index is its primary key.
use transplant.Base.{
  ℕ, ◌≡◌, refl, true, false, Option, none, some, List, [], ◌∷◌, String, set, arith,
}
use transplant.Base.Outcome.{ok}
use transplant.Updates.{Uuid, Processing}
use transplant.IndexActor.{Engine, State, no_faults, IndexMeta, Meta, clear_documents}
use transplant.IndexActor.Messages.{HasDirs}
use transplant.IndexActor.Tasks.{Operation, Tasks, Reach, get, begun, finished, go_on, here, next}
use transplant.IndexActor.Tasks.Gets.{IsGet, IsAnswer, Reach-gets}
use transplant.IndexActor.Tasks.Revival.{IsAny, turns, delete-revived}

abbrev engine : Engine
engine = record {
  Index = Option String;
  Method = Unit {0};
  Format = Unit {0};
  Settings = Unit {0};
  Facets = Unit {0};
  UpdateResult = ℕ;
  Content = List ℕ;
  Query = Unit {0};
  SearchResult = ℕ;
  Document = ℕ;
  new_index = none;
  created_at = λ i. 0;
  updated_at = λ i. 0;
  primary_key = λ i. i;
  put_primary_key = λ i k. some k;
  primary_key-put = λ i k. refl;
  update_documents = λ id i f m c k. (ok 1, i);
  clear = λ id i. (ok 2, i);
  delete = λ id i c. (ok 3, i);
  update_settings = λ id i s. (ok 4, i);
  update_facets = λ id i f. (ok 5, i);
  perform_search = λ i q. ok 0;
  settings = λ i. ok tt;
  retrieve_documents = λ i o l a. ok [];
  retrieve_document = λ i d a. ok 0;
}

abbrev start : State engine
start = record { loaded = λ u. false; dir_exists = λ u. false; index = λ u. none }

-- The index 7 is there, with and without a primary key.
abbrev keyed : State engine
keyed = record { loaded = λ u. true; dir_exists = λ u. true; index = λ u. some "id" }

abbrev unkeyed : State engine
unkeyed = record { loaded = λ u. true; dir_exists = λ u. true; index = λ u. none }

abbrev made : IndexMeta
made = record { created_at = 0; updated_at = 0; primary_key = some "id" }

abbrev task : Processing (Meta engine)
task = record {
  from = record { update_id = 4; meta = clear_documents; enqueued_at = 1; index_uuid = 7 };
  started_processing_at = 2;
}

-- Every task looks the index 7 up, which is on the disk and not loaded.
abbrev stored : State engine
stored = record { loaded = λ u. false; dir_exists = λ u. true; index = λ u. some "id" }

abbrev lookups : Tasks engine
lookups = record { state = stored; tasks = λ t. record { operation = get 7; phase = begun } }

-- The tasks 1 and 2 have both seen that it is not loaded.
abbrev both_look : Tasks engine
both_look = turns engine (1 ∷ 2 ∷ []) lookups

both_look-reached : Reach engine IsGet lookups both_look
both_look-reached =
    next (next here (go_on lookups no_faults 1)) (go_on (turns engine (1 ∷ []) lookups) no_faults 2)

Reach-gets_example :
    ((u : Uuid) → (both_look.state.dir_exists u ≡ true) × (both_look.state.index u ≡ some "id"))
    × HasDirs engine both_look.state
    × ((t : ℕ)
        → (id : Uuid) × ((both_look.tasks t).operation ≡ get id)
          × IsAnswer engine stored id (both_look.tasks t).phase)
Reach-gets_example =
    Reach-gets engine lookups both_look (λ u e. refl) (λ t. (tt, refl)) both_look-reached

abbrev race : Tasks engine
race = record {
  state = stored;
  tasks =
      set (λ t. record { operation = get 7; phase = begun }) 2
        (record { operation = Operation.delete 7; phase = begun });
}

delete-revived_example :
    (b : Tasks engine) × Reach engine IsAny race b
    × ((b.tasks 2).phase ≡ finished (ok none))
    × ((b.tasks 1).phase ≡ finished (ok (some 7)))
    × (b.state.dir_exists 7 ≡ true)
    × (b.state.loaded 7 ≡ true)
    × (b.state.index 7 ≡ none)
delete-revived_example =
    delete-revived engine race 1 2 7 (λ e. absurd (omega arith)) refl refl refl refl
