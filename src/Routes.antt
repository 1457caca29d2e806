-- ===== src/Routes.antt =====
-- The HTTP routes, meilisearch-http/src/routes, over the controller of the server; the methods of
-- meilisearch-http/src/data forward to it. A route's body is what the extractors of the web framework
-- give it.
pub mod Query
pub mod Documents
pub mod Indexes
pub mod Settings
pub mod Search
pub mod Toy
mod Tests
use transplant.Base.{ℕ, Option, List, String}
use transplant.Base.Outcome.{Outcome, ok, err, panicked}
use transplant.Base.Exec.{Exec}
use transplant.Heed.{Heed}
use transplant.Heed.Keys.{Text, text_key, nat_key}
use transplant.Updates.{Uuid}
use transplant.UpdateStore.{Content}
use transplant.UuidResolver.{UuidBytes}
use transplant.UpdateActor.{Json}
use transplant.Index.{Milli}
use transplant.Index.Json.{Value}
use transplant.Index.Highlight.{Analyzer}
use transplant.Index.Search as Searching
use transplant.Index.Updates.{Updating}
use transplant.Index.Handler.{Builders, UpdateHandler, update_builder}
use transplant.Index.Engine.{Metadata, engine}
use transplant.IndexController.{Error, World, Controller}

-- The crates that the server is made with, and the constants of theirs that the routes name.
pub record Crates : Type 1 where
  pub names : Heed text_key
  pub queue : Heed nat_key
  pub uuids : UuidBytes
  pub json : Json
  pub path_of : Uuid → String
  pub ids_to_vec : List String → Content
  pub milli : Milli
  pub updating : Updating milli
  pub searching : Searching.Engine milli
  pub analyzer : Analyzer
  pub metadata : Metadata milli.Index
  pub builders : Builders updating.UpdateBuilder
  pub handler : UpdateHandler builders.CompressionType builders.ThreadPool
  pub elapsed : ℕ
  pub replace_documents : updating.Method
  pub merge_documents : updating.Method
  pub json_format : updating.Format
  -- `to_string` of an error and of a JSON value, and `serde_json::from_str`.
  pub error_to_string : Error → String
  pub value_to_string : Value → String
  pub from_str : String → Outcome String Value

-- The answers that the routes make.
pub data HttpResponse (A : Type 0) : Type 0 where
  ok_json accepted : A → HttpResponse A
  no_content : HttpResponse A
  bad_request : String → HttpResponse A

module _ (crates : Crates) where
  abbrev pub world : World
  world = record {
    names = crates.names;
    queue = crates.queue;
    uuids = crates.uuids;
    json = crates.json;
    path_of = crates.path_of;
    engine =
        engine crates.milli crates.updating crates.searching crates.analyzer crates.metadata
          (update_builder crates.builders crates.handler) crates.elapsed;
    ids_to_vec = crates.ids_to_vec;
  }

  -- A route, with the error that its type lets it return.
  abbrev pub Route : Type 0 → Type 0 → Type 0
  Route E A = Exec (Controller world) E (HttpResponse A)

  -- The `match` on what the controller answers: an error becomes a bad request.
  abbrev pub answer :
      {E A B : Type 0} → (A → HttpResponse B) → Exec (Controller world) Error A → Route E B
  answer good method s =
      let (r, s') = method s in
      elim r [
        | ok a ↦ (ok (good a), s')
        | err e ↦ (ok (bad_request (crates.error_to_string e)), s')
        | panicked m ↦ (panicked m, s')
      ]
