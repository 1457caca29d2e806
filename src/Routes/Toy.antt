-- ===== src/Routes/Toy.antt =====
-- The crates of a small server for the tests of the routes and of what is built on them, with the engine of
-- Index/Toy. Models no file of the repository.
use transplant.Base.{refl, true, false, none, [], ◌∷◌, String}
use transplant.Base.Outcome.{Outcome, ok, err}
use transplant.Heed.Keys.{text_key, nat_key}
use transplant.Heed.Sorted.{sorted_heed}
use transplant.UuidResolver.{Bytes}
use transplant.UpdateActor as Updating
use transplant.Updates.{Uuid}
use transplant.Index.Json.{null}
use transplant.Index.Toy.{milli, analyzer, searching, updating, metadata}
use transplant.IndexController.{Controller}
use transplant.Routes.{Crates, world}

abbrev from_slice : Bytes → Outcome String Uuid
from_slice (u ∷ []) = ok u
from_slice _ = err "invalid bytes length"

abbrev pub crates : Crates
crates = record {
  names = sorted_heed text_key;
  queue = sorted_heed nat_key;
  uuids = record {
    as_bytes = λ u. u ∷ [];
    from_slice = from_slice;
    from_slice-as_bytes = λ u. refl;
  };
  json = record { is_accepted = λ c. true; serde_error = λ c. none };
  path_of = λ u. "update_file";
  ids_to_vec = λ ids. [];
  milli = milli;
  updating = updating;
  searching = searching;
  analyzer = analyzer;
  metadata = metadata;
  builders = record {
    CompressionType = Unit {0};
    ThreadPool = Unit {0};
    new = λ id. tt;
    max_nb_chunks = λ n b. b;
    chunk_compression_level = λ n b. b;
    thread_pool = λ p b. b;
    log_every_n = λ n b. b;
    max_memory = λ n b. b;
    linked_hash_map_size = λ n b. b;
    chunk_compression_type = λ t b. b;
    chunk_fusing_shrink_size = λ n b. b;
  };
  handler = record {
    max_nb_chunks = none;
    chunk_compression_level = none;
    thread_pool = tt;
    log_frequency = 100000;
    max_memory = 1000000;
    linked_hash_map_size = 500;
    chunk_compression_type = tt;
    chunk_fusing_shrink_size = 1000000;
  };
  elapsed = 3;
  replace_documents = 0;
  merge_documents = 1;
  json_format = tt;
  error_to_string = λ e. "error";
  value_to_string = λ v. "null";
  from_str = λ s. ok null;
}

abbrev pub start : Controller (world crates)
start = record {
  resolver = record { running = true; state = crates.names.empty Bytes };
  updates = record {
    running = true;
    state = record {
      loaded = λ u. false;
      dir_exists = λ u. false;
      store = λ u.
          Updating.opened crates.queue crates.json crates.path_of
            (Updating.empty_tables crates.queue crates.json crates.path_of);
      files = λ path. none;
    };
  };
  indexes = record {
    running = true;
    state = record { loaded = λ u. false; dir_exists = λ u. false; index = λ u. (none, []) };
  };
}
