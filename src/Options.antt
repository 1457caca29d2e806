-- ===== src/Options.antt =====
-- The options of the server, meilisearch-http/src/option.rs, as they are after the command line and the
-- environment have been read. Sizes are in bytes; the compression algorithms are a type of the
-- `grenad` crate.
pub mod Tls
pub mod Verifier
pub mod Toy
mod Tests
use transplant.Base.{ℕ, ◌*◌, ◌^◌, Bool, false, Option, none, String}

pub record IndexerOpts (CompressionType : Type 0) : Type 0 where
  pub log_every_n : ℕ
  pub max_nb_chunks : Option ℕ
  pub max_memory : ℕ
  pub linked_hash_map_size : ℕ
  pub chunk_compression_type : CompressionType
  pub chunk_compression_level : Option ℕ
  pub chunk_fusing_shrink_size : ℕ
  pub enable_chunk_fusing : Bool
  pub indexing_jobs : Option ℕ

-- `IndexerOpts::default()`, with `CompressionType::None`; `Byte::from_str("1GiB")` is 1024³ bytes.
unfoldable pub default_indexer_opts :
    {CompressionType : Type 0} → CompressionType → IndexerOpts CompressionType
default_indexer_opts uncompressed = record {
  log_every_n = 100000;
  max_nb_chunks = none;
  max_memory = 1 * 1024 ^ 3;
  linked_hash_map_size = 500;
  chunk_compression_type = uncompressed;
  chunk_compression_level = none;
  chunk_fusing_shrink_size = 4 * 1024 ^ 3;
  enable_chunk_fusing = false;
  indexing_jobs = none;
}

-- The options of the build without the feature `sentry`; a path is its text.
pub record Opt (CompressionType : Type 0) : Type 0 where
  pub db_path : String
  pub http_addr : String
  pub master_key : Option String
  pub env : String
  pub no_analytics : Bool
  pub max_mdb_size : ℕ
  pub max_udb_size : ℕ
  pub http_payload_size_limit : ℕ
  pub ssl_cert_path : Option String
  pub ssl_key_path : Option String
  pub ssl_auth_path : Option String
  pub ssl_ocsp_path : Option String
  pub ssl_require_auth : Bool
  pub ssl_resumption : Bool
  pub ssl_tickets : Bool
  pub import_snapshot : Option String
  pub ignore_missing_snapshot : Bool
  pub ignore_snapshot_if_db_exists : Bool
  pub snapshot_dir : String
  pub schedule_snapshot : Bool
  pub snapshot_interval_sec : Option ℕ
  pub dumps_dir : String
  pub import_dump : Option String
  pub dump_batch_size : ℕ
  pub indexer_options : IndexerOpts CompressionType
