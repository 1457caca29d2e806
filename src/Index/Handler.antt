-- ===== src/Index/Handler.antt =====
-- How an update is configured, meilisearch-http/src/index_controller/update_handler.rs.
use transplant.Base.{ℕ, Option}
use transplant.Index.Updates.{given}

-- `milli::update::UpdateBuilder`, of an update's id.
pub record Builders (UpdateBuilder : Type 0) : Type 1 where
  pub CompressionType : Type 0
  pub ThreadPool : Type 0
  pub new : ℕ → UpdateBuilder
  pub max_nb_chunks : ℕ → UpdateBuilder → UpdateBuilder
  pub chunk_compression_level : ℕ → UpdateBuilder → UpdateBuilder
  pub thread_pool : ThreadPool → UpdateBuilder → UpdateBuilder
  pub log_every_n : ℕ → UpdateBuilder → UpdateBuilder
  pub max_memory : ℕ → UpdateBuilder → UpdateBuilder
  pub linked_hash_map_size : ℕ → UpdateBuilder → UpdateBuilder
  pub chunk_compression_type : CompressionType → UpdateBuilder → UpdateBuilder
  pub chunk_fusing_shrink_size : ℕ → UpdateBuilder → UpdateBuilder

pub record UpdateHandler (CompressionType ThreadPool : Type 0) : Type 0 where
  pub max_nb_chunks : Option ℕ
  pub chunk_compression_level : Option ℕ
  pub thread_pool : ThreadPool
  pub log_frequency : ℕ
  pub max_memory : ℕ
  pub linked_hash_map_size : ℕ
  pub chunk_compression_type : CompressionType
  pub chunk_fusing_shrink_size : ℕ

module _ {UpdateBuilder : Type 0} (builders : Builders UpdateBuilder)
    (handler : UpdateHandler builders.CompressionType builders.ThreadPool) where
  unfoldable pub update_builder : ℕ → UpdateBuilder
  update_builder update_id =
      let chunked = given builders.max_nb_chunks handler.max_nb_chunks (builders.new update_id) in
      let compressed =
        given builders.chunk_compression_level handler.chunk_compression_level chunked in
      let pooled = builders.thread_pool handler.thread_pool compressed in
      let logged = builders.log_every_n handler.log_frequency pooled in
      let bounded = builders.max_memory handler.max_memory logged in
      let mapped = builders.linked_hash_map_size handler.linked_hash_map_size bounded in
      let typed = builders.chunk_compression_type handler.chunk_compression_type mapped in
      builders.chunk_fusing_shrink_size handler.chunk_fusing_shrink_size typed
