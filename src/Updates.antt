-- ===== src/Updates.antt =====
-- The life of one update, meilisearch-http/src/index_controller/updates.rs: the record of each
-- stage and the conversions between stages. A `DateTime<Utc>` is a number, and the clock's reading,
-- `Utc::now()`, is an argument; a `Uuid` is its 128 bits as a number.
use transplant.Base.{ℕ, Option, none, some}

abbrev pub DateTime : Type 0
DateTime = ℕ

abbrev pub Uuid : Type 0
Uuid = ℕ

pub record Pending (M : Type 0) : Type 0 where
  pub update_id : ℕ
  pub meta : M
  pub enqueued_at : DateTime
  pub index_uuid : Uuid

pub record Processing (M : Type 0) : Type 0 where
  pub from : Pending M
  pub started_processing_at : DateTime

pub record Processed (M N : Type 0) : Type 0 where
  pub success : N
  pub processed_at : DateTime
  pub from : Processing M

pub record Aborted (M : Type 0) : Type 0 where
  pub from : Pending M
  pub aborted_at : DateTime

pub record Failed (M E : Type 0) : Type 0 where
  pub from : Processing M
  pub error : E
  pub failed_at : DateTime

pub data UpdateStatus (M N E : Type 0) : Type 0 where
  processing : Processing M → UpdateStatus M N E
  pending : Pending M → UpdateStatus M N E
  processed : Processed M N → UpdateStatus M N E
  aborted : Aborted M → UpdateStatus M N E
  failed : Failed M E → UpdateStatus M N E

module _ {M : Type 0} where
  -- `Pending::new`, `Pending::processing`, `Pending::abort`.
  abbrev pub new_pending : M → ℕ → Uuid → DateTime → Pending M
  new_pending meta update_id index_uuid now = record {
    update_id = update_id;
    meta = meta;
    enqueued_at = now;
    index_uuid = index_uuid;
  }

  abbrev pub start : Pending M → DateTime → Processing M
  start p now = record { from = p; started_processing_at = now }

  abbrev pub abort : Pending M → DateTime → Aborted M
  abort p now = record { from = p; aborted_at = now }

  -- `Processing::id`, `Processing::meta` and `Processing::index_uuid`.
  abbrev pub processing_id : Processing M → ℕ
  processing_id p = p.from.update_id

  abbrev pub processing_meta : Processing M → M
  processing_meta p = p.from.meta

  abbrev pub processing_index_uuid : Processing M → Uuid
  processing_index_uuid p = p.from.index_uuid

  -- `Processing::process` and `Processing::fail`.
  abbrev pub process : {N : Type 0} → Processing M → N → DateTime → Processed M N
  process p meta now = record { success = meta; processed_at = now; from = p }

  abbrev pub fail : {E : Type 0} → Processing M → E → DateTime → Failed M E
  fail p error now = record { from = p; error = error; failed_at = now }

-- `Processed::id`, `Aborted::id` and `Failed::id`.
abbrev pub processed_id : {M N : Type 0} → Processed M N → ℕ
processed_id p = processing_id p.from

abbrev pub aborted_id : {M : Type 0} → Aborted M → ℕ
aborted_id p = p.from.update_id

abbrev pub failed_id : {M E : Type 0} → Failed M E → ℕ
failed_id p = processing_id p.from

module _ {M N E : Type 0} where
  abbrev pub status_id : UpdateStatus M N E → ℕ
  status_id (processing u) = processing_id u
  status_id (pending u) = u.update_id
  status_id (processed u) = processed_id u
  status_id (aborted u) = aborted_id u
  status_id (failed u) = failed_id u

  -- `UpdateStatus::processed`.
  abbrev pub as_processed : UpdateStatus M N E → Option (Processed M N)
  as_processed (processed p) = some p
  as_processed _ = none
