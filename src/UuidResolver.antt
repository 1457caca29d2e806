-- ===== src/UuidResolver.antt =====
-- The index names and their uuids, meilisearch-http/src/index_controller/uuid_resolver.rs: the
-- store over the embedded database, the handlers of the actor and its handle. A function takes
-- `fault`, which says of each call of the database whether it fails, and `create_uuid` the value
-- of `Uuid::new_v4()`; a write transaction is a copy of the database that `commit` puts back.
pub mod Laws
pub mod Listing
mod Tests
use transplant.Base.{
  ℕ, ◌≡◌, Bool, true, false, not, ◌&&◌, ◌||◌, Option, none, some, List, [], ◌∷◌, map, if◌then◌else◌,
  ◌==◌, leb, String,
}
use transplant.Base.Outcome.{Outcome, ok, err, panicked, map_err, ok_or}
use transplant.Base.Exec.{Exec, ◌>>=◌, ◌>>◌, pure, lift, gets, modify, attempt}
use transplant.Base.Actor.{Actor, ask}
use transplant.Heed.{Heed}
use transplant.Heed.Keys.{Text, text_key}
use transplant.Updates.{Uuid}

pub data UuidError : Type 0 where
  name_already_exist : UuidError
  unexisting_index : Text → UuidError
  tokio_task : String → UuidError
  heed : String → UuidError
  uuid : String → UuidError
  badly_formatted : Text → UuidError

abbrev pub Bytes : Type 0
Bytes = List ℕ

-- The `uuid` crate's conversions, no code of this repository: what `as_bytes` writes is read back.
pub record UuidBytes : Type 0 where
  pub as_bytes : Uuid → Bytes
  pub from_slice : Bytes → Outcome String Uuid
  pub from_slice-as_bytes : (u : Uuid) → from_slice (as_bytes u) ≡ ok u

-- The calls that can fail; `join` is the end of the blocking task, `read_entry` a step of `iter`.
pub data Call : Type 0 where
  join write_txn read_txn commit get_name put_name delete_name iter_names : Call
  read_entry : Text → Call

abbrev pub Faults : Type 0
Faults = Call → Option UuidError

abbrev pub no_faults : Faults
no_faults c = none

abbrev pub is_ascii_alphanumeric : ℕ → Bool
is_ascii_alphanumeric x =
    (leb 48 x && leb x 57) || ((leb 65 x && leb x 90) || (leb 97 x && leb x 122))

abbrev pub is_uid_char : ℕ → Bool
is_uid_char x = is_ascii_alphanumeric x || ((x == 45) || (x == 95))

unfoldable pub is_index_uid_valid : Text → Bool
is_index_uid_valid [] = true
is_index_uid_valid (x ∷ uid) = is_uid_char x && is_index_uid_valid uid

pub data UuidResolveMsg : Type 0 where
  get_msg create_msg delete_msg : Text → UuidResolveMsg
  list_msg : UuidResolveMsg
  insert_msg : Uuid → Text → UuidResolveMsg

-- What goes back through `ret`.
pub data Reply : Type 0 where
  uuid_reply : Uuid → Reply
  list_reply : List (Text × Uuid) → Reply
  unit_reply : Reply

module _ (heed_store : Heed text_key) (uuids : UuidBytes) where
  open heed_store use {Database, get, put, delete, iter}
  open uuids use {as_bytes, from_slice}

  -- `HeedUuidStore`: the database of the environment, as the last commit left it.
  abbrev pub Store : Type 0
  Store = Database Bytes

  unfoldable pub create_uuid : Faults → Uuid → Text → Bool → Exec Store UuidError Uuid
  create_uuid fault new_v4 name with_err = do
    attempt (fault join)
    attempt (fault write_txn)
    txn ← gets (λ d. d)
    attempt (fault get_name)
    elim (get txn name) [
      | some found ↦
          if with_err then lift (err name_already_exist) else lift (map_err uuid (from_slice found))
      | none ↦ do
        attempt (fault put_name)
        let txn' = put txn name (as_bytes new_v4)
        attempt (fault commit)
        modify (λ d. txn')
        pure new_v4
    ]

  unfoldable pub get_uuid : Faults → Text → Exec Store UuidError (Option Uuid)
  get_uuid fault name = do
    attempt (fault join)
    attempt (fault read_txn)
    txn ← gets (λ d. d)
    attempt (fault get_name)
    elim (get txn name) [
      | some found ↦ do id ← lift (map_err uuid (from_slice found)); pure (some id)
      | none ↦ pure none
    ]

  unfoldable pub delete_uuid : Faults → Text → Exec Store UuidError (Option Uuid)
  delete_uuid fault uid = do
    attempt (fault join)
    attempt (fault write_txn)
    txn ← gets (λ d. d)
    attempt (fault get_name)
    elim (get txn uid) [
      | some found ↦ do
        id ← lift (map_err uuid (from_slice found))
        attempt (fault delete_name)
        let txn' = delete txn uid
        attempt (fault commit)
        modify (λ d. txn')
        pure (some id)
      | none ↦ pure none
    ]

  -- The loop of `list`, which stops at the first entry that cannot be read.
  unfoldable pub entries : Faults → List (Text × Bytes) → Outcome UuidError (List (Text × Uuid))
  entries fault [] = ok []
  entries fault ((name, found) ∷ l) =
      let rest = entries fault l in
      elim (fault (read_entry name)) [
        | some e ↦ err e
        | none ↦ elim (from_slice found) [
          | ok id ↦ elim rest [
            | ok es ↦ ok ((name, id) ∷ es)
            | err e ↦ err e
            | panicked m ↦ panicked m
          ]
          | err e ↦ err (uuid e)
          | panicked m ↦ panicked m
        ]
      ]

  unfoldable pub list_uuids : Faults → Exec Store UuidError (List (Text × Uuid))
  list_uuids fault = do
    attempt (fault join)
    attempt (fault read_txn)
    txn ← gets (λ d. d)
    attempt (fault iter_names)
    lift (entries fault (iter txn))

  unfoldable pub insert_uuid : Faults → Text → Uuid → Exec Store UuidError (Unit {0})
  insert_uuid fault name id = do
    attempt (fault join)
    attempt (fault write_txn)
    txn ← gets (λ d. d)
    attempt (fault put_name)
    let txn' = put txn name (as_bytes id)
    attempt (fault commit)
    modify (λ d. txn')

  unfoldable pub handle_create : Faults → Uuid → Text → Exec Store UuidError Uuid
  handle_create fault new_v4 uid =
      if not (is_index_uid_valid uid)
      then lift (err (badly_formatted uid))
      else create_uuid fault new_v4 uid true

  unfoldable pub handle_get : Faults → Text → Exec Store UuidError Uuid
  handle_get fault uid = do found ← get_uuid fault uid; lift (ok_or (unexisting_index uid) found)

  unfoldable pub handle_delete : Faults → Text → Exec Store UuidError Uuid
  handle_delete fault uid = do
    found ← delete_uuid fault uid
    lift (ok_or (unexisting_index uid) found)

  unfoldable pub handle_list : Faults → Exec Store UuidError (List (Text × Uuid))
  handle_list fault = list_uuids fault

  unfoldable pub handle_insert : Faults → Text → Uuid → Exec Store UuidError (Unit {0})
  handle_insert fault uid id =
      if not (is_index_uid_valid uid)
      then lift (err (badly_formatted uid))
      else insert_uuid fault uid id

  -- One round of the actor's loop.
  unfoldable pub handle : Faults → Uuid → UuidResolveMsg → Exec Store UuidError Reply
  handle fault new_v4 (create_msg uid) = do
    id ← handle_create fault new_v4 uid
    pure (uuid_reply id)
  handle fault new_v4 (get_msg uid) = do id ← handle_get fault uid; pure (uuid_reply id)
  handle fault new_v4 (delete_msg uid) = do id ← handle_delete fault uid; pure (uuid_reply id)
  handle fault new_v4 list_msg = do l ← handle_list fault; pure (list_reply l)
  handle fault new_v4 (insert_msg id name) = do handle_insert fault name id; pure unit_reply

  abbrev killed : String
  killed = "Uuid resolver actor has been killed"

  -- The methods of `UuidResolverHandle`.
  abbrev pub ask_get : Faults → Text → Exec (Actor Store) UuidError Uuid
  ask_get fault name = ask killed (handle_get fault name)

  abbrev pub ask_create : Faults → Uuid → Text → Exec (Actor Store) UuidError Uuid
  ask_create fault new_v4 name = ask killed (handle_create fault new_v4 name)

  abbrev pub ask_delete : Faults → Text → Exec (Actor Store) UuidError Uuid
  ask_delete fault name = ask killed (handle_delete fault name)

  abbrev pub ask_list : Faults → Exec (Actor Store) UuidError (List (Text × Uuid))
  ask_list fault = ask killed (handle_list fault)

  abbrev pub ask_insert : Faults → Text → Uuid → Exec (Actor Store) UuidError (Unit {0})
  ask_insert fault name id = ask killed (handle_insert fault name id)
