-- ===== src/UuidResolver/Tests.antt =====
-- Concrete runs of the handlers of meilisearch-http/src/index_controller/uuid_resolver.rs. The name
-- "ab" is the list of its two characters, and a uuid is its own single byte.
use transplant.Base.{◌≡◌, ◌≢◌, ◌↔◌, refl, none, some, List, [], ◌∷◌, true, In, String}
use transplant.Base.Outcome.{Outcome, ok, err}
use transplant.Heed.{Heed}
use transplant.Heed.Keys.{Text, text_key}
use transplant.Heed.Sorted.{sorted_heed}
use transplant.Updates.{Uuid}
use transplant.UuidResolver.{
  UuidBytes, Bytes, Faults, no_faults, Store, UuidError, heed, name_already_exist, unexisting_index,
  commit, is_index_uid_valid, create_uuid, get_uuid, delete_uuid, list_uuids, entries, handle,
  handle_create, handle_get, handle_delete, handle_list, create_msg,
}
use transplant.UuidResolver.Laws.{IsSound, handle-IsSound, create-get}
use transplant.UuidResolver.Listing.{list-get}

abbrev H : Heed text_key
H = sorted_heed text_key

abbrev from_slice : Bytes → Outcome String Uuid
from_slice (u ∷ []) = ok u
from_slice _ = err "invalid bytes length"

abbrev bytes : UuidBytes
bytes = record { as_bytes = λ u. u ∷ []; from_slice = from_slice; from_slice-as_bytes = λ u. refl }

abbrev ab : Text
ab = 97 ∷ 98 ∷ []

abbrev cd : Text
cd = 99 ∷ 100 ∷ []

abbrev named : Store H bytes
named = H.put (H.empty Bytes) ab (5 ∷ [])

abbrev full : UuidError
full = heed "MDB_MAP_FULL"

abbrev no_commit : Faults
no_commit transplant.UuidResolver.commit = some full
no_commit _ = none

IsSound-empty : IsSound H bytes (H.empty Bytes)
IsSound-empty name found e = cc e

IsSound-named : IsSound H bytes named
unfolding is_index_uid_valid handle handle_create create_uuid
IsSound-named = handle-IsSound H bytes no_faults 5 (create_msg ab) (H.empty Bytes) IsSound-empty

handle-IsSound_example : (is_index_uid_valid ab ≡ true) × ((u : Uuid) × ((5 ∷ []) ≡ u ∷ []))
unfolding handle handle_create create_uuid is_index_uid_valid
handle-IsSound_example =
    handle-IsSound H bytes no_faults 5 (create_msg ab) (H.empty Bytes) IsSound-empty ab (5 ∷ [])
      refl

create-get_example :
    (is_index_uid_valid cd ≡ true)
    × ((handle_get H bytes no_faults cd named).0 ≡ err (unexisting_index cd))
    × ((handle_get H bytes no_faults cd (handle_create H bytes no_faults 6 cd named).1).0 ≡ ok 6)
    × ((name : Text)
        → name ≢ cd
        → (handle_get H bytes no_faults name (handle_create H bytes no_faults 6 cd named).1).0
          ≡ (handle_get H bytes no_faults name named).0)
unfolding handle_create create_uuid is_index_uid_valid
create-get_example = create-get H bytes no_faults 6 cd named {u = 6} refl

list-get_example :
    (es : List (Text × Uuid)) × ((handle_list H bytes no_faults named).0 ≡ ok es)
    × ((name : Text) (u : Uuid)
        → In (name, u) es ↔ ((handle_get H bytes no_faults name named).0 ≡ ok u))
list-get_example = list-get H bytes named IsSound-named
