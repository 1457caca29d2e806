-- ===== src/UuidResolver/Laws.antt =====
-- What the handlers of meilisearch-http/src/index_controller/uuid_resolver.rs do to the names.
use transplant.Base.{◌≡◌, ◌≢◌, refl, sym, true, none, some, arith, Bool-cases, ◌⊎◌, inl, inr}
use transplant.Base.Outcome.{ok, err}
use transplant.Heed.{Heed}
use transplant.Heed.Keys.{Text, text_key, text_same, text_same_iff}
use transplant.Updates.{Uuid}
use transplant.UuidResolver.{
  UuidError, UuidBytes, Bytes, Faults, no_faults, Store, is_index_uid_valid, create_uuid, get_uuid,
  delete_uuid, list_uuids, insert_uuid, handle_create, handle_get, handle_delete, handle_list,
  handle_insert, handle, UuidResolveMsg, unexisting_index, Call,
}

module _ (heed_store : Heed text_key) (uuids : UuidBytes) where
  open heed_store use {get, put, delete, get-put, get-delete}
  open uuids use {as_bytes, from_slice}

  -- Every name is well formed, and every row holds the bytes of a uuid.
  abbrev pub IsSound : Store heed_store uuids → Type 0
  IsSound d =
      (name : Text) (found : Bytes)
      → get d name ≡ some found
      → (is_index_uid_valid name ≡ true) × ((u : Uuid) × (found ≡ as_bytes u))

  -- A message that is answered by an error leaves the database as it was.
  pub handle-atomic :
      (fault : Faults) (new_v4 : Uuid) (m : UuidResolveMsg) (d : Store heed_store uuids)
      {e : UuidError}
      → (handle heed_store uuids fault new_v4 m d).0 ≡ err e
      → (handle heed_store uuids fault new_v4 m d).1 ≡ d
  unfolding handle handle_create handle_get handle_delete handle_list handle_insert create_uuid
      get_uuid delete_uuid list_uuids insert_uuid
  handle-atomic fault new_v4 (UuidResolveMsg.get_msg uid) d h = ground arith
  handle-atomic fault new_v4 (UuidResolveMsg.create_msg uid) d h = ground arith
  handle-atomic fault new_v4 (UuidResolveMsg.delete_msg uid) d h = ground arith
  handle-atomic fault new_v4 UuidResolveMsg.list_msg d h = ground arith
  handle-atomic fault new_v4 (UuidResolveMsg.insert_msg id name) d h = ground arith

  handle_create-ok :
      (fault : Faults) (new_v4 : Uuid) (uid : Text) (d : Store heed_store uuids) {u : Uuid}
      → (handle_create heed_store uuids fault new_v4 uid d).0 ≡ ok u
      → (is_index_uid_valid uid ≡ true)
        × (get d uid ≡ none)
        × (u ≡ new_v4)
        × ((handle_create heed_store uuids fault new_v4 uid d).1 ≡ put d uid (as_bytes u))
  unfolding handle_create create_uuid
  handle_create-ok fault new_v4 uid d h = (ground arith, ground arith, ground arith, ground arith)

  pub handle_get-none :
      (uid : Text) (d : Store heed_store uuids)
      → get d uid ≡ none
      → (handle_get heed_store uuids no_faults uid d).0 ≡ err (unexisting_index uid)
  unfolding handle_get get_uuid
  handle_get-none uid d h = rw h refl

  pub handle_get-some :
      (uid : Text) (u : Uuid) (d : Store heed_store uuids)
      → get d uid ≡ some (as_bytes u)
      → (handle_get heed_store uuids no_faults uid d).0 ≡ ok u
  unfolding handle_get get_uuid
  handle_get-some uid u d h = rw (h, uuids.from_slice-as_bytes u) refl

  handle_get-same :
      (uid : Text) (d d' : Store heed_store uuids)
      → get d uid ≡ get d' uid
      → (handle_get heed_store uuids no_faults uid d).0
        ≡ (handle_get heed_store uuids no_faults uid d').0
  unfolding handle_get get_uuid
  handle_get-same uid d d' h = ground (arith, h)

  IsSound-put :
      (d : Store heed_store uuids) (uid : Text) (u : Uuid)
      → is_index_uid_valid uid ≡ true
      → IsSound d
      → IsSound (put d uid (as_bytes u))
  IsSound-put d uid u valid good name found h = elim (Bool-cases (text_same uid name)) [
    | inl e ↦
        let at : uid ≡ name = (text_same_iff uid name).0 e in
        (rw (sym at) valid, (u, ground (arith, get-put d uid name (as_bytes u), h, e)))
    | inr n ↦ good name found (ground (arith, get-put d uid name (as_bytes u), h, n))
  ]

  IsSound-delete : (d : Store heed_store uuids) (uid : Text) → IsSound d → IsSound (delete d uid)
  IsSound-delete d uid good name found h =
      good name found (ground (arith, get-delete d uid name, h))

  -- If every row is under a well formed name and holds the bytes of a uuid, then it is so after
  -- any message, whatever fails.
  pub handle-IsSound :
      (fault : Faults) (new_v4 : Uuid) (m : UuidResolveMsg) (d : Store heed_store uuids)
      → IsSound d
      → IsSound (handle heed_store uuids fault new_v4 m d).1
  unfolding handle handle_create handle_get handle_delete handle_list handle_insert create_uuid
      get_uuid delete_uuid list_uuids insert_uuid
  handle-IsSound fault new_v4 (UuidResolveMsg.get_msg uid) d good =
      let r = (handle heed_store uuids fault new_v4 (UuidResolveMsg.get_msg uid) d).1 in
      let same : r ≡ d = ground arith in rw same good
  handle-IsSound fault new_v4 (UuidResolveMsg.create_msg uid) d good =
      let r = (handle heed_store uuids fault new_v4 (UuidResolveMsg.create_msg uid) d).1 in
      let change : (r ≡ d) ⊎ ((is_index_uid_valid uid ≡ true) × (r ≡ put d uid (as_bytes new_v4))) =
        ground arith in
      elim change [ inl e ↦ rw e good | inr (v, e) ↦ rw e (IsSound-put d uid new_v4 v good) ]
  handle-IsSound fault new_v4 (UuidResolveMsg.delete_msg uid) d good =
      let r = (handle heed_store uuids fault new_v4 (UuidResolveMsg.delete_msg uid) d).1 in
      let change : (r ≡ d) ⊎ (r ≡ delete d uid) = ground arith in
      elim change [ inl e ↦ rw e good | inr e ↦ rw e (IsSound-delete d uid good) ]
  handle-IsSound fault new_v4 UuidResolveMsg.list_msg d good =
      let r = (handle heed_store uuids fault new_v4 UuidResolveMsg.list_msg d).1 in
      let same : r ≡ d = ground arith in rw same good
  handle-IsSound fault new_v4 (UuidResolveMsg.insert_msg id uid) d good =
      let r = (handle heed_store uuids fault new_v4 (UuidResolveMsg.insert_msg id uid) d).1 in
      let change : (r ≡ d) ⊎ ((is_index_uid_valid uid ≡ true) × (r ≡ put d uid (as_bytes id))) =
        ground arith in
      elim change [ inl e ↦ rw e good | inr (v, e) ↦ rw e (IsSound-put d uid id v good) ]

  pub handle_get-state :
      (fault : Faults) (uid : Text) (d : Store heed_store uuids)
      → (handle_get heed_store uuids fault uid d).1 ≡ d
  unfolding handle_get get_uuid
  handle_get-state fault uid d = ground arith

  -- An answer that is a uuid stays the answer when no call fails.
  pub handle_get-quiet :
      (fault : Faults) (uid : Text) (d : Store heed_store uuids) {u : Uuid}
      → (handle_get heed_store uuids fault uid d).0 ≡ ok u
      → (handle_get heed_store uuids no_faults uid d).0 ≡ ok u
  unfolding handle_get get_uuid
  handle_get-quiet fault uid d h = ground arith

  -- No call of the database or of the runtime fails with this actor's own error.
  abbrev pub IsForeign : Faults → Type 0
  IsForeign fault = (k : Call) (name : Text) → fault k ≢ some (unexisting_index name)

  pub handle_get-unexisting :
      (fault : Faults) (uid name : Text) (d : Store heed_store uuids)
      → IsForeign fault
      → (handle_get heed_store uuids fault uid d).0 ≡ err (unexisting_index name)
      → name ≡ uid
  unfolding handle_get get_uuid
  handle_get-unexisting fault uid name d foreign h = ground (
    arith,
    h,
    foreign transplant.UuidResolver.join name,
    foreign transplant.UuidResolver.read_txn name,
    foreign transplant.UuidResolver.get_name name,
  )

  -- A name that was inserted is found.
  pub insert-get :
      (fault : Faults) (uid : Text) (u : Uuid) (d : Store heed_store uuids)
      → (handle_insert heed_store uuids fault uid u d).0 ≡ ok tt
      → (handle_get heed_store uuids no_faults uid
          (handle_insert heed_store uuids fault uid u d).1).0
        ≡ ok u
  unfolding handle_insert insert_uuid
  insert-get fault uid u d h =
      let change : (handle_insert heed_store uuids fault uid u d).1 ≡ put d uid (as_bytes u) =
        ground arith in
      rw change (
        handle_get-some uid u _
          (ground (arith, get-put d uid uid (as_bytes u), text_same_iff uid uid)))

  -- When a creation returns a uuid, whatever else may have failed, the name is well formed and
  -- was unknown before, and afterwards `get` of it, when no call fails, returns that uuid; `get`
  -- of any other name returns what it did.
  pub create-get :
      (fault : Faults) (new_v4 : Uuid) (uid : Text) (d : Store heed_store uuids) {u : Uuid}
      → (handle_create heed_store uuids fault new_v4 uid d).0 ≡ ok u
      → let d' = (handle_create heed_store uuids fault new_v4 uid d).1 in
        (is_index_uid_valid uid ≡ true)
        × ((handle_get heed_store uuids no_faults uid d).0 ≡ err (unexisting_index uid))
        × ((handle_get heed_store uuids no_faults uid d').0 ≡ ok u)
        × ((name : Text)
            → name ≢ uid
            → (handle_get heed_store uuids no_faults name d').0
              ≡ (handle_get heed_store uuids no_faults name d).0)
  create-get fault new_v4 uid d {u} h =
      let (valid, new, same, change) = handle_create-ok fault new_v4 uid d h in
      (
        valid,
        handle_get-none uid d new,
        rw change (
            handle_get-some uid u _
              (ground (arith, get-put d uid uid (as_bytes u), text_same_iff uid uid))),
        λ name other. rw change (
            handle_get-same name _ d
              (ground (arith, get-put d uid name (as_bytes u), text_same_iff uid name, other))),
      )

  -- When a deletion returns a uuid, `get` of the name, when no call fails, returned that uuid
  -- before and answers that the index does not exist afterwards; `get` of any other name returns
  -- what it did.
  pub delete-get :
      (fault : Faults) (uid : Text) (d : Store heed_store uuids) {u : Uuid}
      → (handle_delete heed_store uuids fault uid d).0 ≡ ok u
      → let d' = (handle_delete heed_store uuids fault uid d).1 in
        ((handle_get heed_store uuids no_faults uid d).0 ≡ ok u)
        × ((handle_get heed_store uuids no_faults uid d').0 ≡ err (unexisting_index uid))
        × ((name : Text)
            → name ≢ uid
            → (handle_get heed_store uuids no_faults name d').0
              ≡ (handle_get heed_store uuids no_faults name d).0)
  unfolding handle_delete handle_get get_uuid delete_uuid
  delete-get fault uid d {u} h =
      let change : (handle_delete heed_store uuids fault uid d).1 ≡ delete d uid = ground arith in
      (
        ground (arith, h),
        rw change
            (handle_get-none uid _ (ground (arith, get-delete d uid uid, text_same_iff uid uid))),
        λ name other. rw change (
            handle_get-same name _ d
              (ground (arith, get-delete d uid name, text_same_iff uid name, other))),
      )
