-- ===== src/UpdateActor/Messages.antt =====
-- The messages of the update actor, its loop and its handle,
-- meilisearch-http/src/index_controller/update_actor.rs.
use transplant.Base.{ℕ, ◌≡◌, refl, sym, ap, ◌∙◌, true, Option, none, some, List, arith, String}
use transplant.Base.Outcome.{ok_or}
use transplant.Base.Exec.{Exec, ◌>>=◌, ◌>>◌, pure, lift, attempt, spawn_blocking}
use transplant.Base.Actor.{Actor, ask}
use transplant.Base.Keeps.{Order, bind-keeps}
use transplant.Heed.{Heed}
use transplant.Heed.Keys.{nat_key}
use transplant.Updates.{Uuid, DateTime, UpdateStatus}
use transplant.UpdateStore as Queue
use transplant.UpdateStore.{Error, Content, Store, register_update}
use transplant.UpdateStore.Read.{list, meta}
use transplant.UpdateActor.{
  UpdateError, unexisting_index, unexisting_update, Faults, Json, State, Chunk, get_or_create,
  get_store, delete_store, handle_update, handle_delete, handle_create, handle_get_update,
  handle_list_updates, in_store, failing, failed_join, join,
}
use transplant.UpdateActor.Laws.{OnlyFiles, handle_update-keeps}

pub data UpdateMsg (M : Type 0) : Type 0 where
  update : Uuid → M → List Chunk → UpdateMsg M
  list_updates : Uuid → UpdateMsg M
  get_update : Uuid → ℕ → UpdateMsg M
  delete create : Uuid → UpdateMsg M

-- What goes back through `ret`.
pub data Reply (M N E : Type 0) : Type 0 where
  status : UpdateStatus M N E → Reply M N E
  statuses : List (UpdateStatus M N E) → Reply M N E
  nothing : Reply M N E

abbrev pub killed : String
killed = "update actor killed."

module _ (heed : Heed nat_key) (json : Json) (path_of : Uuid → String) {M N E : Type 0} where
  -- One round of the actor's loop.
  unfoldable pub handle_message :
      Faults
      → Queue.Faults
      → Uuid
      → DateTime
      → UpdateMsg M
      → Exec (State heed M N E) UpdateError (Reply M N E)
  handle_message fault stored new_v4 now (update index meta payload) = do
    u ← handle_update heed json path_of fault stored index meta payload new_v4 now
    pure (status u)
  handle_message fault stored new_v4 now (list_updates index) = do
    l ← handle_list_updates heed json path_of fault stored index
    pure (statuses l)
  handle_message fault stored new_v4 now (get_update index id) = do
    u ← handle_get_update heed json path_of fault stored index id
    pure (status u)
  handle_message fault stored new_v4 now (delete index) = do
    handle_delete heed json path_of fault index
    pure nothing
  handle_message fault stored new_v4 now (create index) = do
    handle_create heed json path_of fault index
    pure nothing

  -- The methods of `UpdateActorHandle`.
  abbrev pub ask_update :
      Faults
      → Queue.Faults
      → Uuid
      → DateTime
      → M
      → List Chunk
      → Uuid
      → Exec (Actor (State heed M N E)) UpdateError (UpdateStatus M N E)
  ask_update fault stored new_v4 now meta payload index =
      ask killed (handle_update heed json path_of fault stored index meta payload new_v4 now)

  abbrev pub ask_all_updates_status :
      Faults
      → Queue.Faults
      → Uuid
      → Exec (Actor (State heed M N E)) UpdateError (List (UpdateStatus M N E))
  ask_all_updates_status fault stored index =
      ask killed (handle_list_updates heed json path_of fault stored index)

  abbrev pub ask_update_status :
      Faults
      → Queue.Faults
      → Uuid
      → ℕ
      → Exec (Actor (State heed M N E)) UpdateError (UpdateStatus M N E)
  ask_update_status fault stored index id =
      ask killed (handle_get_update heed json path_of fault stored index id)

  abbrev pub ask_delete : Faults → Uuid → Exec (Actor (State heed M N E)) UpdateError (Unit {0})
  ask_delete fault index = ask killed (handle_delete heed json path_of fault index)

  abbrev pub ask_create : Faults → Uuid → Exec (Actor (State heed M N E)) UpdateError (Unit {0})
  ask_create fault index = ask killed (handle_create heed json path_of fault index)

  -- A store that is in the map has its directory.
  abbrev pub HasDirs : State heed M N E → Type 0
  HasDirs s = (j : Uuid) → s.loaded j ≡ true → s.dir_exists j ≡ true

  abbrev KeepsDirs : State heed M N E → State heed M N E → Type 0
  KeepsDirs s s' = HasDirs s → HasDirs s'

  keeps_dirs : Order KeepsDirs
  keeps_dirs = record { same = λ s h. h; next = λ s s' s'' p q h. q (p h) }

  of_files : (s s' : State heed M N E) → OnlyFiles heed json path_of s s' → KeepsDirs s s'
  of_files s s' p h j e = ap (λ f. f j) p.1 ∙ h j (sym (ap (λ f. f j) p.0) ∙ e)

  get_or_create-KeepsDirs :
      (fault : Faults) (index : Uuid) (s : State heed M N E)
      → KeepsDirs s (get_or_create heed json path_of fault index s).1
  unfolding get_or_create
  get_or_create-KeepsDirs fault index s h j e = ground (arith, h j, h index)

  get_store-KeepsDirs :
      (fault : Faults) (index : Uuid) (s : State heed M N E)
      → KeepsDirs s (get_store heed json path_of fault index s).1
  unfolding get_store
  get_store-KeepsDirs fault index s h j e = ground (arith, h j, h index)

  delete_store-KeepsDirs :
      (fault : Faults) (index : Uuid) (s : State heed M N E)
      → KeepsDirs s (delete_store heed json path_of fault index s).1
  unfolding delete_store
  delete_store-KeepsDirs fault index s h j e = ground (arith, h j, h index)

  in_store-KeepsDirs :
      {A : Type 0} (m : Exec (Store heed M N E) Error A) (index : Uuid) (s : State heed M N E)
      → KeepsDirs s (in_store heed json path_of index m s).1
  in_store-KeepsDirs m index s h = h

  attempt-KeepsDirs : (o : Option UpdateError) (s : State heed M N E) → KeepsDirs s (attempt o s).1
  attempt-KeepsDirs o s h j e = ground (arith, h j)

  in_found-KeepsDirs :
      {A : Type 0} (index : Uuid) (found : Option Uuid) (m : Exec (Store heed M N E) Error A)
      (s : State heed M N E)
      → KeepsDirs s
          ((lift (ok_or (unexisting_index index) found) >>= λ u. in_store heed json path_of u m)
            s).1
  in_found-KeepsDirs index none m s h = h
  in_found-KeepsDirs index (some u) m s h = in_store-KeepsDirs m u s h

  -- A question to the store of an index, once the index is resolved.
  asked-KeepsDirs :
      {A B : Type 0} (index : Uuid) (found : Option Uuid) (m : Exec (Store heed M N E) Error A)
      (f : A → Exec (State heed M N E) UpdateError B)
      → ((a : A) (s : State heed M N E) → (f a s).1 ≡ s)
      → (s : State heed M N E)
      → KeepsDirs s
          ((lift (ok_or (unexisting_index index) found) >>= λ u.
              in_store heed json path_of u m >>= f)
            s).1
  asked-KeepsDirs index none m f still s = λ h. h
  asked-KeepsDirs index (some u) m f still s =
      bind-keeps keeps_dirs (in_store heed json path_of u m) f (in_store-KeepsDirs m u)
        (λ a s₁ e. rw (still a (in_store heed json path_of u m s₁).1) (λ h. h)) s

  -- If every store in the map has its directory, then it is so after any message, whatever
  -- fails.
  pub handle_message-HasDirs :
      (fault : Faults) (stored : Queue.Faults) (new_v4 : Uuid) (now : DateTime) (m : UpdateMsg M)
      (s : State heed M N E)
      → HasDirs s
      → HasDirs (handle_message fault stored new_v4 now m s).1
  unfolding handle_message handle_delete handle_create handle_list_updates handle_get_update
  handle_message-HasDirs fault stored new_v4 now (update index meta payload) =
      bind-keeps keeps_dirs
        (handle_update heed json path_of fault stored index meta payload new_v4 now)
        (λ u. pure (status u))
        (handle_update-keeps heed json path_of index keeps_dirs fault stored meta payload new_v4 now
          (get_or_create-KeepsDirs fault index) of_files
          (in_store-KeepsDirs (register_update heed stored meta (path_of new_v4) index now) index))
        (λ u s h x. x)
  handle_message-HasDirs fault stored new_v4 now (list_updates index) =
      bind-keeps keeps_dirs (handle_list_updates heed json path_of fault stored index)
        (λ l. pure (statuses l))
        (bind-keeps keeps_dirs (get_store heed json path_of fault index)
          (λ found.
            attempt (failing (fault join))
            >> spawn_blocking failed_join (
                lift (ok_or (unexisting_index index) found) >>= λ u.
                in_store heed json path_of u (list heed stored)))
          (get_store-KeepsDirs fault index)
          (λ found s h.
            bind-keeps keeps_dirs (attempt (failing (fault join)))
              (λ x. spawn_blocking failed_join (
                lift (ok_or (unexisting_index index) found) >>= λ u.
                in_store heed json path_of u (list heed stored)))
              (attempt-KeepsDirs (failing (fault join)))
              (λ x s₁ h₁.
                in_found-KeepsDirs index found (list heed stored)
                  (attempt (failing (fault join)) s₁).1)
              (get_store heed json path_of fault index s).1))
        (λ u s h x. x)
  handle_message-HasDirs fault stored new_v4 now (get_update index id) =
      bind-keeps keeps_dirs (handle_get_update heed json path_of fault stored index id)
        (λ u. pure (status u))
        (bind-keeps keeps_dirs (get_store heed json path_of fault index)
          (λ found. lift (ok_or (unexisting_index index) found) >>= λ u.
            in_store heed json path_of u (meta heed stored id) >>= λ result.
            lift (ok_or (unexisting_update id) result))
          (get_store-KeepsDirs fault index)
          (λ found s h.
            asked-KeepsDirs index found (meta heed stored id)
              (λ result. lift (ok_or (unexisting_update id) result)) (λ result s₁. refl)
              (get_store heed json path_of fault index s).1))
        (λ u s h x. x)
  handle_message-HasDirs fault stored new_v4 now (delete index) =
      bind-keeps keeps_dirs (handle_delete heed json path_of fault index) (λ u. pure nothing)
        (bind-keeps keeps_dirs (delete_store heed json path_of fault index) (λ x. pure tt)
          (delete_store-KeepsDirs fault index) (λ x s h y. y))
        (λ u s h x. x)
  handle_message-HasDirs fault stored new_v4 now (create index) =
      bind-keeps keeps_dirs (handle_create heed json path_of fault index) (λ u. pure nothing)
        (bind-keeps keeps_dirs (get_or_create heed json path_of fault index) (λ x. pure tt)
          (get_or_create-KeepsDirs fault index) (λ x s h y. y))
        (λ u s h x. x)
