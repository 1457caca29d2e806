-- ===== src/UpdateActor/Files.antt =====
-- The update files of meilisearch-http/src/index_controller/update_actor.rs: a registration
-- writes one and leaves the others, so that the loop of the store finds them.
use transplant.Base.{
  ℕ, ◌+◌, ◌≡◌, ◌≢◌, inl, inr, none, List, [], ◌∷◌, ◌++◌, arith, String, Option-cases, eq_iff,
}
use transplant.Base.Outcome.{ok}
use transplant.Base.Exec.{◌>>◌, pure, attempt}
use transplant.Base.Keeps.{Order, bind-keeps}
use transplant.Heed.{Heed}
use transplant.Heed.Keys.{nat_key}
use transplant.Updates.{Uuid}
use transplant.UpdateStore.{Content}
use transplant.UpdateActor.{
  Faults, Json, State, Chunk, bytes, broken, write_payload, check_payload, receive_payload, over,
  put_file, failing, write_chunk, open_file, flush, seek, content_of,
}

module _ (heed : Heed nat_key) (json : Json) (path_of : Uuid → String) {M N E : Type 0} where
  -- Every file that was there is there.
  abbrev pub IsGrown : State heed M N E → State heed M N E → Type 0
  IsGrown s s' = (p : String) → s.files p ≢ none → s'.files p ≢ none

  pub grown : Order IsGrown
  grown = record { same = λ s p h. h; next = λ s s' s'' f g p h. g p (f p h) }

  put_file-IsGrown :
      (path : String) (c : Content) (s : State heed M N E)
      → IsGrown s (put_file heed json path_of path c s)
  put_file-IsGrown path c s p h = ground (arith, h)

  put_file-there :
      (path : String) (c : Content) (s : State heed M N E)
      → (put_file heed json path_of path c s).files path ≢ none
  put_file-there path c s = ground (arith, eq_iff path path)

  write_payload-IsGrown :
      (fault : Faults) (path : String) (old : Content) (n : ℕ) (written : Content) (l : List Chunk)
      (s : State heed M N E)
      → IsGrown s (write_payload heed json path_of fault path old n written l s).1
  unfolding write_payload
  write_payload-IsGrown fault path old n written [] s = λ p h. h
  write_payload-IsGrown fault path old n written (broken e ∷ l) s = λ p h. h
  write_payload-IsGrown fault path old n written (bytes b ∷ l) s =
      elim (Option-cases (fault (write_chunk n))) [
        | inr (c, e) ↦ rw e (λ p h. h)
        | inl e ↦
            let c = over (written ++ b) old in
            let s' = put_file heed json path_of path c s in
            rw e (λ p h.
              write_payload-IsGrown fault path old (n + 1) (written ++ b) l s' p
                (put_file-IsGrown path c s p h))
      ]

  -- What is done after the file is opened, which the payload is written to.
  pub receive_payload-IsGrown :
      (fault : Faults) (new_v4 : Uuid) (l : List Chunk) (s : State heed M N E) {c : Content}
      → (receive_payload heed json path_of fault new_v4 l s).0 ≡ ok c
      → IsGrown s (receive_payload heed json path_of fault new_v4 l s).1
        × ((receive_payload heed json path_of fault new_v4 l s).1.files (path_of new_v4) ≢ none)
  unfolding receive_payload
  receive_payload-IsGrown fault new_v4 l s h = elim (Option-cases (fault open_file)) [
    | inr (c, e) ↦ absurd (ground (arith, h, e))
    | inl e ↦
        let path = path_of new_v4 in
        let old = content_of (s.files path) in
        let s₁ = put_file heed json path_of path old s in
        let kept =
          bind-keeps grown (write_payload heed json path_of fault path old 0 [] l)
            (λ content.
              attempt (failing (fault flush)) >> (attempt (failing (fault seek)) >> pure content))
            (write_payload-IsGrown fault path old 0 [] l) (λ content s' q p n. ground (arith, n))
            s₁ in
        rw e
          (λ p n. kept p (put_file-IsGrown path old s p n), kept path (put_file-there path old s))
  ]

  pub check_payload-files :
      (fault : Faults) (content : Content) (s : State heed M N E)
      → (check_payload heed json path_of fault content s).1.files ≡ s.files
  unfolding check_payload
  check_payload-files fault content s = ground arith
