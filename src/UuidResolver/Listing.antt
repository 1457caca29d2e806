-- ===== src/UuidResolver/Listing.antt =====
-- What `list` returns, meilisearch-http/src/index_controller/uuid_resolver.rs.
use transplant.Base.{
  ◌≡◌, refl, ap, ◌∙◌, some, List, [], ◌∷◌, arith, Option-cases, inl, inr, In, ◌↔◌,
}
use transplant.Base.Outcome.{ok}
use transplant.Heed.{Heed}
use transplant.Heed.Keys.{Text, text_key}
use transplant.Heed.Laws.{In-iter, get-of-In}
use transplant.Updates.{Uuid}
use transplant.UuidResolver.{
  UuidBytes, Bytes, no_faults, Store, list_uuids, handle_get, handle_list, entries,
}
use transplant.UuidResolver.Laws.{IsSound, handle_get-some, handle_get-none}

pair_eq : {A B : Type 0} {a a' : A} {b b' : B} → a ≡ a' → b ≡ b' → ◌≡◌ {A = A × B} (a, b) (a', b')
pair_eq p q = rw (p, q) refl

module _ (heed_store : Heed text_key) (uuids : UuidBytes) where
  open heed_store use {get, iter}
  open uuids use {as_bytes, from_slice}

  as_bytes_inj : (u v : Uuid) → as_bytes u ≡ as_bytes v → u ≡ v
  as_bytes_inj u v h =
      ground (arith, uuids.from_slice-as_bytes u, uuids.from_slice-as_bytes v, ap from_slice h)

  -- Every row of the listing holds the bytes of a uuid.
  abbrev AreUuids : List (Text × Bytes) → Type 0
  AreUuids [] = Unit
  AreUuids ((name, found) ∷ l) = ((u : Uuid) × (found ≡ as_bytes u)) × AreUuids l

  AreUuids-of :
      (l : List (Text × Bytes))
      → ((name : Text) (found : Bytes) → In (name, found) l → (u : Uuid) × (found ≡ as_bytes u))
      → AreUuids l
  AreUuids-of [] h = tt
  AreUuids-of ((name, found) ∷ l) h =
      (h name found (inl refl), AreUuids-of l (λ n f i. h n f (inr i)))

  entries-In :
      (l : List (Text × Bytes))
      → AreUuids l
      → (es : List (Text × Uuid)) × (entries heed_store uuids no_faults l ≡ ok es)
        × ((name : Text) (u : Uuid) → In (name, u) es ↔ In (name, as_bytes u) l)
  unfolding entries
  entries-In [] h = ([], refl, λ name u. (λ i. i, λ i. i))
  entries-In ((n, found) ∷ l) ((v, e), h) =
      let (es, same, agree) = entries-In l h in
      (
        (n, v) ∷ es,
        rw (e, uuids.from_slice-as_bytes v, same) refl,
        λ name u. (
          λ i. elim i [
            | inl p ↦ inl (rw (e, ap (λ q. q.0) p, ap (λ q. q.1) p) refl)
            | inr j ↦ inr ((agree name u).0 j)
          ],
          λ i. elim i [
            | inl p ↦ inl (pair_eq (ap (λ q. q.0) p) (as_bytes_inj u v (ap (λ q. q.1) p ∙ e)))
            | inr j ↦ inr ((agree name u).1 j)
          ],
        ),
      )

  -- A name that `get` knows has a row with its uuid.
  row_of_get :
      (d : Store heed_store uuids)
      → IsSound heed_store uuids d
      → (name : Text) (u : Uuid) → (handle_get heed_store uuids no_faults name d).0 ≡ ok u
      → get d name ≡ some (as_bytes u)
  row_of_get d good name u h = elim (Option-cases (get d name)) [
    | inl e ↦ absurd (ground (arith, handle_get-none heed_store uuids name d e, h))
    | inr (found, e) ↦
        let (v, is_v) = (good name found e).1 in
        let known = handle_get-some heed_store uuids name v d (rw (e, is_v) refl) in
        let same : v ≡ u = ground (arith, known, h) in rw (e, is_v, same) refl
  ]

  -- When no call fails and every row is under a well formed name and holds the bytes of a uuid,
  -- `list` returns, and a pair of a name and a uuid is in the list exactly when `get` of the
  -- name returns the uuid.
  pub list-get :
      (d : Store heed_store uuids)
      → IsSound heed_store uuids d
      → (es : List (Text × Uuid)) × ((handle_list heed_store uuids no_faults d).0 ≡ ok es)
        × ((name : Text) (u : Uuid)
            → In (name, u) es ↔ ((handle_get heed_store uuids no_faults name d).0 ≡ ok u))
  unfolding handle_list list_uuids
  list-get d good =
      let rows =
        AreUuids-of (iter d) (λ n f i. (good n f (get-of-In text_key heed_store d n f i)).1) in
      let (es, same, agree) = entries-In (iter d) rows in
      (
        es,
        same,
        λ name u. (
          λ i.
              handle_get-some heed_store uuids name u d
                (get-of-In text_key heed_store d name (as_bytes u) ((agree name u).0 i)),
          λ h.
              (agree name u).1
                (In-iter text_key heed_store d name (as_bytes u) (row_of_get d good name u h)),
        ),
      )
