-- ===== src/UpdateStore/Abort/Rows.antt =====
-- What a client finds in the tables after `abort_pendings`,
-- meilisearch-http/src/index_controller/update_store.rs.
use transplant.Base.{
  ℕ, ◌≡◌, refl, ap, ◌∙◌, sym, Option, none, some, List, [], ◌∷◌, drop, head?, arith, inl, inr,
  String, ◌==◌, if◌then◌else◌, Bool-cases, Option-cases,
}
use transplant.Base.Outcome.{ok}
use transplant.Heed.{Heed, Ascending, lookup}
use transplant.Heed.Keys.{nat_key}
use transplant.Heed.Listing.{lookup-Above}
use transplant.Updates.{Pending, Aborted, DateTime, abort}
use transplant.UpdateStore.{Faults, Tables, Store}
use transplant.UpdateStore.Outcomes.{Rows, rows}
use transplant.UpdateStore.Abort.{is_first, move_aborted, abort_pendings}
use transplant.UpdateStore.Abort.Consistency.{Ascending-drop}
use transplant.UpdateStore.Abort.Effect.{aborted_entries, move_each, abort_pendings-ok}

-- The content path of such an id.
abbrev pub kept_path : {M : Type 0} → Option String → Option (Pending M) → Option String
kept_path path none = path
kept_path path (some p) = none

-- In an ascending listing, all but the first entry.
lookup-tail :
    {M : Type 0} (k : ℕ) (l : List (ℕ × Pending M))
    → Ascending nat_key l
    → lookup nat_key k (drop 1 l) ≡ (if is_first (head? l) k then none else lookup nat_key k l)
lookup-tail k [] asc = refl
lookup-tail k ((id, q) ∷ l) asc = elim (Bool-cases (id == k)) [
  | inl e ↦
      let same : id ≡ k = ground (arith, e) in
      let absent : lookup nat_key k l ≡ none =
        ap (λ i. lookup nat_key i l) (sym same) ∙ lookup-Above nat_key id l asc.0 in
      ground (arith, e, absent)
  | inr e ↦ ground (arith, e)
]

module _ (heed : Heed nat_key) {M N E : Type 0} where
  open heed use {get, first, iter, get-put, get-delete}

  -- The rows of an id whose pending update, if it is one, was aborted.
  abbrev pub aborted_rows : Rows M N E → Option (Pending M) → DateTime → Rows M N E
  aborted_rows r none now = r
  aborted_rows r (some p) now = record r { row_pending = none; row_aborted = some (abort p now) }

  -- The update that is aborted under an id: the pending one, unless it is the first.
  abbrev pub chosen : Store heed M N E → ℕ → Option (Pending M)
  chosen s k = if is_first (first s.env.pending_meta) k then none else get s.env.pending_meta k

  module _ (now : ℕ → DateTime) where
    move_each-rows :
        (l : List (ℕ × Pending M)) (t : Tables heed M N E) (k : ℕ)
        → Ascending nat_key l
        → rows heed (move_each heed (aborted_entries now l) t) k
          ≡ aborted_rows (rows heed t k) (lookup nat_key k l) (now k)
    move_each-rows [] t k asc = refl
    move_each-rows ((id, q) ∷ l) t k asc =
        let a = abort q (now id) in
        let t' = move_aborted heed t (id, a) in
        let rest = move_each-rows l t' k asc.1 in
        let gone = get-delete t.pending_meta id k in
        let put = get-put t.aborted_meta id k a in
        elim (Bool-cases (id == k)) [
          | inl e ↦
              let same : id ≡ k = ground (arith, e) in
              let absent : lookup nat_key k l ≡ none =
                ap (λ i. lookup nat_key i l) (sym same) ∙ lookup-Above nat_key id l asc.0 in
              let here : rows heed t' k ≡ record (rows heed t k) {
                row_pending = none;
                row_aborted = some (abort q (now k));
              } =
                ground (arith, gone, put, e, same) in
              rest ∙ ap (λ o. aborted_rows (rows heed t' k) o (now k)) absent ∙ here ∙ rw e refl
          | inr e ↦
              let here : rows heed t' k ≡ rows heed t k = ground (arith, gone, put, e) in
              rest ∙ ap (λ r. aborted_rows r (lookup nat_key k l) (now k)) here ∙ rw e refl
        ]

    move_each-paths :
        (l : List (ℕ × Pending M)) (t : Tables heed M N E) (k : ℕ)
        → get (move_each heed (aborted_entries now l) t).pending k
          ≡ kept_path (get t.pending k) (lookup nat_key k l)
    move_each-paths [] t k = refl
    move_each-paths ((id, q) ∷ l) t k =
        let t' = move_aborted heed t (id, abort q (now id)) in
        let rest = move_each-paths l t' k in
        let gone = get-delete t.pending id k in
        elim (Option-cases (lookup nat_key k l)) [
          | inl e ↦ ground (arith, rest, gone, e)
          | inr (p, e) ↦ ground (arith, rest, gone, e)
        ]

  module _ (fault : Faults) (now : ℕ → DateTime) (s : Store heed M N E) where
    -- When aborting all pending updates returns, it returns the records of all of them but the first, in
    -- the order of their ids. For every id, if it had a pending update that was not the first one, then
    -- its pending row and its content path are gone and its aborted row is the record; else its rows and
    -- its content path are as they were. Nothing else of the store changes.
    pub abort_pendings-rows :
        {l : List (ℕ × Aborted M)}
        → (abort_pendings heed fault now s).0 ≡ ok l
        → let s' = (abort_pendings heed fault now s).1 in
          (l ≡ aborted_entries now (drop 1 (iter s.env.pending_meta)))
          × ((k : ℕ)
              → (rows heed s'.env k ≡ aborted_rows (rows heed s.env k) (chosen s k) (now k))
                × (get s'.env.pending k ≡ kept_path (get s.env.pending k) (chosen s k)))
          × (s' ≡ record s { env = s'.env })
    abort_pendings-rows h =
        let d = s.env.pending_meta in
        let t = s.env in
        let (listed, after) = abort_pendings-ok heed fault now s h in
        let asc = heed.iter-Ascending d in
        let env =
          ap (λ (x : Store heed M N E). x.env) after
          ∙ ap (λ (x : List (ℕ × Aborted M)). move_each heed x t) listed in
        let found : (k : ℕ) → lookup nat_key k (drop 1 (iter d)) ≡ chosen s k =
          λ k. lookup-tail k (iter d) asc ∙ ground (arith, heed.first-iter d, heed.get-iter d k) in
        (
          listed,
          λ k. (
            ap (λ x. rows heed x k) env
                ∙ move_each-rows now (drop 1 (iter d)) t k (Ascending-drop (iter d) asc)
                ∙ ap (λ o. aborted_rows (rows heed t k) o (now k)) (found k),
            ap (λ (x : Tables heed M N E). get x.pending k) env
                ∙ move_each-paths now (drop 1 (iter d)) t k
                ∙ ap (λ o. kept_path (get t.pending k) o) (found k),
          ),
          after
              ∙ ap (λ (x : Tables heed M N E). record s { env = x })
                  (sym (ap (λ (x : Store heed M N E). x.env) after)),
        )
