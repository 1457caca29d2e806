-- ===== src/Heed/Sorted.antt =====
-- A store that meets the interface: the listing itself, in ascending order. It shows that the laws
-- can hold, and the concrete runs of the witnesses use it.
use transplant.Base.{
  ◌≡◌, refl, true, Bool-cases, some, List, [], ◌∷◌, inl, inr, head?, last?, if◌then◌else◌, arith,
}
use transplant.Heed.{Key, Heed, lookup, Above, Ascending}
use transplant.Heed.Listing.{without, Ascending-without, lookup-without, Above-before}

module _ {K : Type 0} (key : Key K) {V : Type 0} where
  abbrev pub insert : K → V → List (K × V) → List (K × V)
  insert k v [] = (k, v) ∷ []
  insert k v ((j, w) ∷ l) =
      let rest = insert k v l in
      if key.same j k
      then (k, v) ∷ l
      else if key.before k j
      then (k, v) ∷ (j, w) ∷ l
      else (j, w) ∷ rest

  Above-insert :
      (i k : K) (v : V) (l : List (K × V))
      → key.before i k ≡ true
      → Above key i l
      → Above key i (insert k v l)
  Above-insert i k v [] b h = (b, tt)
  Above-insert i k v ((j, w) ∷ l) b h = ground (arith, Above-insert i k v l b h.1)

  pub Ascending-insert :
      (k : K) (v : V) (l : List (K × V)) → Ascending key l → Ascending key (insert k v l)
  Ascending-insert k v [] h = (tt, tt)
  Ascending-insert k v ((j, w) ∷ l) h = elim (Bool-cases (key.same j k)) [
    | inl e ↦ rw e (rw (← (key.same_iff j k).0 e) h)
    | inr n ↦ elim (Bool-cases (key.before k j)) [
      | inl b ↦ rw (n, b) ((b, Above-before key k j l b h.0), h)
      | inr c ↦
          rw (n, c)
            (
              Above-insert j k v l
                  (key.before_total k j (ground (arith, key.same_iff k j, key.same_iff j k)) c) h.0,
              Ascending-insert k v l h.1,
            )
    ]
  ]

  pub lookup-insert :
      (k i : K) (v : V) (l : List (K × V))
      → lookup key i (insert k v l) ≡ (if key.same k i then some v else lookup key i l)
  lookup-insert k i v [] = refl
  lookup-insert k i v ((j, w) ∷ l) =
      ground (arith, key.same_iff j k, key.same_iff k i, key.same_iff j i, lookup-insert k i v l)

abbrev pub sorted_heed : {K : Type 0} (key : Key K) → Heed key
sorted_heed {K} key = record {
  Database = λ V. (l : List (K × V)) × Ascending key l;
  empty = λ V. ([], tt);
  get = λ d k. lookup key k d.0;
  put = λ d k v. (insert key k v d.0, Ascending-insert key k v d.0 d.1);
  delete = λ d k. (without key k d.0, Ascending-without key k d.0 d.1);
  iter = λ d. d.0;
  first = λ d. head? d.0;
  last = λ d. last? d.0;
  get-empty = λ V k. refl;
  get-put = λ d k j v. lookup-insert key k j v d.0;
  get-delete = λ d k j. lookup-without key k j d.0 d.1;
  iter-Ascending = λ d. d.1;
  get-iter = λ d k. refl;
  first-iter = λ d. refl;
  last-iter = λ d. refl;
}
