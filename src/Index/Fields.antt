-- ===== src/Index/Fields.antt =====
-- Which fields and which documents are returned, meilisearch-http/src/index/mod.rs.
use transplant.Base.{
  ℕ, zero, suc, ◌+◌, ◌≡◌, refl, sym, ap, subst, ◌∙◌, ◌↔◌, ◌⊎◌, inl, inr, Bool, true, Bool-cases,
  Option, none, some, Option-cases, List, [], ◌∷◌, ◌++◌, map, String, drop, take, In, arith,
}
use transplant.Base.Outcome.{Outcome, ok, err, panicked, ◌>>=◌, Outcome-cases}
use transplant.Index.{
  Milli, filter_map, contains_id, retain, all_ids, displayed_ids, attributes_to_retrieve_ids,
  fields_to_display, collect, retrieve_documents,
}

contains_id-In : (l : List ℕ) (k : ℕ) → (contains_id l k ≡ true) ↔ In k l
contains_id-In [] k = (λ e. absurd (cc e), λ h. absurd h)
contains_id-In (a ∷ l) k = let rest = contains_id-In l k in ground (arith, rest)

retain-In :
    (test : ℕ → Bool) (l : List ℕ) (k : ℕ) → In k (retain test l) ↔ (In k l × (test k ≡ true))
retain-In test [] k = (λ h. absurd h, λ (h, e). absurd h)
retain-In test (a ∷ l) k =
    let rest = retain-In test l k in
    elim (Bool-cases (test a)) [
      | inl t ↦ rw t (
        λ h. elim h [ inl e ↦ (inl e, ap test e ∙ t) | inr i ↦ (inr (rest.0 i).0, (rest.0 i).1) ],
        λ (h, q). elim h [ inl e ↦ inl e | inr i ↦ inr (rest.1 (i, q)) ],
      )
      | inr t ↦ rw t (
        λ h. (inr (rest.0 h).0, (rest.0 h).1),
        λ (h, q). elim h [ inl e ↦ absurd (cc (t, q, e)) | inr i ↦ rest.1 (i, q) ],
      )
    ]

filter_map-In :
    {A : Type 0} (f : A → Option ℕ) (l : List A) (k : ℕ)
    → In k (filter_map f l) ↔ ((a : A) × In a l × (f a ≡ some k))
filter_map-In f [] k = (λ h. absurd h, λ (a, h, e). absurd h)
filter_map-In f (a ∷ l) k =
    let rest = filter_map-In f l k in
    elim (Option-cases (f a)) [
      | inl t ↦
          rw (t, In)
            (
              λ h. let (x, i, e) = rest.0 h in (x, inr i, e),
              λ (x, h, q). elim h [ inl e ↦ absurd (cc (t, q, e)) | inr i ↦ rest.1 (x, i, q) ],
            )
      | inr (b, t) ↦
          rw (t, In)
            (
              λ h. elim h [
                | inl e ↦ (a, inl refl, cc (t, e))
                | inr j ↦ let (x, i, e) = rest.0 j in (x, inr i, e)
              ],
              λ (x, h, q). elim h [ inl e ↦ inl (cc (t, q, e)) | inr i ↦ inr (rest.1 (x, i, q)) ],
            )
    ]

map-In :
    {A : Type 0} (f : A → ℕ) (l : List A) (k : ℕ) → In k (map f l) ↔ ((a : A) × In a l × (f a ≡ k))
map-In f [] k = (λ h. absurd h, λ (a, h, e). absurd h)
map-In f (a ∷ l) k =
    let rest = map-In f l k in
    (
      λ h. elim h [
        | inl e ↦ (a, inl refl, sym e)
        | inr j ↦ let (x, i, e) = rest.0 j in (x, inr i, e)
      ],
      λ (x, h, q). elim h [ inl e ↦ inl (cc (q, e)) | inr i ↦ inr (rest.1 (x, i, q)) ],
    )

zero_add : (n : ℕ) → zero + n ≡ n
zero_add n = omega arith

suc_add : (m n : ℕ) → suc m + n ≡ suc (m + n)
suc_add m n = omega arith

take-add : {A : Type 0} (m n : ℕ) (l : List A) → take (m + n) l ≡ take m l ++ take n (drop m l)
take-add zero n l = ap (λ k. take k l) (zero_add n)
take-add (suc m) zero [] = ap (λ k. take k []) (suc_add m zero)
take-add (suc m) (suc n) [] = ap (λ k. take k []) (suc_add m (suc n))
take-add (suc m) n (x ∷ l) =
    ap (λ k. take k (x ∷ l)) (suc_add m n) ∙ ap (λ t. x ∷ t) (take-add m n l)

drop-add : {A : Type 0} (m n : ℕ) (l : List A) → drop (m + n) l ≡ drop n (drop m l)
drop-add zero n l = ap (λ k. drop k l) (zero_add n)
drop-add (suc m) zero [] = ap (λ k. drop k []) (suc_add m zero)
drop-add (suc m) (suc n) [] = ap (λ k. drop k []) (suc_add m (suc n))
drop-add (suc m) n (x ∷ l) = ap (λ k. drop k (x ∷ l)) (suc_add m n) ∙ drop-add m n l

module _ (milli : Milli) where
  open milli use {Index, Txn, FieldsIdsMap, Obkv}

  collect-append :
      (shown : List ℕ) (fields : FieldsIdsMap) (l l' : List (Outcome String (ℕ × Obkv)))
      → collect milli shown fields (l ++ l')
        ≡ (do a ← collect milli shown fields l; b ← collect milli shown fields l'; ok (a ++ b))
  unfolding collect
  collect-append shown fields [] l' = ground arith
  collect-append shown fields (ok row ∷ l) l' =
      let rest = collect-append shown fields l l' in ground (arith, rest)
  collect-append shown fields (err e ∷ l) l' = refl
  collect-append shown fields (panicked m ∷ l) l' = refl

  -- Asking for `m + n` documents is asking for `m` and then for the `n` that come after them: the
  -- documents of the one call are those of the two, in their order, and where one of the two fails, the one call
  -- fails with the first failure.
  pub retrieve_documents-pages :
      (index : Index) (offset m n : ℕ) (attributes : Option (List String))
      → retrieve_documents milli index offset (m + n) attributes ≡ (do
        first ← retrieve_documents milli index offset m attributes
        second ← retrieve_documents milli index (offset + m) n attributes
        ok (first ++ second))
  unfolding retrieve_documents
  retrieve_documents-pages index offset m n attributes =
      elim (Outcome-cases (milli.read_txn index)) [
        | inr e ↦ ground (arith, e)
        | inl (txn, e) ↦ elim (Outcome-cases (milli.fields_ids_map txn)) [
          | inr f ↦ ground (arith, e, f)
          | inl (fields, f) ↦ elim (Outcome-cases (fields_to_display milli txn attributes fields)) [
            | inr d ↦ ground (arith, e, f, d)
            | inl (shown, d) ↦ elim (Outcome-cases (milli.range txn)) [
              | inr r ↦ ground (arith, e, f, d, r)
              | inl (rows, r) ↦
                  let split =
                    collect-append shown fields (take m (drop offset rows))
                      (take n (drop m (drop offset rows))) in
                  let joined = ap (collect milli shown fields) (take-add m n (drop offset rows)) in
                  let later =
                    ap (λ l. collect milli shown fields (take n l)) (drop-add offset m rows) in
                  ground (arith, e, f, d, r, split, joined, later)
            ]
          ]
        ]
      ]

  -- The field is displayed: the displayed fields are set and it is one of them, or they are not set
  -- and it is a field of the index.
  abbrev pub IsDisplayed : Txn → FieldsIdsMap → ℕ → Type 0
  IsDisplayed txn fields k =
      ((ids : List ℕ) × (milli.displayed_fields_ids txn ≡ ok (some ids)) × In k ids)
      ⊎ ((milli.displayed_fields_ids txn ≡ ok none)
          × ((name : String) × In (k, name) (milli.iter fields)))

  -- The field is asked for: by its name, or since no names are given.
  abbrev pub IsRequested : FieldsIdsMap → Option (List String) → ℕ → Type 0
  IsRequested fields none k = (name : String) × In (k, name) (milli.iter fields)
  IsRequested fields (some names) k =
      (name : String) × In name names × (milli.id fields name ≡ some k)

  all_ids-In :
      (fields : FieldsIdsMap) (k : ℕ)
      → In k (all_ids milli fields) ↔ ((name : String) × In (k, name) (milli.iter fields))
  all_ids-In fields k =
      let (from, to) = map-In (λ (id, name). id) (milli.iter fields) k in
      (
        λ h.
            let ((id, name), i, e) = from h in
            (name, subst (λ x. In {A = ℕ × String} (x, name) (milli.iter fields)) e i),
        λ (name, i). to ((k, name), i, refl),
      )

  IsRequested-In :
      (fields : FieldsIdsMap) (attributes : Option (List String)) (k : ℕ)
      → In k (attributes_to_retrieve_ids milli fields attributes) ↔ IsRequested fields attributes k
  IsRequested-In fields none k = all_ids-In fields k
  IsRequested-In fields (some names) k = filter_map-In (milli.id fields) names k

  IsDisplayed-In :
      (txn : Txn) (fields : FieldsIdsMap) (displayed : Option (List ℕ)) (k : ℕ)
      → milli.displayed_fields_ids txn ≡ ok displayed
      → In k (displayed_ids milli fields displayed) ↔ IsDisplayed txn fields k
  IsDisplayed-In txn fields none k e = (
    λ h. inr (e, (all_ids-In fields k).0 h),
    λ d. elim d [ inl (ids, f, i) ↦ absurd (cc (e, f)) | inr (f, i) ↦ (all_ids-In fields k).1 i ],
  )
  IsDisplayed-In txn fields (some ids) k e = (
    λ h. inl (ids, e, h),
    λ d. elim d [ inl (l, f, i) ↦ subst (In k) (cc (e, f)) i | inr (f, i) ↦ absurd (cc (e, f)) ],
  )

  -- When the fields to display are computed, a field is one of them exactly if it is displayed and
  -- asked for.
  pub fields_to_display-In :
      (txn : Txn) (attributes : Option (List String)) (fields : FieldsIdsMap) {shown : List ℕ}
      → fields_to_display milli txn attributes fields ≡ ok shown
      → (k : ℕ) → In k shown ↔ (IsDisplayed txn fields k × IsRequested fields attributes k)
  unfolding fields_to_display
  fields_to_display-In txn attributes fields {shown} h k =
      elim (Outcome-cases (milli.displayed_fields_ids txn)) [
        | inr e ↦ absurd (ground (arith, h, e))
        | inl (displayed, e) ↦
            let asked = attributes_to_retrieve_ids milli fields attributes in
            let shown_is : shown
                ≡ retain (contains_id asked) (displayed_ids milli fields displayed) =
              ground (arith, h, e) in
            let kept = retain-In (contains_id asked) (displayed_ids milli fields displayed) k in
            let listed = contains_id-In asked k in
            let wanted = IsRequested-In fields attributes k in
            let visible = IsDisplayed-In txn fields displayed k e in
            rw shown_is (
              λ h. let (i, q) = kept.0 h in (visible.0 i, wanted.0 (listed.0 q)),
              λ (d, r). kept.1 (visible.1 d, listed.1 (wanted.1 r)),
            )
      ]
