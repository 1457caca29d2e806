-- ===== src/Index/Search/Laws.antt =====
-- What facet filters are accepted, and what highlighting changes of a search's result,
-- meilisearch-http/src/index/search.rs.
use transplant.Base.{
  ℕ, ◌≡◌, refl, sym, ap, ◌∙◌, ◌↔◌, Option, none, some, List, [], ◌∷◌, ◌++◌, map, String, ◌⊎◌, inl,
  inr, arith,
}
use mathlib.Core.List.{append_assoc, append-nil}
use transplant.Base.Outcome.{ok, ◌>>=◌, Outcome-cases, outcome_bind-ok}
use transplant.Index.{Milli, fields_to_display}
use transplant.Index.Json.{Value, Values, null, boolean, number, string, array, object, nil, cons}
use transplant.Index.Highlight.{Analyzer, highlight_record}
use transplant.Index.Search.{
  Engine, SearchQuery, SearchResult, parse_ors, parse_ands, parse_facets_array, parse_facets,
  build_search, hits_of, perform_search, unwrap,
}

-- The JSON of a conjunction of facets and of disjunctions of facets.
abbrev pub ors_json : List String → Values
ors_json [] = nil
ors_json (s ∷ l) = cons (string s) (ors_json l)

abbrev pub ands_json : List (List String ⊎ String) → Values
ands_json [] = nil
ands_json (inr s ∷ l) = cons (string s) (ands_json l)
ands_json (inl ors ∷ l) = cons (array (ors_json ors)) (ands_json l)

module _ (milli : Milli) (engine : Engine milli) (analyzer : Analyzer) where
  open milli use {Index, Txn, FieldsIdsMap, Obkv}

  parse_ors-json :
      (ors l : List String) → parse_ors milli engine analyzer ors (ors_json l) ≡ ok (ors ++ l)
  unfolding parse_ors
  parse_ors-json ors [] = ap (λ x. ok x) (sym (append-nil ors))
  parse_ors-json ors (s ∷ l) =
      parse_ors-json (ors ++ s ∷ []) l ∙ ap (λ x. ok x) (append_assoc ors (s ∷ []) l)

  parse_ands-json :
      (ands l : List (List String ⊎ String))
      → parse_ands milli engine analyzer ands (ands_json l) ≡ ok (ands ++ l)
  unfolding parse_ands
  parse_ands-json ands [] = ap (λ x. ok x) (sym (append-nil ands))
  parse_ands-json ands (inr s ∷ l) =
      parse_ands-json (ands ++ inr s ∷ []) l ∙ ap (λ x. ok x) (append_assoc ands (inr s ∷ []) l)
  parse_ands-json ands (inl ors ∷ l) =
      ap (λ r. r >>= λ o. parse_ands milli engine analyzer (ands ++ inl o ∷ []) (ands_json l))
        (parse_ors-json [] ors)
      ∙ parse_ands-json (ands ++ inl ors ∷ []) l
      ∙ ap (λ x. ok x) (append_assoc ands (inl ors ∷ []) l)

  parse_ors-ok :
      (ors : List String) (v : Values) {r : List String}
      → parse_ors milli engine analyzer ors v ≡ ok r
      → (l : List String) × (v ≡ ors_json l)
  unfolding parse_ors
  parse_ors-ok ors nil h = ([], refl)
  parse_ors-ok ors (cons (string s) v) h =
      let (l, e) = parse_ors-ok (ors ++ s ∷ []) v h in (s ∷ l, ap (cons (string s)) e)
  parse_ors-ok ors (cons null v) h = absurd (cc h)
  parse_ors-ok ors (cons (boolean b) v) h = absurd (cc h)
  parse_ors-ok ors (cons (number n) v) h = absurd (cc h)
  parse_ors-ok ors (cons (array a) v) h = absurd (cc h)
  parse_ors-ok ors (cons (object o) v) h = absurd (cc h)

  parse_ands-ok :
      (ands : List (List String ⊎ String)) (v : Values) {r : List (List String ⊎ String)}
      → parse_ands milli engine analyzer ands v ≡ ok r
      → (l : List (List String ⊎ String)) × (v ≡ ands_json l)
  unfolding parse_ands
  parse_ands-ok ands nil h = ([], refl)
  parse_ands-ok ands (cons (string s) v) h =
      let (l, e) = parse_ands-ok (ands ++ inr s ∷ []) v h in (inr s ∷ l, ap (cons (string s)) e)
  parse_ands-ok ands (cons (array a) v) {r} h =
      elim (Outcome-cases (parse_ors milli engine analyzer [] a)) [
        | inr e ↦ absurd (ground (arith, h, e))
        | inl (ors, e) ↦
            let later : parse_ands milli engine analyzer (ands ++ inl ors ∷ []) v ≡ ok r =
              ground (arith, h, e) in
            let (l, at) = parse_ands-ok (ands ++ inl ors ∷ []) v later in
            let (o, inner) = parse_ors-ok [] a e in
            (inl o ∷ l, ap (λ x. cons (array x) v) inner ∙ ap (cons (array (ors_json o))) at)
      ]
  parse_ands-ok ands (cons null v) h = absurd (cc h)
  parse_ands-ok ands (cons (boolean b) v) h = absurd (cc h)
  parse_ands-ok ands (cons (number n) v) h = absurd (cc h)
  parse_ands-ok ands (cons (object o) v) h = absurd (cc h)

  parse_facets-json :
      (index : Index) (txn : Txn) (l : List (List String ⊎ String))
      → parse_facets milli engine analyzer (array (ands_json l)) index txn
        ≡ engine.from_array txn index l
  unfolding parse_facets parse_facets_array
  parse_facets-json index txn l =
      ap (λ r. r >>= λ ands. engine.from_array txn index ands) (parse_ands-json [] l)

  parse_facets-ok :
      (index : Index) (txn : Txn) (v : Value) {c : Option engine.FacetCondition}
      → parse_facets milli engine analyzer v index txn ≡ ok c
      → (l : List (List String ⊎ String)) × (v ≡ array (ands_json l))
        × (engine.from_array txn index l ≡ ok c)
  unfolding parse_facets parse_facets_array
  parse_facets-ok index txn (array v) {c} h =
      elim (Outcome-cases (parse_ands milli engine analyzer [] v)) [
        | inr e ↦ absurd (ground (arith, h, e))
        | inl (ands, e) ↦
            let (l, at) = parse_ands-ok [] v e in
            let whole = ap (λ x. parse_facets milli engine analyzer (array x) index txn) at in
            (l, ap array at, sym (parse_facets-json index txn l) ∙ sym whole ∙ h)
      ]
  parse_facets-ok index txn null h = absurd (cc h)
  parse_facets-ok index txn (boolean b) h = absurd (cc h)
  parse_facets-ok index txn (number n) h = absurd (cc h)
  parse_facets-ok index txn (string s) h = absurd (cc h)
  parse_facets-ok index txn (object o) h = absurd (cc h)

  -- Facet filters are accepted, with a condition, exactly if they are the JSON of a list of facets and
  -- of lists of facets, and the condition is the one that is made of that list.
  pub parse_facets_iff :
      (index : Index) (txn : Txn) (v : Value) (c : Option engine.FacetCondition)
      → (parse_facets milli engine analyzer v index txn ≡ ok c) ↔ (
          (l : List (List String ⊎ String)) × (v ≡ array (ands_json l))
          × (engine.from_array txn index l ≡ ok c))
  parse_facets_iff index txn v c = (
    parse_facets-ok index txn v,
    λ (l, e, f).
        ap (λ x. parse_facets milli engine analyzer x index txn) e
        ∙ parse_facets-json index txn l
        ∙ f,
  )

  module _ (attributes : List String) where
    abbrev plain : SearchQuery → SearchQuery
    plain query = record query { attributes_to_highlight = none }

    abbrev marked : SearchQuery → SearchQuery
    marked query = record query { attributes_to_highlight = some attributes }

    hits_of-map :
        (words : engine.MatchingWords) (shown : List ℕ) (fields : FieldsIdsMap)
        (l : List (ℕ × Obkv))
        → hits_of milli engine analyzer (some attributes) words shown fields l ≡ (do
          hits ← hits_of milli engine analyzer none words shown fields l
          ok (map (highlight_record analyzer (engine.matches words) attributes) hits))
    unfolding hits_of
    hits_of-map words shown fields [] = refl
    hits_of-map words shown fields ((k, obkv) ∷ l) =
        let rest = hits_of-map words shown fields l in ground (arith, rest)

    same_search :
        (index : Index) (txn : Txn) (query : SearchQuery)
        → build_search milli engine analyzer index txn (marked query)
          ≡ build_search milli engine analyzer index txn (plain query)
    unfolding build_search
    same_search index txn query = refl

    -- When a search without highlighting returns, the search that the query builds was executed on a
    -- transaction of the index, and with attributes to highlight the same query returns the same result,
    -- but that each hit is highlighted by the words which that execution found.
    pub perform_search-highlight :
        (elapsed : ℕ) (index : Index) (query : SearchQuery) {r : SearchResult engine.Distribution}
        → perform_search milli engine analyzer elapsed index (plain query) ≡ ok r
        → (txn : Txn) × (search : engine.Search) × (ids : List ℕ) × (words : engine.MatchingWords)
          × (candidates : engine.Candidates) × (milli.read_txn index ≡ ok txn)
          × (build_search milli engine analyzer index txn (plain query) ≡ ok search)
          × (engine.execute search ≡ ok (ids, words, candidates))
          × (perform_search milli engine analyzer elapsed index (marked query)
              ≡ ok (record r {
                hits = map (highlight_record analyzer (engine.matches words) attributes) r.hits;
              }))
    unfolding perform_search
    perform_search-highlight elapsed index query h =
        outcome_bind-ok (milli.read_txn index) _ h (λ txn e₁ h₁.
          outcome_bind-ok (build_search milli engine analyzer index txn (plain query)) _ h₁
            (λ search e₂ h₂. outcome_bind-ok (engine.execute search) _ h₂ (λ found e₃ h₃.
              outcome_bind-ok (unwrap (milli.fields_ids_map txn)) _ h₃ (λ fields e₄ h₄.
                outcome_bind-ok (fields_to_display milli txn query.attributes_to_retrieve fields) _
                  h₄
                  (λ shown e₅ h₅. outcome_bind-ok (milli.documents txn found.0) _ h₅ (λ rows e₆ h₆.
                    outcome_bind-ok (hits_of milli engine analyzer none found.1 shown fields rows) _
                      h₆
                      (λ hits e₇ h₇.
                        let searched = same_search index txn query ∙ e₂ in
                        let lit = hits_of-map found.1 shown fields rows in
                        (
                          txn,
                          search,
                          found.0,
                          found.1,
                          found.2,
                          e₁,
                          e₂,
                          e₃,
                          ground (arith, e₁, searched, e₃, e₄, e₅, e₆, e₇, lit, h₇),
                        ))))))))
