-- ===== src/Index/Search.antt =====
-- `perform_search` and its facet filters, meilisearch-http/src/index/search.rs.
pub mod Laws
use transplant.Base.{
  ℕ, Bool, true, false, not, ◌&&◌, Option, none, some, List, [], ◌∷◌, ◌++◌, String, ◌⊎◌, inl, inr,
  if◌then◌else◌, str_eq, ◌<>◌,
}
use transplant.Base.Outcome.{Outcome, ok, err, panicked, ◌>>=◌}
use transplant.Index.{Milli, fields_to_display}
use transplant.Index.Json.{
  Value, Values, Fields, Document, null, boolean, number, string, array, object, nil, cons,
}
use transplant.Index.Highlight.{Analyzer, highlight_record}

abbrev pub default_search_limit : ℕ
default_search_limit = 20

pub record SearchQuery : Type 0 where
  pub q : Option String
  pub offset : Option ℕ
  pub limit : ℕ
  pub attributes_to_retrieve : Option (List String)
  pub attributes_to_crop : Option (List String)
  pub crop_length : Option ℕ
  pub attributes_to_highlight : Option (List String)
  pub filters : Option String
  pub matches : Option Bool
  pub facet_filters : Option Value
  pub facet_distributions : Option (List String)

pub record SearchResult (Distribution : Type 0) : Type 0 where
  pub hits : List Document
  pub nb_hits : ℕ
  pub exhaustive_nb_hits : Bool
  pub query : String
  pub limit : ℕ
  pub offset : ℕ
  pub processing_time_ms : ℕ
  pub facet_distributions : Option Distribution

-- What search.rs calls of the engine: the search, which is built and executed, the conditions on
-- facets, and the count of the facets' values.
pub record Engine (milli : Milli) : Type 1 where
  pub Search : Type 0
  pub FacetCondition : Type 0
  pub MatchingWords : Type 0
  pub Candidates : Type 0
  pub FacetCount : Type 0
  pub Distribution : Type 0
  pub search : milli.Txn → Search
  pub set_query : String → Search → Search
  pub set_limit : ℕ → Search → Search
  pub set_offset : ℕ → Search → Search
  pub set_facet_condition : FacetCondition → Search → Search
  pub execute : Search → Outcome String (List ℕ × MatchingWords × Candidates)
  pub matches : MatchingWords → String → Bool
  pub len : Candidates → ℕ
  -- `FacetCondition::from_array`; on the left, the alternatives of a disjunction.
  pub from_array :
      milli.Txn → milli.Index → List (List String ⊎ String) → Outcome String (Option FacetCondition)
  pub facets_distribution : milli.Txn → FacetCount
  pub set_facets : List String → FacetCount → FacetCount
  pub set_candidates : Candidates → FacetCount → FacetCount
  pub count : FacetCount → Outcome String Distribution
  -- `{:?}` of a JSON value.
  pub debug : Value → String

abbrev pub all_but_star : List String → Bool
all_but_star [] = true
all_but_star (f ∷ l) = not (str_eq f "*") && all_but_star l

abbrev pub unwrap_or : {A : Type 0} → A → Option A → A
unwrap_or d none = d
unwrap_or d (some a) = a

-- `Result::unwrap`.
abbrev pub unwrap : {A : Type 0} → Outcome String A → Outcome String A
unwrap (ok a) = ok a
unwrap (err e) = panicked e
unwrap (panicked m) = panicked m

module _ (milli : Milli) (engine : Engine milli) (analyzer : Analyzer) where
  open milli use {Index, Txn, FieldsIdsMap, Obkv}
  open engine use {Search, FacetCondition, MatchingWords, Candidates, Distribution}

  -- The inner loop of `parse_facets_array`.
  unfoldable pub parse_ors : List String → Values → Outcome String (List String)
  parse_ors ors nil = ok ors
  parse_ors ors (cons (string s) l) = parse_ors (ors ++ s ∷ []) l
  parse_ors ors (cons v l) =
      err ("Invalid facet expression, expected String, found: " <> engine.debug v)

  unfoldable pub parse_ands :
      List (List String ⊎ String) → Values → Outcome String (List (List String ⊎ String))
  parse_ands ands nil = ok ands
  parse_ands ands (cons (string s) l) = parse_ands (ands ++ inr s ∷ []) l
  parse_ands ands (cons (array arr) l) = do
    ors ← parse_ors [] arr
    parse_ands (ands ++ inl ors ∷ []) l
  parse_ands ands (cons v l) =
      err ("Invalid facet expression, expected String or [String], found: " <> engine.debug v)

  unfoldable pub parse_facets_array : Txn → Index → Values → Outcome String (Option FacetCondition)
  parse_facets_array txn index arr = do ands ← parse_ands [] arr; engine.from_array txn index ands

  unfoldable pub parse_facets : Value → Index → Txn → Outcome String (Option FacetCondition)
  parse_facets (array arr) index txn = parse_facets_array txn index arr
  parse_facets v index txn =
      err ("Invalid facet expression, expected Array, found: " <> engine.debug v)

  -- The search as the query asks for it.
  unfoldable pub build_search : Index → Txn → SearchQuery → Outcome String Search
  build_search index txn query = do
    let queried : Search = elim query.q [
      | some q ↦ engine.set_query q (engine.search txn)
      | none ↦ engine.search txn
    ]
    let paged = engine.set_offset (unwrap_or 0 query.offset) (engine.set_limit query.limit queried)
    elim query.facet_filters [
      | none ↦ ok paged
      | some facets ↦ do
        condition ← parse_facets facets index txn
        ok (elim condition [ some c ↦ engine.set_facet_condition c paged | none ↦ paged ])
    ]

  -- The loop over the documents found.
  unfoldable pub hits_of :
      Option (List String)
      → MatchingWords
      → List ℕ
      → FieldsIdsMap
      → List (ℕ × Obkv)
      → Outcome String (List Document)
  hits_of attributes words shown fields [] = ok []
  hits_of attributes words shown fields ((k, obkv) ∷ l) = do
    found ← unwrap (milli.obkv_to_json shown fields obkv)
    let hit : Document = elim attributes [
      | some a ↦ highlight_record analyzer (engine.matches words) a found
      | none ↦ found
    ]
    rest ← hits_of attributes words shown fields l
    ok (hit ∷ rest)

  unfoldable pub distribution_of :
      Txn → Candidates → Option (List String) → Outcome String (Option Distribution)
  distribution_of txn candidates none = ok none
  distribution_of txn candidates (some fields) = do
    let count = engine.facets_distribution txn
    let narrowed = if all_but_star fields then engine.set_facets fields count else count
    d ← engine.count (engine.set_candidates candidates narrowed)
    ok (some d)

  -- `elapsed` is the time that the search took.
  unfoldable pub perform_search :
      ℕ → Index → SearchQuery → Outcome String (SearchResult Distribution)
  perform_search elapsed index query = do
    txn ← milli.read_txn index
    search ← build_search index txn query
    (documents_ids, matching_words, candidates) ← engine.execute search
    fields ← unwrap (milli.fields_ids_map txn)
    shown ← fields_to_display milli txn query.attributes_to_retrieve fields
    rows ← milli.documents txn documents_ids
    documents ← hits_of query.attributes_to_highlight matching_words shown fields rows
    distribution ← distribution_of txn candidates query.facet_distributions
    ok (record {
      hits = documents;
      nb_hits = engine.len candidates;
      exhaustive_nb_hits = false;
      query = unwrap_or "" query.q;
      limit = query.limit;
      offset = unwrap_or 0 query.offset;
      processing_time_ms = elapsed;
      facet_distributions = distribution;
    })
