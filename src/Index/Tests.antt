-- ===== src/Index/Tests.antt =====
-- Concrete calls of the functions of meilisearch-http/src/index.
use transplant.Base.{
  ℕ, ◌≡◌, ◌↔◌, refl, true, false, none, some, List, [], ◌∷◌, ◌++◌, map, String, ◌⊎◌,
}
use transplant.Base.Outcome.{ok, ◌>>=◌}
use transplant.Updates.{Processing, fail}
use transplant.Index.{retrieve_documents, fields_to_display}
use transplant.Index.Json.{Value, Document, string, array, end, field, nil, cons, lookup}
use transplant.Index.Fields.{retrieve_documents-pages}
use transplant.Index.Highlight.{highlight_record}
use transplant.Index.Highlight.Laws.{map_strings, marked, highlight_record-lookup}
use transplant.Index.Search.{
  SearchQuery, SearchResult, parse_facets, perform_search, build_search, hits_of, distribution_of,
}
use transplant.Index.Search.Laws.{ands_json, parse_facets_iff, perform_search-highlight}
use transplant.Index.Updates.{update_documents}
use transplant.Index.Engine.{engine, failed-atomic}
use transplant.Index.Toy.{ToyIndex, milli, analyzer, searching, updating, metadata}
use transplant.IndexActor as Indexing

abbrev doc : String → Document
doc title = field "title" (string title) end

abbrev index : ToyIndex
index = (some "title", doc "wolf" ∷ doc "fox" ∷ doc "bear" ∷ [])

retrieve_documents-pages_example : retrieve_documents milli index 0 2 none ≡ (do
  first ← retrieve_documents milli index 0 1 none
  second ← retrieve_documents milli index 1 1 none
  ok (first ++ second))
retrieve_documents-pages_example = retrieve_documents-pages milli index 0 1 1 none

abbrev filters : Value
filters = array (cons (string "genre:horror") (cons (array (cons (string "year:1999") nil)) nil))

parse_facets_iff_example :
    (parse_facets milli searching analyzer filters index index ≡ ok (some 2)) ↔ (
      (l : List (List String ⊎ String)) × (filters ≡ array (ands_json l))
      × (searching.from_array index index l ≡ ok (some 2)))
parse_facets_iff_example = parse_facets_iff milli searching analyzer index index filters (some 2)

highlight_record-lookup_example :
    lookup "title"
      (highlight_record analyzer (searching.matches "wolf") ("title" ∷ []) (doc "wolf"))
    ≡ some (map_strings (marked analyzer (searching.matches "wolf")) (string "wolf"))
unfolding lookup
highlight_record-lookup_example =
    highlight_record-lookup analyzer (searching.matches "wolf") ("title" ∷ []) (doc "wolf") "title"

abbrev query : SearchQuery
query = record {
  q = some "wolf";
  offset = none;
  limit = 20;
  attributes_to_retrieve = none;
  attributes_to_crop = none;
  crop_length = none;
  attributes_to_highlight = none;
  filters = none;
  matches = none;
  facet_filters = none;
  facet_distributions = none;
}

abbrev found : SearchResult ℕ
found = record {
  hits = doc "wolf" ∷ doc "fox" ∷ doc "bear" ∷ [];
  nb_hits = 1;
  exhaustive_nb_hits = false;
  query = "wolf";
  limit = 20;
  offset = 0;
  processing_time_ms = 3;
  facet_distributions = none;
}

perform_search-highlight_example :
    (txn : milli.Txn) × (search : searching.Search) × (ids : List ℕ) × (words : String)
    × (candidates : searching.Candidates) × (milli.read_txn index ≡ ok txn)
    × (build_search milli searching analyzer index txn
          (record query { attributes_to_highlight = none })
        ≡ ok search)
    × (searching.execute search ≡ ok (ids, words, candidates))
    × (perform_search milli searching analyzer 3 index
          (record query { attributes_to_highlight = some ("title" ∷ []) })
        ≡ ok (record found {
          hits =
              map (highlight_record analyzer (searching.matches words) ("title" ∷ [])) found.hits;
        }))
unfolding perform_search build_search hits_of distribution_of fields_to_display
perform_search-highlight_example =
    perform_search-highlight milli searching analyzer ("title" ∷ []) 3 index query {r = found} refl

abbrev toy : Indexing.Engine
toy = engine milli updating searching analyzer metadata (λ id. tt) 3

abbrev start : Indexing.State toy
start = record { loaded = λ u. true; dir_exists = λ u. true; index = λ u. index }

abbrev task : Processing (Indexing.Meta toy)
task = record {
  from = record {
    update_id = 4;
    meta = Indexing.documents_addition 0 tt none;
    enqueued_at = 1;
    index_uuid = 7;
  };
  started_processing_at = 2;
}

failed-atomic_example :
    (Indexing.handle_update toy Indexing.no_faults 3 task [] start).1.index 7 ≡ index
unfolding Indexing.handle_update Indexing.get Indexing.run_update update_documents
failed-atomic_example =
    failed-atomic milli updating searching analyzer metadata (λ id. tt) 3 Indexing.no_faults 3 task
      [] start {f = fail task "Invalid JSON" 3} refl refl 7
