-- ===== src/Routes/Search.antt =====
-- The search routes, meilisearch-http/src/routes/search.rs.
use transplant.Base.{◌≡◌, ap, some, String}
use transplant.Base.Outcome.{Outcome, ok, err, panicked}
use transplant.Heed.Keys.{Text}
use transplant.Index.Json.{Value}
use transplant.Index.Search.{SearchQuery, SearchResult}
use transplant.IndexController.{Call, Controller}
use transplant.Data.{search}
use transplant.Routes.{Crates, world, Route, answer, HttpResponse, ok_json, bad_request}
use transplant.Routes.Query.{SearchQueryGet, try_from}
use transplant.Routes.Query.Laws.{to_get, IsExpressible, try_from-to_get}

module _ (crates : Crates) {ResponseError : Type 0} where
  unfoldable pub search_with_post :
      Call
      → Text
      → SearchQuery
      → Route crates ResponseError (SearchResult crates.searching.Distribution)
  search_with_post c index_uid params =
      answer crates ok_json (search (world crates) c index_uid params)

  -- The two `match`es of `search_with_url_query`, on the query and on the answer.
  abbrev by_query :
      Call
      → Text
      → Controller (world crates)
      → Outcome String SearchQuery
      → Outcome ResponseError (HttpResponse (SearchResult crates.searching.Distribution))
        × Controller (world crates)
  by_query c index_uid s (ok query) =
      answer crates ok_json (search (world crates) c index_uid query) s
  by_query c index_uid s (err e) = (ok (bad_request e), s)
  by_query c index_uid s (panicked m) = (panicked m, s)

  unfoldable pub search_with_url_query :
      Call
      → Text
      → SearchQueryGet
      → Route crates ResponseError (SearchResult crates.searching.Distribution)
  search_with_url_query c index_uid params s =
      by_query c index_uid s (try_from crates.from_str params)

  -- A search that is asked for by a URL is answered as the same search that is posted, and leaves the same
  -- state, where the lists of the search have an element each, no name in them has a comma, and the JSON
  -- of the facet filters is read back as written.
  pub search_with_url_query-post :
      (c : Call) (index_uid : Text) (query : SearchQuery) (s : Controller (world crates))
      → ((v : Value)
          → query.facet_filters ≡ some v
          → crates.from_str (crates.value_to_string v) ≡ ok v)
      → IsExpressible query
      → search_with_url_query c index_uid (to_get crates.value_to_string query) s
        ≡ search_with_post c index_uid query s
  unfolding search_with_url_query search_with_post
  search_with_url_query-post c index_uid query s reads plain =
      let parsed = try_from-to_get crates.from_str crates.value_to_string query reads plain in
      ap (by_query c index_uid s) parsed
