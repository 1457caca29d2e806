-- ===== src/Routes/Tests.antt =====
-- Concrete requests to the routes of meilisearch-http/src/routes.
use transplant.Base.{◌≡◌, refl, none, some, List, [], ◌∷◌, String}
use transplant.Base.Outcome.{ok}
use transplant.Heed.Keys.{Text}
use transplant.Index.Json.{Value, null}
use transplant.Index.Search.{SearchQuery}
use transplant.Index.Toy.{milli, updating}
use transplant.Index.Updates.{configure}
use transplant.IndexController.Laws.{quiet}
use transplant.Routes.Query.Laws.{to_get, comma_free}
use transplant.Routes.Search.{search_with_url_query, search_with_post, search_with_url_query-post}
use transplant.Routes.Settings.{
  displayed_attributes, searchable_attributes, attributes_for_faceting, configure-routes,
}
use transplant.Index.{cleared}
use transplant.Routes.Toy.{crates, start}

abbrev ab : Text
ab = 97 ∷ 98 ∷ []

abbrev query : SearchQuery
query = record {
  q = some "wolf";
  offset = some 3;
  limit = 5;
  attributes_to_retrieve = some ("title" ∷ "body" ∷ []);
  attributes_to_crop = none;
  crop_length = none;
  attributes_to_highlight = some ("title" ∷ []);
  filters = none;
  matches = none;
  facet_filters = some null;
  facet_distributions = none;
}

reads :
    (v : Value) → query.facet_filters ≡ some v → crates.from_str (crates.value_to_string v) ≡ ok v
reads v e = cc e

search_with_url_query-post_example :
    search_with_url_query crates {ResponseError = String} quiet ab
      (to_get crates.value_to_string query)
      start
    ≡ search_with_post crates quiet ab query start
unfolding comma_free
search_with_url_query-post_example =
    search_with_url_query-post crates quiet ab query start reads ((refl, refl), tt, refl, tt)

configure-routes_example :
    let told = configure milli updating in
    ((l : List String)
      → told (displayed_attributes.only (some (some l))) [] ≡ "set displayed_fields" ∷ [])
    × (told (displayed_attributes.only (some none)) [] ≡ "reset displayed_fields" ∷ [])
    × ((l : List String)
        → told (searchable_attributes.only (some (some l))) [] ≡ "set searchable_fields" ∷ [])
    × (told (searchable_attributes.only (some none)) [] ≡ "reset searchable_fields" ∷ [])
    × ((l : List (String × String))
        → told (attributes_for_faceting.only (some (some l))) [] ≡ "set faceted_fields" ∷ [])
    × (told (attributes_for_faceting.only (some none)) [] ≡ "set faceted_fields" ∷ [])
    × (told cleared []
        ≡ "reset criteria" ∷ "set faceted_fields" ∷ "reset displayed_fields"
          ∷ "reset searchable_fields" ∷ [])
configure-routes_example = configure-routes crates []
