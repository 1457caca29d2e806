-- ===== src/Routes/Query.antt =====
-- The parameters of a search in a URL, meilisearch-http/src/routes/search.rs.
pub mod Laws
use transplant.Base.{
  ℕ, ◌≡◌, refl, sym, ap, ◌∙◌, Bool, true, false, Bool-cases, Option, none, some, List, [], ◌∷◌,
  String, ◌<>◌, arith, ◌==◌, if◌then◌else◌, inl, inr,
}
use Prim.Native.Char.{Char, code}
use Prim.Native.String as Str
use Prim.Native.String.append
use transplant.Base.Outcome.{Outcome, ok, err, panicked, ◌>>=◌}
use transplant.Index.Json.{Value}
use transplant.Index.Search.{SearchQuery, default_search_limit, unwrap_or}

pub record SearchQueryGet : Type 0 where
  pub q : Option String
  pub offset : Option ℕ
  pub limit : Option ℕ
  pub attributes_to_retrieve : Option String
  pub attributes_to_crop : Option String
  pub crop_length : Option ℕ
  pub attributes_to_highlight : Option String
  pub filters : Option String
  pub matches : Option Bool
  pub facet_filters : Option String
  pub facet_distributions : Option String

abbrev pub is_comma : Char → Bool
is_comma c = code c == 44

abbrev before_head : Char → List String → List String
before_head c [] = (Str.◌∷◌ c "") ∷ []
before_head c (s ∷ l) = (Str.◌∷◌ c s) ∷ l

-- `split(',')`.
unfoldable pub split : String → List String
split Str.[] = "" ∷ []
split (Str.◌∷◌ c s) = let rest = split s in if is_comma c then "" ∷ rest else before_head c rest

abbrev pub map_option : {A B : Type 0} → (A → B) → Option A → Option B
map_option f none = none
map_option f (some a) = some (f a)

module _ (from_str : String → Outcome String Value) where
  abbrev pub parse_filters : Option String → Outcome String (Option Value)
  parse_filters none = ok none
  parse_filters (some f) = do v ← from_str f; ok (some v)

  unfoldable pub try_from : SearchQueryGet → Outcome String SearchQuery
  try_from other = do
    filters ← parse_filters other.facet_filters
    ok (record {
      q = other.q;
      offset = other.offset;
      limit = unwrap_or default_search_limit other.limit;
      attributes_to_retrieve = map_option split other.attributes_to_retrieve;
      attributes_to_crop = map_option split other.attributes_to_crop;
      crop_length = other.crop_length;
      attributes_to_highlight = map_option split other.attributes_to_highlight;
      filters = other.filters;
      matches = other.matches;
      facet_filters = filters;
      facet_distributions = map_option split other.facet_distributions;
    })
