-- ===== src/Routes/Query/Laws.antt =====
-- A search written as the parameters of a URL is read back, meilisearch-http/src/routes/search.rs.
use transplant.Base.{
  ◌≡◌, refl, ap, ◌∙◌, Bool, true, false, Option, none, some, List, [], ◌∷◌, String, ◌<>◌, arith,
  if◌then◌else◌,
}
use Prim.Native.String as Str
use Prim.Native.String.append
use transplant.Base.Outcome.{Outcome, ok, ◌>>=◌}
use transplant.Index.Json.{Value}
use transplant.Index.Search.{SearchQuery}
use transplant.Routes.Query.{SearchQueryGet, is_comma, split, map_option, parse_filters, try_from}

-- No comma is in the text.
unfoldable pub comma_free : String → Bool
comma_free Str.[] = true
comma_free (Str.◌∷◌ c s) = let rest = comma_free s in if is_comma c then false else rest

-- The texts, with a comma between any two.
unfoldable pub join : List String → String
join [] = ""
join (s ∷ []) = s
join (s ∷ t ∷ l) = s <> ("," <> join (t ∷ l))

split-one : (s : String) → comma_free s ≡ true → split s ≡ s ∷ []
unfolding split comma_free
split-one Str.[] h = refl
split-one (Str.◌∷◌ c s) h = let rest = split-one s (ground (arith, h)) in ground (arith, h, rest)

split-append : (s t : String) → comma_free s ≡ true → split (s <> ("," <> t)) ≡ s ∷ split t
unfolding split comma_free
split-append Str.[] t h =
    ap split (append.nil ("," <> t))
    ∙ ap split (append.cons _ "" t)
    ∙ ap (λ x. "" ∷ split x) (append.nil t)
split-append (Str.◌∷◌ c s) t h =
    let rest = split-append s t (ground (arith, h)) in
    ap split (append.cons c s ("," <> t)) ∙ ground (arith, h, rest)

-- The texts can be told apart in the URL: there is one at least, and none has a comma.
abbrev pub IsPlain : List String → Type 0
IsPlain [] = ⊥
IsPlain (s ∷ []) = comma_free s ≡ true
IsPlain (s ∷ t ∷ l) = (comma_free s ≡ true) × IsPlain (t ∷ l)

split-join : (l : List String) → IsPlain l → split (join l) ≡ l
unfolding join
split-join [] h = absurd h
split-join (s ∷ []) h = split-one s h
split-join (s ∷ t ∷ l) (free, h) =
    split-append s (join (t ∷ l)) free ∙ ap (λ r. s ∷ r) (split-join (t ∷ l) h)

abbrev pub IfPlain : Option (List String) → Type 0
IfPlain none = Unit {0}
IfPlain (some l) = IsPlain l

joined : (o : Option (List String)) → IfPlain o → map_option split (map_option join o) ≡ o
joined none h = refl
joined (some l) h = ap (λ x. some x) (split-join l h)

-- The parameters of a URL that ask for a search.
unfoldable pub to_get : (Value → String) → SearchQuery → SearchQueryGet
to_get to_string query = record {
  q = query.q;
  offset = query.offset;
  limit = some query.limit;
  attributes_to_retrieve = map_option join query.attributes_to_retrieve;
  attributes_to_crop = map_option join query.attributes_to_crop;
  crop_length = query.crop_length;
  attributes_to_highlight = map_option join query.attributes_to_highlight;
  filters = query.filters;
  matches = query.matches;
  facet_filters = map_option to_string query.facet_filters;
  facet_distributions = map_option join query.facet_distributions;
}

-- Each list of the search has an element, and no element has a comma.
abbrev pub IsExpressible : SearchQuery → Type 0
IsExpressible query =
    IfPlain query.attributes_to_retrieve
    × IfPlain query.attributes_to_crop
    × IfPlain query.attributes_to_highlight
    × IfPlain query.facet_distributions

read_filters :
    (from_str : String → Outcome String Value) (to_string : Value → String)
    → (o : Option Value) → ((v : Value) → o ≡ some v → from_str (to_string v) ≡ ok v)
    → parse_filters from_str (map_option to_string o) ≡ ok o
read_filters from_str to_string none reads = refl
read_filters from_str to_string (some v) reads = ap (λ r. r >>= λ v. ok (some v)) (reads v refl)

-- A search whose lists have an element each and whose names have no comma is read back from the
-- parameters of a URL that ask for it, where the JSON of its facet filters is read back as written.
pub try_from-to_get :
    (from_str : String → Outcome String Value) (to_string : Value → String) (query : SearchQuery)
    → ((v : Value) → query.facet_filters ≡ some v → from_str (to_string v) ≡ ok v)
    → IsExpressible query
    → try_from from_str (to_get to_string query) ≡ ok query
unfolding try_from to_get
try_from-to_get from_str to_string query reads (retrieved, cropped, marked, counted) =
    let filters : parse_filters from_str (map_option to_string query.facet_filters)
        ≡ ok query.facet_filters =
      read_filters from_str to_string query.facet_filters reads in
    rw
      (
        filters,
        joined query.attributes_to_retrieve retrieved,
        joined query.attributes_to_crop cropped,
        joined query.attributes_to_highlight marked,
        joined query.facet_distributions counted,
      )
      refl
