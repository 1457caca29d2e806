-- ===== src/Index/Toy.antt =====
-- A small engine for the tests of what is built on meilisearch-http/src/index: its index is the list of
-- its documents with two fields, of which only the first is displayed, and its update of the documents always
-- fails. Models no file of the repository.
use transplant.Base.{
  ℕ, refl, true, Option, none, some, List, [], ◌∷◌, map, String, str_eq, length, if◌then◌else◌,
}
use transplant.Base.Outcome.{ok, err}
use transplant.Index.{Milli}
use transplant.Index.Json.{Document}
use transplant.Index.Highlight.{Analyzer}
use transplant.Index.Search as Searching
use transplant.Index.Updates.{Updating}
use transplant.Index.Engine.{Metadata}

abbrev field_id : String → Option ℕ
field_id name = if str_eq name "title" then some 0 else if str_eq name "body" then some 1 else none

-- The primary key and the documents.
abbrev pub ToyIndex : Type 0
ToyIndex = Option String × List Document

abbrev pub milli : Milli
milli = record {
  Index = ToyIndex;
  Txn = ToyIndex;
  FacetType = Unit {0};
  Criterion = Unit {0};
  FieldsIdsMap = Unit {0};
  ExternalIds = Unit {0};
  Obkv = Document;
  read_txn = λ i. ok i;
  displayed_fields = λ t. ok (some ("title" ∷ []));
  searchable_fields = λ t. ok none;
  faceted_fields = λ t. ok [];
  criteria = λ t. ok [];
  facet_type_to_string = λ t. "string";
  criterion_to_string = λ t. "typo";
  fields_ids_map = λ t. ok tt;
  displayed_fields_ids = λ t. ok (some (0 ∷ []));
  iter = λ m. (0, "title") ∷ (1, "body") ∷ [];
  id = λ m name. field_id name;
  range = λ t. ok (map (λ d. ok (0, d)) t.1);
  obkv_to_json = λ shown fields d. ok d;
  external_documents_ids = λ t. ok tt;
  internal_id = λ ids name. some 0;
  documents = λ t ids. ok (map (λ d. (0, d)) t.1);
}

-- The tokenizer that takes a text for one word.
abbrev pub analyzer : Analyzer
analyzer = record {
  Token = String;
  reconstruct = λ s. (s, s) ∷ [];
  is_word = λ t. true;
  text = λ t. t;
}

abbrev pub searching : Searching.Engine milli
searching = record {
  Search = Unit {0};
  FacetCondition = ℕ;
  MatchingWords = String;
  Candidates = ℕ;
  FacetCount = Unit {0};
  Distribution = ℕ;
  search = λ t. tt;
  set_query = λ q s. s;
  set_limit = λ n s. s;
  set_offset = λ n s. s;
  set_facet_condition = λ c s. s;
  execute = λ s. ok (0 ∷ [], "wolf", 1);
  matches = λ w s. str_eq w s;
  len = λ c. c;
  from_array = λ t i l. ok (some (length l));
  facets_distribution = λ t. tt;
  set_facets = λ l f. f;
  set_candidates = λ c f. f;
  count = λ f. ok 0;
  debug = λ v. "value";
}

abbrev pub updating : Updating milli
updating = record {
  Content = List ℕ;
  Format = Unit {0};
  Method = ℕ;
  Addition = ℕ;
  UpdateBuilder = Unit {0};
  IndexDocuments = Unit {0};
  SettingsBuilder = List String;
  FacetsBuilder = Unit {0};
  DeleteDocuments = Unit {0};
  write_txn = λ i. ok i;
  commit = λ i t. ok t;
  primary_key = λ t. ok none;
  put_primary_key = λ k t. (ok tt, (some k, t.1));
  index_documents = λ u t. tt;
  update_format = λ f b. b;
  index_documents_method = λ m b. b;
  execute_index = λ b c t. (err "Invalid JSON", (t.0, []));
  execute_clear = λ u t. (ok 1, (t.0, []));
  settings = λ u t. [];
  set_searchable_fields = λ l b. "set searchable_fields" ∷ b;
  reset_searchable_fields = λ b. "reset searchable_fields" ∷ b;
  set_displayed_fields = λ l b. "set displayed_fields" ∷ b;
  reset_displayed_fields = λ b. "reset displayed_fields" ∷ b;
  set_faceted_fields = λ l b. "set faceted_fields" ∷ b;
  set_criteria = λ l b. "set criteria" ∷ b;
  reset_criteria = λ b. "reset criteria" ∷ b;
  execute_settings = λ b t. (ok tt, t);
  facets = λ u t. tt;
  level_group_size = λ n b. b;
  min_level_size = λ n b. b;
  execute_facets = λ b t. (ok tt, t);
  delete_documents = λ u t. ok tt;
  delete_external_id = λ k b. b;
  execute_delete = λ b t. (ok 0, t);
  from_reader = λ c. ok [];
}

abbrev pub metadata : Metadata ToyIndex
metadata = record {
  new_index = (none, []);
  created_at = λ i. 0;
  updated_at = λ i. 0;
  primary_key = λ i. i.0;
  put_primary_key = λ i k. (some k, i.1);
  primary_key-put = λ i k. refl;
}
