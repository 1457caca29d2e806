-- ===== src/Index.antt =====
-- One index, meilisearch-http/src/index/mod.rs. The engine, the crate `milli` with its database, is a
-- parameter; each of its calls that can fail returns an outcome.
pub mod Json
pub mod Highlight
pub mod Search
pub mod Updates
pub mod Fields
pub mod Handler
pub mod Engine
pub mod Toy
mod Tests
use transplant.Base.{
  ℕ, Bool, true, false, Option, none, some, List, [], ◌∷◌, map, String, ◌<>◌, drop, take,
  if◌then◌else◌, ◌==◌,
}
use transplant.Base.Outcome.{Outcome, ok, err, panicked, ◌>>=◌, ok_or}
use transplant.Index.Json.{Document}

-- What mod.rs calls: a transaction, the tables that it reads, the map between the fields' names and
-- ids, and the rows of the documents.
pub record Milli : Type 1 where
  pub Index : Type 0
  pub Txn : Type 0
  pub FacetType : Type 0
  pub Criterion : Type 0
  pub FieldsIdsMap : Type 0
  pub ExternalIds : Type 0
  pub Obkv : Type 0
  pub read_txn : Index → Outcome String Txn
  pub displayed_fields : Txn → Outcome String (Option (List String))
  pub searchable_fields : Txn → Outcome String (Option (List String))
  pub faceted_fields : Txn → Outcome String (List (String × FacetType))
  pub criteria : Txn → Outcome String (List Criterion)
  pub facet_type_to_string : FacetType → String
  pub criterion_to_string : Criterion → String
  pub fields_ids_map : Txn → Outcome String FieldsIdsMap
  pub displayed_fields_ids : Txn → Outcome String (Option (List ℕ))
  pub iter : FieldsIdsMap → List (ℕ × String)
  pub id : FieldsIdsMap → String → Option ℕ
  -- `self.documents.range(&txn, &(..))`: a row may be unreadable.
  pub range : Txn → Outcome String (List (Outcome String (ℕ × Obkv)))
  pub obkv_to_json : List ℕ → FieldsIdsMap → Obkv → Outcome String Document
  pub external_documents_ids : Txn → Outcome String ExternalIds
  pub internal_id : ExternalIds → String → Option ℕ
  pub documents : Txn → List ℕ → Outcome String (List (ℕ × Obkv))

pub record Settings : Type 0 where
  pub displayed_attributes : Option (Option (List String))
  pub searchable_attributes : Option (Option (List String))
  pub attributes_for_faceting : Option (Option (List (String × String)))
  pub ranking_rules : Option (Option (List String))

unfoldable pub cleared : Settings
cleared = record {
  displayed_attributes = some none;
  searchable_attributes = some none;
  attributes_for_faceting = some none;
  ranking_rules = some none;
}

abbrev pub fields_or_star : Option (List String) → List String
fields_or_star none = "*" ∷ []
fields_or_star (some fields) = fields

-- `filter_map`.
abbrev pub filter_map : {A B : Type 0} → (A → Option B) → List A → List B
filter_map f [] = []
filter_map f (a ∷ l) = let rest = filter_map f l in elim (f a) [ none ↦ rest | some b ↦ b ∷ rest ]

abbrev pub contains_id : List ℕ → ℕ → Bool
contains_id [] k = false
contains_id (a ∷ l) k = let rest = contains_id l k in if k == a then true else rest

-- `retain`.
abbrev pub retain : (ℕ → Bool) → List ℕ → List ℕ
retain test [] = []
retain test (a ∷ l) = let rest = retain test l in if test a then a ∷ rest else rest

abbrev pub not_found : String → String
not_found doc_id = ("Document with id " <> doc_id) <> " not found"

module _ (milli : Milli) where
  open milli use {Index, Txn, FieldsIdsMap, Obkv}

  unfoldable pub settings : Index → Outcome String Settings
  settings index = do
    txn ← milli.read_txn index
    displayed ← milli.displayed_fields txn
    searchable ← milli.searchable_fields txn
    faceted ← milli.faceted_fields txn
    rules ← milli.criteria txn
    ok (record {
      displayed_attributes = some (some (fields_or_star displayed));
      searchable_attributes = some (some (fields_or_star searchable));
      attributes_for_faceting =
          some (some (map (λ (k, v). (k, milli.facet_type_to_string v)) faceted));
      ranking_rules = some (some (map milli.criterion_to_string rules));
    })

  abbrev pub all_ids : FieldsIdsMap → List ℕ
  all_ids fields = map (λ (k, name). k) (milli.iter fields)

  abbrev pub displayed_ids : FieldsIdsMap → Option (List ℕ) → List ℕ
  displayed_ids fields (some ids) = ids
  displayed_ids fields none = all_ids fields

  abbrev pub attributes_to_retrieve_ids : FieldsIdsMap → Option (List String) → List ℕ
  attributes_to_retrieve_ids fields (some attrs) = filter_map (milli.id fields) attrs
  attributes_to_retrieve_ids fields none = all_ids fields

  unfoldable pub fields_to_display :
      Txn → Option (List String) → FieldsIdsMap → Outcome String (List ℕ)
  fields_to_display txn attributes_to_retrieve fields = do
    displayed ← milli.displayed_fields_ids txn
    ok (
        retain (contains_id (attributes_to_retrieve_ids fields attributes_to_retrieve))
          (displayed_ids fields displayed))

  -- The loop over the rows, which stops at the first one that cannot be read.
  unfoldable pub collect :
      List ℕ → FieldsIdsMap → List (Outcome String (ℕ × Obkv)) → Outcome String (List Document)
  collect shown fields [] = ok []
  collect shown fields (entry ∷ l) = do
    row ← entry
    object ← milli.obkv_to_json shown fields row.1
    rest ← collect shown fields l
    ok (object ∷ rest)

  unfoldable pub retrieve_documents :
      Index → ℕ → ℕ → Option (List String) → Outcome String (List Document)
  retrieve_documents index offset limit attributes_to_retrieve = do
    txn ← milli.read_txn index
    fields ← milli.fields_ids_map txn
    shown ← fields_to_display txn attributes_to_retrieve fields
    rows ← milli.range txn
    collect shown fields (take limit (drop offset rows))

  unfoldable pub retrieve_document : Index → String → Option (List String) → Outcome String Document
  retrieve_document index doc_id attributes_to_retrieve = do
    txn ← milli.read_txn index
    fields ← milli.fields_ids_map txn
    shown ← fields_to_display txn attributes_to_retrieve fields
    ids ← milli.external_documents_ids txn
    internal ← ok_or (not_found doc_id) (milli.internal_id ids doc_id)
    found ← milli.documents txn (internal ∷ [])
    elim found [
      | row ∷ others ↦ milli.obkv_to_json shown fields row.1
      | [] ↦ err (not_found doc_id)
    ]
