-- ===== src/Server/Routing.antt =====
-- The services of the application, `create_app!` of meilisearch-http/src/lib.rs, each with the
-- attribute of its handler in meilisearch-http/src/routes, and how a request finds its handler.
-- Whether a path fits the pattern of a resource is decided by `actix-web`, a parameter; a path is the list
-- of its segments.
use transplant.Base.{◌≡◌, Bool, Option, none, some, List, [], ◌∷◌, ◌++◌, In, if◌then◌else◌, String}
use transplant.Base.Outcome.{Outcome}
use transplant.HttpError.{ResponseError}
use transplant.Authentication.{
  ApiKeys, Authentication, Header, public_acl, private_acl, admin_acl, call,
}

pub data Method : Type 0 where
  get post put delete : Method

-- A segment of the pattern of a resource: a text, or a parameter between braces.
pub data Segment : Type 0 where
  static dynamic : String → Segment

-- The attributes that `make_setting_route!` makes services of.
pub data Attribute : Type 0 where
  attributes_for_faceting displayed_attributes searchable_attributes : Attribute

-- The handlers, by their names; those of a module `get`, `update` and `delete` after the module.
pub data Handler : Type 0 where
  get_document delete_document get_all_documents add_documents update_documents : Handler
  delete_documents clear_all_documents : Handler
  list_indexes get_index create_index update_index delete_index : Handler
  get_update_status get_all_updates_status : Handler
  search_with_post search_with_url_query : Handler
  update_all get_all delete_all : Handler
  get_setting update_setting delete_setting : Attribute → Handler
  get_stop_words update_stop_words delete_stop_words : Handler
  get_synonyms update_synonyms delete_synonyms : Handler
  get_health index_stats get_stats get_version list_keys load_html load_css running : Handler

-- A resource with one method, as an attribute such as `#[get("/keys", wrap = "Authentication::Admin")]`
-- makes it of a handler; `wrap` is what the handler is wrapped in.
pub record Service : Type 0 where
  pub handler : Handler
  pub method : Method
  pub wrap : Option Authentication
  pub pattern : List Segment

abbrev service : Handler → Method → Option Authentication → List Segment → Service
service h m w p = record { handler = h; method = m; wrap = w; pattern = p }

abbrev in_index : List Segment → List Segment
in_index p = static "indexes" ∷ dynamic "index_uid" ∷ p

abbrev in_settings : String → List Segment
in_settings name = in_index (static "settings" ∷ static name ∷ [])

unfoldable pub document_services : List Service
document_services =
    let documents = in_index (static "documents" ∷ []) in
    let document = in_index (static "documents" ∷ dynamic "document_id" ∷ []) in
    let batch = in_index (static "documents" ∷ static "delete-batch" ∷ []) in
    service get_document get (some public_acl) document
    ∷ service delete_document delete (some private_acl) document
    ∷ service get_all_documents get (some public_acl) documents
    ∷ service add_documents post (some private_acl) documents
    ∷ service update_documents put (some private_acl) documents
    ∷ service delete_documents post (some private_acl) batch
    ∷ service clear_all_documents delete (some private_acl) documents
    ∷ []

unfoldable pub index_services : List Service
index_services =
    let indexes = static "indexes" ∷ [] in
    let updates = in_index (static "updates" ∷ []) in
    let update = in_index (static "updates" ∷ dynamic "update_id" ∷ []) in
    service list_indexes get (some private_acl) indexes
    ∷ service get_index get (some private_acl) (in_index [])
    ∷ service create_index post (some private_acl) indexes
    ∷ service update_index put (some private_acl) (in_index [])
    ∷ service delete_index delete (some private_acl) (in_index [])
    ∷ service get_update_status get (some private_acl) update
    ∷ service get_all_updates_status get (some private_acl) updates
    ∷ []

unfoldable pub search_services : List Service
search_services =
    let search = in_index (static "search" ∷ []) in
    service search_with_post post (some public_acl) search
    ∷ service search_with_url_query get (some public_acl) search
    ∷ []

unfoldable pub route_of : Attribute → String
route_of attributes_for_faceting = "attributes-for-faceting"
route_of displayed_attributes = "displayed-attributes"
route_of searchable_attributes = "searchable-attributes"

unfoldable pub attribute_services : Attribute → List Service
unfolding route_of
attribute_services a =
    let route = in_settings (route_of a) in
    service (get_setting a) get (some private_acl) route
    ∷ service (update_setting a) post (some private_acl) route
    ∷ service (delete_setting a) delete (some private_acl) route
    ∷ []

-- What `create_services!` makes of the three attributes.
unfoldable pub settings_services : List Service
unfolding attribute_services
settings_services =
    let settings = in_index (static "settings" ∷ []) in
    service update_all post (some private_acl) settings
    ∷ service get_all get (some private_acl) settings
    ∷ service delete_all delete (some private_acl) settings
    ∷ (attribute_services attributes_for_faceting
        ++ (attribute_services displayed_attributes ++ attribute_services searchable_attributes))

unfoldable pub stop_words_services : List Service
stop_words_services =
    service get_stop_words get (some private_acl) (in_settings "stop-words")
    ∷ service update_stop_words post (some private_acl) (in_settings "stop-words")
    ∷ service delete_stop_words delete (some private_acl) (in_settings "stop-words")
    ∷ []

unfoldable pub synonym_services : List Service
synonym_services =
    service get_synonyms get (some private_acl) (in_settings "synonyms")
    ∷ service update_synonyms post (some private_acl) (in_settings "synonyms")
    ∷ service delete_synonyms delete (some private_acl) (in_settings "synonyms")
    ∷ []

unfoldable pub health_services : List Service
health_services = service get_health get none (static "health" ∷ []) ∷ []

unfoldable pub stats_services : List Service
stats_services =
    service index_stats get (some private_acl) (in_index (static "stats" ∷ []))
    ∷ service get_stats get (some private_acl) (static "stats" ∷ [])
    ∷ service get_version get (some private_acl) (static "version" ∷ [])
    ∷ []

unfoldable pub key_services : List Service
key_services = service list_keys get (some admin_acl) (static "keys" ∷ []) ∷ []

-- The services of the application, in the order in which they are registered.
unfoldable pub create_app : Bool → List Service
unfolding document_services index_services search_services settings_services stop_words_services
    synonym_services health_services stats_services key_services
create_app enable_frontend =
    document_services
    ++ (index_services
        ++ (search_services
            ++ (settings_services
                ++ (stop_words_services
                    ++ (synonym_services
                        ++ (health_services
                            ++ (stats_services
                                ++ (key_services
                                    ++ (if enable_frontend
                                        then service load_html get none []
                                          ∷ service load_css get none (static "bulma.min.css" ∷ [])
                                          ∷ []
                                        else service running get none [] ∷ [])))))))))

-- Whether a path has a text of its own for each segment of a pattern, and the pattern's text where that
-- is one.
abbrev pub Fits : List Segment → List String → Type 0
Fits [] [] = Unit {0}
Fits (static t ∷ p) (x ∷ l) = (t ≡ x) × Fits p l
Fits (dynamic name ∷ p) (x ∷ l) = Fits p l
Fits _ _ = ⊥

abbrev pub Takes : Service → Method → List String → Type 0
Takes s m path = (s.method ≡ m) × Fits s.pattern path

-- The router of `actix-web`: it finds a service that takes the request, if there is one. Nothing is
-- assumed of which one it finds where there are several.
pub record Router : Type 0 where
  pub find : List Service → Method → List String → Option Service
  pub find-takes :
      (l : List Service) (m : Method) (path : List String) (s : Service)
      → find l m path ≡ some s
      → In s l × Takes s m path
  pub find-none :
      (l : List Service) (m : Method) (path : List String) (s : Service)
      → find l m path ≡ none
      → In s l
      → Takes s m path
      → ⊥

-- What the service that was found answers to a request, where the server is started with these keys;
-- `run` is what a handler answers, and `not_found` what is answered where there is no service.
abbrev pub served_by :
    {R : Type 0}
    → ApiKeys
    → Header
    → (Handler → Outcome ResponseError R)
    → Outcome ResponseError R
    → Option Service
    → Outcome ResponseError R
served_by keys header run not_found none = not_found
served_by keys header run not_found (some s) = elim s.wrap [
  | none ↦ run s.handler
  | some acl ↦ call acl (some keys) header (run s.handler)
]

-- The answer to a request.
unfoldable pub respond :
    {R : Type 0}
    → Router
    → Bool
    → ApiKeys
    → Method
    → List String
    → Header
    → (Handler → Outcome ResponseError R)
    → Outcome ResponseError R
    → Outcome ResponseError R
respond router enable_frontend keys m path header run not_found =
    served_by keys header run not_found (router.find (create_app enable_frontend) m path)
