-- ===== src/Server/Access.antt =====
-- Which handler a request reaches, and with which keys: the services of meilisearch-http/src/lib.rs behind
-- the middleware of meilisearch-http/src/helpers/authentication.rs.
use transplant.Base.{
  ◌≡◌, ◌≢◌, ◌⊎◌, inl, inr, refl, subst, ap, ◌∙◌, Bool, true, false, ◌&&◌, none, some, List, [], ◌∷◌,
  In, arith, String, Option-cases,
}
use transplant.Base.Outcome.{Outcome, err}
use transplant.HttpError.{ResponseError, of_error, missing_authorization_header, invalid_token}
use transplant.Authentication.{ApiKeys, Authentication, Header, call, missing, unreadable, readable}
use transplant.Authentication.Access.{IsGranted, call-answers}
use transplant.Server.Routing.{
  Method, Service, Router, Handler, create_app, served_by, respond, document_services,
  index_services, search_services, settings_services, attribute_services, route_of,
  stop_words_services, synonym_services, health_services, stats_services, key_services, get_health,
  running,
}

-- The request has the header with a key that is granted for the route.
abbrev pub HasKey : Authentication → ApiKeys → Header → Type 0
HasKey acl keys header = (k : String) × (header ≡ readable k) × IsGranted acl keys k

-- What the middleware answers to a request without a granted key.
abbrev pub refusal : Header → ResponseError
refusal missing = of_error missing_authorization_header
refusal unreadable = of_error missing_authorization_header
refusal (readable k) = of_error (invalid_token k)

call-HasKey :
    {R : Type 0} (acl : Authentication) (keys : ApiKeys) (header : Header)
    (service : Outcome ResponseError R)
    → keys.master ≢ none
    → (HasKey acl keys header × (call acl (some keys) header service ≡ service))
      ⊎ ((HasKey acl keys header → ⊥)
          × (call acl (some keys) header service ≡ err (refusal header)))
call-HasKey acl keys missing service n =
    inr (λ h. ground (arith, h.1), ((call-answers acl keys service).1 n).0)
call-HasKey acl keys unreadable service n =
    inr (λ h. ground (arith, h.1), ((call-answers acl keys service).1 n).1)
call-HasKey acl keys (readable k) service n = elim (((call-answers acl keys service).1 n).2 k) [
  | inl (g, e) ↦ inl ((k, refl, g), e)
  | inr (g, e) ↦ inr (λ h. g (subst (IsGranted acl keys) (ground (arith, h.1)) h.2), e)
]

-- The services that stand in front of no middleware, on a server without the page for browsers.
abbrev is_closed : Service → Bool
is_closed s = elim s.wrap [
  | some acl ↦ true
  | none ↦ elim s.handler [ get_health ↦ true | running ↦ true | _ ↦ false ]
]

abbrev all_closed : List Service → Bool
all_closed [] = true
all_closed (s ∷ l) = let rest = all_closed l in is_closed s && rest

create_app-closed : all_closed (create_app false) ≡ true
unfolding create_app document_services index_services search_services settings_services
    attribute_services route_of stop_words_services synonym_services health_services stats_services
    key_services
create_app-closed = refl

all_closed-In : (s : Service) (l : List Service) → all_closed l ≡ true → In s l → is_closed s ≡ true
all_closed-In s [] a i = absurd i
all_closed-In s (t ∷ l) a (inl e) = rw e (ground (arith, a))
all_closed-In s (t ∷ l) a (inr i) = all_closed-In s l (ground (arith, a)) i

is_closed-open :
    (s : Service)
    → is_closed s ≡ true
    → s.wrap ≡ none
    → (s.handler ≡ get_health) ⊎ (s.handler ≡ running)
is_closed-open s h e = ground (arith, h, e)

-- An answer to a request that the service takes, on a server without the page for browsers: it is the
-- service's where that is the health or the page that says that the server runs, and elsewhere
-- it is the service's for a request with a granted key, and a refusal for any other.
abbrev pub IsGuarded :
    {R : Type 0}
    → ApiKeys
    → Header
    → (Handler → Outcome ResponseError R)
    → Service
    → Outcome ResponseError R
    → Type 0
IsGuarded keys header run s answer =
    (((s.handler ≡ get_health) ⊎ (s.handler ≡ running)) × (answer ≡ run s.handler))
    ⊎ ((acl : Authentication) × (s.wrap ≡ some acl)
        × ((HasKey acl keys header × (answer ≡ run s.handler))
            ⊎ ((HasKey acl keys header → ⊥) × (answer ≡ err (refusal header)))))

module _ (router : Router) {R : Type 0} (keys : ApiKeys) (m : Method) (path : List String)
    (header : Header) (run : Handler → Outcome ResponseError R)
    (not_found : Outcome ResponseError R) where
  abbrev answer : Bool → Outcome ResponseError R
  answer frontend = respond router frontend keys m path header run not_found

  -- On a server with a master key, every answer to a request that a service takes is guarded.
  pub respond-IsGuarded :
      (s : Service)
      → keys.master ≢ none
      → router.find (create_app false) m path ≡ some s
      → IsGuarded keys header run s (answer false)
  unfolding respond
  respond-IsGuarded s n found =
      let reach : answer false ≡ served_by keys header run not_found (some s) =
        ap (served_by keys header run not_found) found in
      elim (Option-cases s.wrap) [
        | inl e ↦ inl (
          is_closed-open s
              (all_closed-In s (create_app false) create_app-closed
                (router.find-takes (create_app false) m path s found).0)
              e,
          rw (found, e) refl,
        )
        | inr (acl, e) ↦
            let reached : answer false ≡ call acl (some keys) header (run s.handler) =
              reach ∙ rw e refl in
            elim (call-HasKey acl keys header (run s.handler) n) [
              | inl (k, c) ↦ inr (acl, e, inl (k, reached ∙ c))
              | inr (k, c) ↦ inr (acl, e, inr (k, reached ∙ c))
            ]
      ]
