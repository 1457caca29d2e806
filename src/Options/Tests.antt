-- ===== src/Options/Tests.antt =====
-- A concrete TLS configuration, by meilisearch-http/src/option.rs.
use transplant.Base.{ℕ, ◌≡◌, ◌⊎◌, refl, Bool, true, Option, none, some, List, [], ◌∷◌, String}
use transplant.Options.Tls.{
  get_ssl_config, configured, client_auth, load_certs, load_private_key, pick_key, load_ocsp,
  add_roots, set_resumption,
}
use transplant.Options.Verifier.{IsAsked, get_ssl_config-IsAsked}
use transplant.Options.Toy.{rustls, open_file, production}

abbrev config : Option (Bool × List ℕ)
config = some (true, 5 ∷ [])

get_ssl_config-IsAsked_example :
    ((some config ≡ none) × ((production.ssl_cert_path ≡ none) ⊎ (production.ssl_key_path ≡ none)))
    ⊎ ((c : Option (Bool × List ℕ)) × (some config ≡ some c)
        × ((cert : String) × (production.ssl_cert_path ≡ some cert))
        × ((key : String) × (production.ssl_key_path ≡ some key))
        × IsAsked rustls open_file production c)
unfolding get_ssl_config configured client_auth load_certs load_private_key pick_key load_ocsp
    add_roots set_resumption
get_ssl_config-IsAsked_example =
    get_ssl_config-IsAsked rustls open_file production (some config) refl
