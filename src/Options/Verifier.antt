-- ===== src/Options/Verifier.antt =====
-- Which configuration `get_ssl_config` of meilisearch-http/src/option.rs makes: when there is one, and
-- what it asks of the clients.
use transplant.Base.{
  ℕ, ◌≡◌, ◌↔◌, ◌⊎◌, inl, inr, refl, sym, subst, true, false, Option, none, some, List, [], ◌∷◌,
  arith, if◌then◌else◌, String, Option-cases, Bool-cases,
}
use transplant.Base.Outcome.{Outcome, ok, panicked, ok_or, ◌>>=◌, outcome_bind-ok, Outcome-cases}
use transplant.Options.{Opt}
use transplant.Options.Tls.{
  Rustls, Opening, open_roots, open_certs, open_rsa_keys, open_pkcs8_keys, load_certs, pick_key,
  load_private_key, load_ocsp, add_roots, client_auth, set_resumption, configured, get_ssl_config,
}

module _ (rustls : Rustls) (open_file : Opening → String → Option rustls.File) where
  open rustls use {ServerConfig, ClientCertVerifier, Certificate, PrivateKey, verifier}

  abbrev IsPicked : List PrivateKey → List PrivateKey → PrivateKey → Type 0
  IsPicked rsa pkcs8 k =
      ((l : List PrivateKey) × (pkcs8 ≡ k ∷ l))
      ⊎ ((pkcs8 ≡ []) × ((l : List PrivateKey) × (rsa ≡ k ∷ l)))

  pick_key-picks :
      (rsa pkcs8 : List PrivateKey)
      → ((k : PrivateKey) → (pick_key rustls open_file rsa pkcs8 ≡ ok k) ↔ IsPicked rsa pkcs8 k)
        × (((m : String) × (pick_key rustls open_file rsa pkcs8 ≡ panicked m))
            ↔ ((pkcs8 ≡ []) × (rsa ≡ [])))
  unfolding pick_key
  pick_key-picks rsa (p ∷ pkcs8) = (
    λ k. (λ h. inl (pkcs8, ground (arith, h)), λ h. ground (arith, h)),
    (λ h. absurd (ground (arith, h.1)), λ h. absurd (ground (arith, h.0))),
  )
  pick_key-picks [] [] = (
    λ k. (λ h. absurd (ground (arith, h)), λ h. absurd (ground (arith, h))),
    (λ h. (refl, refl), λ h. (_, refl)),
  )
  pick_key-picks (r ∷ rsa) [] = (
    λ k. (λ h. inr (refl, (rsa, ground (arith, h))), λ h. ground (arith, h)),
    (λ h. absurd (ground (arith, h.1)), λ h. absurd (ground (arith, h.1))),
  )

  -- Loading a private key that can be read answers the first PKCS8 key of the file, or the first RSA
  -- key of one without PKCS8 keys; of a file with neither it panics.
  pub load_private_key-picks :
      (name : String) (rsa pkcs8 : List PrivateKey) (f g : rustls.File)
      → open_file open_rsa_keys name ≡ some f
      → rustls.rsa_private_keys f ≡ some rsa
      → open_file open_pkcs8_keys name ≡ some g
      → rustls.pkcs8_private_keys g ≡ some pkcs8
      → ((k : PrivateKey) → (load_private_key rustls open_file name ≡ ok k) ↔ IsPicked rsa pkcs8 k)
        × (((m : String) × (load_private_key rustls open_file name ≡ panicked m))
            ↔ ((pkcs8 ≡ []) × (rsa ≡ [])))
  unfolding load_private_key
  load_private_key-picks name rsa pkcs8 f g a b c d = rw (a, b, c, d) (pick_key-picks rsa pkcs8)

  module _ {CompressionType : Type 0} (opt : Opt CompressionType) where
    set_resumption-verifier :
        (c : ServerConfig) → verifier (set_resumption rustls open_file opt c) ≡ verifier c
    unfolding set_resumption
    set_resumption-verifier c = ground (
      arith,
      rustls.verifier-set_persistence 256 c,
      rustls.verifier-set_ticketer c,
      rustls.verifier-set_ticketer (rustls.set_persistence 256 c),
    )

    -- What the option for client authentication asks for.
    pub data IsAsked : ClientCertVerifier → Type 0 where
      nobody : opt.ssl_auth_path ≡ none → IsAsked rustls.no_client_auth
      everybody :
          (path : String) (roots : List Certificate) (store : rustls.RootCertStore)
          → opt.ssl_auth_path ≡ some path
          → load_certs rustls open_file open_roots path ≡ ok roots
          → add_roots rustls open_file rustls.empty roots ≡ ok store
          → opt.ssl_require_auth ≡ true
          → IsAsked (rustls.allow_any_authenticated store)
      known_or_anonymous :
          (path : String) (roots : List Certificate) (store : rustls.RootCertStore)
          → opt.ssl_auth_path ≡ some path
          → load_certs rustls open_file open_roots path ≡ ok roots
          → add_roots rustls open_file rustls.empty roots ≡ ok store
          → opt.ssl_require_auth ≡ false
          → IsAsked (rustls.allow_any_anonymous_or_authenticated store)

    abbrev asked : rustls.RootCertStore → ClientCertVerifier
    asked store =
        if opt.ssl_require_auth
        then rustls.allow_any_authenticated store
        else rustls.allow_any_anonymous_or_authenticated store

    client_auth-IsAsked :
        (v : ClientCertVerifier) → client_auth rustls open_file opt ≡ ok v → IsAsked v
    unfolding client_auth
    client_auth-IsAsked v h = elim (Option-cases opt.ssl_auth_path) [
      | inl e ↦ subst IsAsked (ground (arith, h, e)) (nobody e)
      | inr (path, e) ↦
          outcome_bind-ok (load_certs rustls open_file open_roots path) _ (rw e at h)
            λ roots loaded h'.
              outcome_bind-ok (add_roots rustls open_file rustls.empty roots) _ h'
                λ store added h''. elim (Bool-cases opt.ssl_require_auth) [
                  | inl y ↦
                      subst IsAsked (ground (arith, h'', y))
                        (everybody path roots store e loaded added y)
                  | inr z ↦
                      subst IsAsked (ground (arith, h'', z))
                        (known_or_anonymous path roots store e loaded added z)
                ]
    ]

    abbrev certified :
        List Certificate → PrivateKey → List ℕ → ClientCertVerifier → Outcome String ServerConfig
    certified certs privkey ocsp auth =
        ok_or "bad certificates/private key"
          (rustls.set_single_cert certs privkey ocsp (rustls.log_keys (rustls.new auth)))
        >>= λ config. ok (set_resumption rustls open_file opt config)

    certified-verifier :
        (certs : List Certificate) (privkey : PrivateKey) (ocsp : List ℕ)
        (auth : ClientCertVerifier) (c : ServerConfig)
        → certified certs privkey ocsp auth ≡ ok c
        → verifier c ≡ auth
    certified-verifier certs privkey ocsp auth c h =
        let start = rustls.log_keys (rustls.new auth) in
        elim (Option-cases (rustls.set_single_cert certs privkey ocsp start)) [
          | inl e ↦ absurd (ground (arith, h, e))
          | inr (config, e) ↦ ground (
            arith,
            h,
            e,
            rustls.verifier-set_single_cert certs privkey ocsp start config e,
            rustls.verifier-log_keys (rustls.new auth),
            rustls.verifier-new auth,
            set_resumption-verifier config,
          )
        ]

    configured-verifier :
        (cert key : String) (c : ServerConfig) (auth : ClientCertVerifier)
        → client_auth rustls open_file opt ≡ ok auth
        → configured rustls open_file opt cert key ≡ ok c
        → verifier c ≡ auth
    unfolding configured
    configured-verifier cert key c auth e h =
        outcome_bind-ok (load_certs rustls open_file open_certs cert) _ (rw e at h)
          λ certs loaded h₁.
            outcome_bind-ok (load_private_key rustls open_file key) _ h₁ λ privkey picked h₂.
              outcome_bind-ok (load_ocsp rustls open_file opt.ssl_ocsp_path) _ h₂
                λ ocsp read h₃. certified-verifier certs privkey ocsp auth c h₃

    configured-IsAsked :
        (cert key : String) (c : ServerConfig)
        → configured rustls open_file opt cert key ≡ ok c
        → IsAsked (verifier c)
    unfolding configured
    configured-IsAsked cert key c h = elim (Outcome-cases (client_auth rustls open_file opt)) [
      | inl (auth, e) ↦
          subst IsAsked (sym (configured-verifier cert key c auth e h)) (client_auth-IsAsked auth e)
      | inr (inl (x, e)) ↦ absurd (ground (arith, h, e))
      | inr (inr (x, e)) ↦ absurd (ground (arith, h, e))
    ]

    -- When `get_ssl_config` returns, then either it answers no configuration, and the path of the
    -- certificates or that of the key is not given, or both are given and it answers one, which
    -- asks of the clients what the options say: nothing without a file of roots; with one, a
    -- certificate that the roots of the file have signed, which is mandatory exactly when the options
    -- require it.
    pub get_ssl_config-IsAsked :
        (r : Option ServerConfig)
        → get_ssl_config rustls open_file opt ≡ ok r
        → ((r ≡ none) × ((opt.ssl_cert_path ≡ none) ⊎ (opt.ssl_key_path ≡ none)))
          ⊎ ((c : ServerConfig) × (r ≡ some c)
              × ((cert : String) × (opt.ssl_cert_path ≡ some cert))
              × ((key : String) × (opt.ssl_key_path ≡ some key))
              × IsAsked (verifier c))
    unfolding get_ssl_config
    get_ssl_config-IsAsked r h = elim (Option-cases opt.ssl_cert_path) [
      | inl e ↦ inl (ground (arith, h, e), inl e)
      | inr (cert, e) ↦ elim (Option-cases opt.ssl_key_path) [
        | inl e' ↦ inl (ground (arith, h, e, e'), inr e')
        | inr (key, e') ↦
            outcome_bind-ok (configured rustls open_file opt cert key) _ (rw (e, e') at h)
              λ config made h'. inr (
                config,
                ground (arith, h'),
                (cert, e),
                (key, e'),
                configured-IsAsked cert key config made,
              )
      ]
    ]
