-- ===== src/Options/Tls.antt =====
-- The TLS configuration, `get_ssl_config` of meilisearch-http/src/option.rs and the loaders beside it. The
-- `rustls` crate and the opening of files are parameters.
use transplant.Base.{ℕ, ◌≡◌, Option, none, some, List, [], ◌∷◌, if◌then◌else◌, String}
use transplant.Base.Outcome.{Outcome, ok, panicked, ok_or, expect, ◌>>=◌}
use transplant.Options.{Opt}

-- What the code uses of `rustls`: a call that can fail returns an option. `verifier` is what a
-- configuration asks of its clients, which only the constructor decides.
pub record Rustls : Type 1 where
  pub File : Type 0
  pub Certificate : Type 0
  pub PrivateKey : Type 0
  pub RootCertStore : Type 0
  pub ClientCertVerifier : Type 0
  pub ServerConfig : Type 0
  pub certs : File → Option (List Certificate)
  pub rsa_private_keys : File → Option (List PrivateKey)
  pub pkcs8_private_keys : File → Option (List PrivateKey)
  pub read_to_end : File → Option (List ℕ)
  pub empty : RootCertStore
  pub add : RootCertStore → Certificate → Option RootCertStore
  pub allow_any_authenticated : RootCertStore → ClientCertVerifier
  pub allow_any_anonymous_or_authenticated : RootCertStore → ClientCertVerifier
  pub no_client_auth : ClientCertVerifier
  pub new : ClientCertVerifier → ServerConfig
  pub log_keys : ServerConfig → ServerConfig
  pub set_single_cert : List Certificate → PrivateKey → List ℕ → ServerConfig → Option ServerConfig
  pub set_persistence : ℕ → ServerConfig → ServerConfig
  pub set_ticketer : ServerConfig → ServerConfig
  pub verifier : ServerConfig → ClientCertVerifier
  pub verifier-new : (v : ClientCertVerifier) → verifier (new v) ≡ v
  pub verifier-log_keys : (c : ServerConfig) → verifier (log_keys c) ≡ verifier c
  pub verifier-set_single_cert :
      (l : List Certificate) (k : PrivateKey) (o : List ℕ) (c c' : ServerConfig)
      → set_single_cert l k o c ≡ some c'
      → verifier c' ≡ verifier c
  pub verifier-set_persistence :
      (n : ℕ) (c : ServerConfig) → verifier (set_persistence n c) ≡ verifier c
  pub verifier-set_ticketer : (c : ServerConfig) → verifier (set_ticketer c) ≡ verifier c

-- The files that are opened, each opening by itself, since the file can change between two.
pub data Opening : Type 0 where
  open_roots open_certs open_rsa_keys open_pkcs8_keys open_ocsp : Opening

module _ (rustls : Rustls) (open_file : Opening → String → Option rustls.File) where
  open rustls use {File, Certificate, PrivateKey, RootCertStore, ClientCertVerifier, ServerConfig}

  unfoldable pub load_certs : Opening → String → Outcome String (List Certificate)
  load_certs at filename = do
    certfile ← ok_or "cannot open certificate file" (open_file at filename)
    ok_or "cannot read certificate file" (rustls.certs certfile)

  -- `pkcs8_keys[0]` if there is one, and else `rsa_keys[0]`.
  unfoldable pub pick_key : List PrivateKey → List PrivateKey → Outcome String PrivateKey
  pick_key rsa_keys (k ∷ pkcs8_keys) = ok k
  pick_key [] [] = panicked "assertion failed: !rsa_keys.is_empty()"
  pick_key (k ∷ rsa_keys) [] = ok k

  unfoldable pub load_private_key : String → Outcome String PrivateKey
  unfolding pick_key
  load_private_key filename = do
    keyfile ← ok_or "cannot open private key file" (open_file open_rsa_keys filename)
    rsa_keys ← ok_or "file contains invalid rsa private key" (rustls.rsa_private_keys keyfile)
    again ← ok_or "cannot open private key file" (open_file open_pkcs8_keys filename)
    pkcs8_keys ←
        ok_or "file contains invalid pkcs8 private key (encrypted keys not supported)"
          (rustls.pkcs8_private_keys again)
    pick_key rsa_keys pkcs8_keys

  unfoldable pub load_ocsp : Option String → Outcome String (List ℕ)
  load_ocsp none = ok []
  load_ocsp (some name) = do
    file ← ok_or "cannot open ocsp file" (open_file open_ocsp name)
    ok_or "cannot read oscp file" (rustls.read_to_end file)

  -- The loop that adds the roots, each with `unwrap()`.
  unfoldable pub add_roots : RootCertStore → List Certificate → Outcome String RootCertStore
  add_roots client_auth_roots [] = ok client_auth_roots
  add_roots client_auth_roots (root ∷ roots) =
      expect "called `Result::unwrap()` on an `Err` value" (rustls.add client_auth_roots root)
      >>= λ added. add_roots added roots

  module _ {CompressionType : Type 0} (opt : Opt CompressionType) where
    unfoldable pub client_auth : Outcome String ClientCertVerifier
    unfolding add_roots load_certs
    client_auth = elim opt.ssl_auth_path [
      | some auth_path ↦ do
        roots ← load_certs open_roots auth_path
        client_auth_roots ← add_roots rustls.empty roots
        ok (
            if opt.ssl_require_auth
            then rustls.allow_any_authenticated client_auth_roots
            else rustls.allow_any_anonymous_or_authenticated client_auth_roots)
      | none ↦ ok rustls.no_client_auth
    ]

    unfoldable pub set_resumption : ServerConfig → ServerConfig
    set_resumption config =
        let resumed = if opt.ssl_resumption then rustls.set_persistence 256 config else config in
        if opt.ssl_tickets then rustls.set_ticketer resumed else resumed

    unfoldable pub configured : String → String → Outcome String ServerConfig
    unfolding client_auth load_private_key load_ocsp set_resumption load_certs
    configured cert_path key_path = do
      auth ← client_auth
      let config = rustls.log_keys (rustls.new auth)
      certs ← load_certs open_certs cert_path
      privkey ← load_private_key key_path
      ocsp ← load_ocsp opt.ssl_ocsp_path
      config' ←
          ok_or "bad certificates/private key" (rustls.set_single_cert certs privkey ocsp config)
      ok (set_resumption config')

    unfoldable pub get_ssl_config : Outcome String (Option ServerConfig)
    unfolding configured
    get_ssl_config = elim opt.ssl_cert_path [
      | none ↦ ok none
      | some cert_path ↦ elim opt.ssl_key_path [
        | none ↦ ok none
        | some key_path ↦ do config ← configured cert_path key_path; ok (some config)
      ]
    ]
