-- ===== src/Options/Toy.antt =====
-- A small TLS library for the tests of what is built on Options/Tls: a configuration is what it asks of the
-- clients, and a file holds one certificate and one key. Models no file of the repository.
use transplant.Base.{ℕ, refl, Bool, true, false, Option, none, some, List, [], ◌∷◌, arith, String}
use transplant.Options.{Opt, default_indexer_opts}
use transplant.Options.Tls.{Rustls, Opening}

abbrev pub rustls : Rustls
rustls = record {
  File = Unit {0};
  Certificate = ℕ;
  PrivateKey = ℕ;
  RootCertStore = List ℕ;
  ClientCertVerifier = Option (Bool × List ℕ);
  ServerConfig = Option (Bool × List ℕ);
  certs = λ f. some (5 ∷ []);
  rsa_private_keys = λ f. some (6 ∷ []);
  pkcs8_private_keys = λ f. some [];
  read_to_end = λ f. some [];
  empty = [];
  add = λ l c. some (c ∷ l);
  allow_any_authenticated = λ l. some (true, l);
  allow_any_anonymous_or_authenticated = λ l. some (false, l);
  no_client_auth = none;
  new = λ v. v;
  log_keys = λ c. c;
  set_single_cert = λ l k o c. some c;
  set_persistence = λ n c. c;
  set_ticketer = λ c. c;
  verifier = λ c. c;
  verifier-new = λ v. refl;
  verifier-log_keys = λ c. refl;
  verifier-set_single_cert = λ l k o c c' e. ground (arith, e);
  verifier-set_persistence = λ n c. refl;
  verifier-set_ticketer = λ c. refl;
}

abbrev pub open_file : Opening → String → Option (Unit {0})
open_file at path = some tt

-- In production with a master key, with TLS and with the roots of the clients.
abbrev pub production : Opt (Unit {0})
production = record {
  db_path = "data.ms";
  http_addr = "127.0.0.1:7700";
  master_key = some "m";
  env = "production";
  no_analytics = true;
  max_mdb_size = 1000;
  max_udb_size = 500;
  http_payload_size_limit = 100;
  ssl_cert_path = some "cert.pem";
  ssl_key_path = some "key.pem";
  ssl_auth_path = some "roots.pem";
  ssl_ocsp_path = none;
  ssl_require_auth = true;
  ssl_resumption = false;
  ssl_tickets = true;
  import_snapshot = none;
  ignore_missing_snapshot = false;
  ignore_snapshot_if_db_exists = false;
  snapshot_dir = "snapshots/";
  schedule_snapshot = false;
  snapshot_interval_sec = none;
  dumps_dir = "dumps/";
  import_dump = none;
  dump_batch_size = 1024;
  indexer_options = default_indexer_opts tt;
}
