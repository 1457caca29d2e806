-- ===== src/Server/Tests.antt =====
-- A concrete server: started in production, asked, and started again.
use transplant.Base.{ℕ, ◌≡◌, ◌↔◌, ◌⊎◌, refl, true, false, none, some, [], ◌∷◌, In, String}
use transplant.Base.Outcome.{Outcome, ok}
use transplant.HttpError.{ResponseError}
use transplant.Heed.Keys.{Text}
use transplant.Authentication.{readable, new_api_keys, private_acl}
use transplant.IndexController.{Controller}
use transplant.IndexController.Queries.{get_index, update_status}
use transplant.IndexController.Laws.{quiet}
use transplant.Routes.{world}
use transplant.Routes.Toy.{crates, start}
use transplant.Options.Toy.{rustls, open_file, production}
use transplant.Options.Tls.{
  get_ssl_config, configured, client_auth, load_certs, load_private_key, pick_key, load_ocsp,
  add_roots, set_resumption,
}
use transplant.Server.{
  Host, Disk, HttpServer, no_faults, main, new_controller, check_env, run_http, new_data,
}
use transplant.Server.Launch.{main-ok, data_on, launched_disk, default_handler}
use transplant.Options.{default_indexer_opts}
use transplant.Server.Routing.{
  Handler, Service, create_app, respond, get, static, Takes, list_indexes, document_services,
  index_services, search_services, settings_services, attribute_services, route_of,
  stop_words_services, synonym_services, health_services, stats_services, key_services,
}
use transplant.Server.Access.{IsGuarded}
use transplant.Server.Apart.{find-Takes}
use transplant.Server.Production.{launched-IsGuarded}
use transplant.Server.Restart.{IsStored, launched, disk_of, restarted, restart-answers}
use transplant.Server.Toy.{router}
use Prim.Native.String.{◌++◌}

abbrev host : Host (Unit {0}) (Unit {0})
host = record { join = λ p q. p ++ "/" ++ q; build = λ n. tt; uncompressed = tt; digest = λ s. s }

abbrev disk : Disk crates host
disk = record {
  made = λ p. false;
  names = crates.names.empty _;
  update_dir = λ u. false;
  tables = λ u. (start.updates.state.store u).env;
  files = λ p. none;
  index_dir = λ u. false;
  index = λ u. (none, []);
}

abbrev server : HttpServer crates host rustls open_file
server = record {
  served = data_on crates host production disk;
  frontend = false;
  address = "127.0.0.1:7700";
  tls = some (some (true, 5 ∷ []));
}

starts : (main crates host rustls open_file no_faults production disk).0 ≡ ok server
unfolding main check_env new_data run_http new_controller get_ssl_config configured client_auth
    load_certs load_private_key pick_key load_ocsp add_roots set_resumption default_indexer_opts
starts = refl

main-ok_example :
    (((production.env ≡ "production")
        × ((k : String) × (production.master_key ≡ some k))
        × (server.frontend ≡ false))
      ⊎ ((production.env ≡ "development") × (server.frontend ≡ true)))
    × (get_ssl_config rustls open_file production ≡ ok server.tls)
    × (server.served ≡ data_on crates host production disk)
    × ((main crates host rustls open_file no_faults production disk).1
        ≡ launched_disk crates host production disk)
main-ok_example = main-ok crates host rustls open_file no_faults production disk starts

-- A request for the list of the indexes, with the public key, which is not enough for it.
abbrev listing : Service
listing = record {
  handler = list_indexes;
  method = get;
  wrap = some private_acl;
  pattern = static "indexes" ∷ [];
}

abbrev run : Handler → Outcome ResponseError ℕ
run h = ok 200

is_found : router.find (create_app false) get ("indexes" ∷ []) ≡ some listing
unfolding create_app document_services index_services search_services settings_services
    attribute_services route_of stop_words_services synonym_services health_services stats_services
    key_services
is_found = refl

launched-IsGuarded_example :
    IsGuarded (new_api_keys host.digest (some "m")) (readable "m-public") run listing (
      respond router server.frontend server.served.api_keys get
        ("indexes" ∷ [])
        (readable "m-public")
        run
        (ok 404))
launched-IsGuarded_example =
    launched-IsGuarded crates host rustls open_file router no_faults production disk get
      ("indexes" ∷ []) (readable "m-public") run (ok 404) listing starts refl is_found

find-Takes_example :
    (router.find (create_app false) get ("indexes" ∷ []) ≡ some listing)
    ↔ (In listing (create_app false) × Takes listing get ("indexes" ∷ []))
find-Takes_example = find-Takes router false get ("indexes" ∷ []) listing

-- A server with an index under the name "a", which is loaded.
abbrev running_server : Controller (world (launched crates host))
running_server = record {
  resolver = record {
    running = true;
    state = crates.names.put (crates.names.empty _) (97 ∷ []) (crates.uuids.as_bytes 7);
  };
  updates = record {
    running = true;
    state = record start.updates.state { loaded = λ u. true; dir_exists = λ u. true };
  };
  indexes = record {
    running = true;
    state = record { loaded = λ u. true; dir_exists = λ u. true; index = λ u. (some "id", []) };
  };
}

is_stored : IsStored crates host running_server
is_stored = record {
  resolver_runs = refl;
  updates_runs = refl;
  indexes_runs = refl;
  index_stored = λ u e. refl;
  store_stored = λ u e. refl;
}

restart-answers_example :
    ((new_controller crates host no_faults "data.ms"
        (disk_of crates host (λ p. false) running_server)).0
      ≡ ok (default_handler crates host, restarted crates host running_server))
    × ((name : Text)
        → (get_index
            (world (launched crates host))
            quiet
            name
            (restarted crates host running_server)).0
          ≡ (get_index (world (launched crates host)) quiet name running_server).0)
    × ((name : Text) (n : ℕ)
        → (update_status
            (world (launched crates host))
            quiet
            name
            n
            (restarted crates host running_server)).0
          ≡ (update_status (world (launched crates host)) quiet name n running_server).0)
restart-answers_example =
    restart-answers crates host (λ p. false) "data.ms" running_server is_stored (λ u e. refl)
