-- ===== src/Server/Production.antt =====
-- A server in production, from its options to its answers: meilisearch-http/src/main.rs,
-- data/mod.rs, lib.rs and helpers/authentication.rs beside it.
use transplant.Base.{
  ◌≡◌, inl, inr, refl, sym, subst, eq_iff, ap, ◌∙◌, Bool, false, Option, none, some, List, arith,
  String,
}
use transplant.Base.Outcome.{Outcome, ok}
use transplant.HttpError.{ResponseError}
use transplant.Authentication.{ApiKeys, Header, new_api_keys, generate_missing_api_keys}
use transplant.Options.{Opt}
use transplant.Options.Tls.{Rustls, Opening}
use transplant.Routes.{Crates}
use transplant.Server.{Faults, Host, Disk, HttpServer, main}
use transplant.Server.Launch.{main-ok}
use transplant.Server.Routing.{Method, Service, Router, Handler, create_app, respond}
use transplant.Server.Access.{IsGuarded, respond-IsGuarded}

new_api_keys-master :
    (digest : String → String) (master : Option String)
    → (new_api_keys digest master).master ≡ master
unfolding new_api_keys generate_missing_api_keys
new_api_keys-master digest none = refl
new_api_keys-master digest (some k) = refl

module _ (crates : Crates) (host : Host crates.builders.CompressionType crates.builders.ThreadPool)
    (rustls : Rustls) (open_file : Opening → String → Option rustls.File) (router : Router)
    {R : Type 0} where
  guarded :
      (opt : Opt crates.builders.CompressionType) (x : HttpServer crates host rustls open_file)
      → x.served.api_keys ≡ new_api_keys host.digest opt.master_key
      → (k : String) → opt.master_key ≡ some k
      → x.frontend ≡ false
      → (m : Method) (path : List String) (header : Header)
      → (run : Handler → Outcome ResponseError R) (not_found : Outcome ResponseError R)
      → (s : Service) → router.find (create_app x.frontend) m path ≡ some s
      → IsGuarded
          (new_api_keys host.digest opt.master_key)
          header
          run
          s
          (respond router x.frontend x.served.api_keys m path header run not_found)
  guarded opt x same_keys k has closed m path header run not_found s found =
      let keys = new_api_keys host.digest opt.master_key in
      let master : keys.master ≡ some k = new_api_keys-master host.digest opt.master_key ∙ has in
      let respond_with : Bool → ApiKeys → Outcome ResponseError R =
        λ f a. respond router f a m path header run not_found in
      subst (IsGuarded keys header run s)
        (ap (respond_with false) (sym same_keys)
          ∙ ap (λ f. respond_with f x.served.api_keys) (sym closed))
        (respond-IsGuarded router keys m path header run not_found s (λ e. cc (sym master ∙ e))
          (subst (λ f. router.find (create_app f) m path ≡ some s) closed found))

  -- On a server that is launched in production, a request that a service takes is answered by the
  -- service when that is the health or the page that says that the server runs. Every other service is
  -- behind the middleware: it answers when the request has a key that is granted for it among the keys
  -- made of the master key of the options, and else the request is refused for a missing header or a
  -- bad token.
  pub launched-IsGuarded :
      (fault : Faults) (opt : Opt crates.builders.CompressionType) (d : Disk crates host)
      {x : HttpServer crates host rustls open_file} (m : Method) (path : List String)
      (header : Header) (run : Handler → Outcome ResponseError R)
      (not_found : Outcome ResponseError R) (s : Service)
      → (main crates host rustls open_file fault opt d).0 ≡ ok x
      → opt.env ≡ "production"
      → router.find (create_app x.frontend) m path ≡ some s
      → let keys = new_api_keys host.digest opt.master_key in
        let answer = respond router x.frontend x.served.api_keys m path header run not_found in
        IsGuarded keys header run s answer
  launched-IsGuarded fault opt d {x} m path header run not_found s launched production found =
      let facts = main-ok crates host rustls open_file fault opt d launched in
      elim facts.0 [
        | inl (p, (k, has), closed) ↦
            guarded opt x (ap (λ v. v.api_keys) facts.2) k has closed m path header run not_found s
              found
        | inr (p, shown) ↦
            absurd (ground (arith, (eq_iff "production" "development").1 (sym production ∙ p)))
      ]
