-- ===== src/Authentication.antt =====
-- The API keys, meilisearch-http/src/data/mod.rs, and the middleware that asks for them,
-- meilisearch-http/src/helpers/authentication.rs. The digest is a parameter: SHA-256 in lower-case
-- hexadecimal, of the `sha2` crate.
pub mod Access
mod Tests
use transplant.Base.{Bool, true, false, ◌||◌, Option, none, some, if◌then◌else◌, str_eq, String}
use transplant.Base.Outcome.{Outcome, ok, err, panicked}
use transplant.HttpError.{ResponseError, of_error, invalid_token, missing_authorization_header}
use Prim.Native.String.{◌++◌}

pub record ApiKeys : Type 0 where
  pub public : Option String
  pub private : Option String
  pub master : Option String

unfoldable pub generate_missing_api_keys : (String → String) → ApiKeys → ApiKeys
generate_missing_api_keys digest keys = elim keys.master [
  | none ↦ keys
  | some master_key ↦
      let with_private : ApiKeys = elim keys.private [
        | none ↦ record keys { private = some (digest (master_key ++ "-private")) }
        | some k ↦ keys
      ] in
      elim with_private.public [
        | none ↦ record with_private { public = some (digest (master_key ++ "-public")) }
        | some k ↦ with_private
      ]
]

-- The keys of `Data::new`: the master key of the options, and the other two made from it.
unfoldable pub new_api_keys : (String → String) → Option String → ApiKeys
new_api_keys digest master_key =
    generate_missing_api_keys digest (record { public = none; private = none; master = master_key })

pub data Authentication : Type 0 where
  public_acl private_acl admin_acl : Authentication

-- The header `X-Meili-API-Key` of a request: it may be missing, and it may be no text.
pub data Header : Type 0 where
  missing unreadable : Header
  readable : String → Header

-- `key.as_deref() == Some(auth_header)`.
abbrev pub matches : Option String → String → Bool
matches none auth_header = false
matches (some key) auth_header = str_eq key auth_header

unfoldable pub is_authenticated : Authentication → ApiKeys → String → Bool
is_authenticated admin_acl keys auth_header = matches keys.master auth_header
is_authenticated private_acl keys auth_header =
    matches keys.master auth_header || matches keys.private auth_header
is_authenticated public_acl keys auth_header =
    matches keys.master auth_header
    || (matches keys.private auth_header || matches keys.public auth_header)

-- `call`: `service` is what the wrapped service answers to the request, and `data` the
-- application's data that the request carries.
unfoldable pub call :
    {R : Type 0}
    → Authentication
    → Option ApiKeys
    → Header
    → Outcome ResponseError R
    → Outcome ResponseError R
unfolding is_authenticated
call acl none header service = panicked "called `Option::unwrap()` on a `None` value"
call acl (some keys) header service = elim keys.master [
  | none ↦ service
  | some key ↦ elim header [
    | missing ↦ err (of_error missing_authorization_header)
    | unreadable ↦ err (of_error missing_authorization_header)
    | readable auth_header ↦
        if is_authenticated acl keys auth_header
        then service
        else err (of_error (invalid_token auth_header))
  ]
]
