-- ===== src/Authentication/Access.antt =====
-- Who passes the middleware of meilisearch-http/src/helpers/authentication.rs.
use transplant.Base.{
  ◌≡◌, ◌≢◌, ◌↔◌, ◌⊎◌, inl, inr, refl, true, false, Option, none, some, arith, String, str_eq,
  Option-cases, Bool-cases, eq_iff,
}
use transplant.Base.Outcome.{Outcome, err}
use Prim.Native.String.{◌++◌}
use transplant.HttpError.{ResponseError, of_error, invalid_token, missing_authorization_header}
use transplant.Authentication.{
  ApiKeys, Authentication, Header, call, is_authenticated, matches, new_api_keys,
  generate_missing_api_keys, public_acl, private_acl, admin_acl, readable, missing, unreadable,
}

-- The keys that open a route.
abbrev pub IsGranted : Authentication → ApiKeys → String → Type 0
IsGranted admin_acl keys k = keys.master ≡ some k
IsGranted private_acl keys k = (keys.master ≡ some k) ⊎ (keys.private ≡ some k)
IsGranted public_acl keys k =
    (keys.master ≡ some k) ⊎ ((keys.private ≡ some k) ⊎ (keys.public ≡ some k))

matches_iff : (o : Option String) (k : String) → (matches o k ≡ true) ↔ (o ≡ some k)
matches_iff none k = (λ h. absurd (ground (arith, h)), λ h. absurd (ground (arith, h)))
matches_iff (some j) k = (λ h. rw ((eq_iff j k).0 h) refl, λ h. (eq_iff j k).1 (ground (arith, h)))

is_authenticated_iff :
    (acl : Authentication) (keys : ApiKeys) (k : String)
    → (is_authenticated acl keys k ≡ true) ↔ IsGranted acl keys k
unfolding is_authenticated
is_authenticated_iff public_acl keys k =
    ground (arith, matches_iff keys.master k, matches_iff keys.private k, matches_iff keys.public k)
is_authenticated_iff private_acl keys k =
    ground (arith, matches_iff keys.master k, matches_iff keys.private k)
is_authenticated_iff admin_acl keys k = matches_iff keys.master k

differ : (s t : String) → s ≢ t → str_eq s t ≡ false
differ s t n = elim (Bool-cases (str_eq s t)) [ inl e ↦ absurd (n ((eq_iff s t).0 e)) | inr e ↦ e ]

-- With the keys at hand: without a master key every request reaches the service. With one, a
-- request whose header is missing or unreadable is refused as such, and a request with a
-- readable one either has a key that is granted for the route and reaches the service, or has
-- none and is refused as a bad token.
pub call-answers :
    {R : Type 0} (acl : Authentication) (keys : ApiKeys) (service : Outcome ResponseError R)
    → (keys.master ≡ none → (header : Header) → call acl (some keys) header service ≡ service)
      × (keys.master ≢ none
          → (call acl (some keys) missing service ≡ err (of_error missing_authorization_header))
            × (call acl (some keys) unreadable service
                ≡ err (of_error missing_authorization_header))
            × ((k : String)
                → (IsGranted acl keys k × (call acl (some keys) (readable k) service ≡ service))
                  ⊎ ((IsGranted acl keys k → ⊥)
                      × (call acl (some keys) (readable k) service
                          ≡ err (of_error (invalid_token k))))))
unfolding call
call-answers acl keys service = (
  λ e header. rw e refl,
  λ n. elim (Option-cases keys.master) [
    | inl e ↦ absurd (n e)
    | inr (m, e) ↦ (
      rw e refl,
      rw e refl,
      λ k. elim (Bool-cases (is_authenticated acl keys k)) [
        | inl y ↦ inl ((is_authenticated_iff acl keys k).0 y, rw (e, y) refl)
        | inr z ↦
            inr (
              λ g. absurd (ground (arith, (is_authenticated_iff acl keys k).1 g, z)),
              rw (e, z) refl,
            )
      ],
    )
  ],
)

-- On a server with a master key whose private and public keys differ from it and from each
-- other, the master key opens all three kinds of routes; the private key opens private and
-- public routes, and is a bad token on an admin route; the public key opens public routes, and
-- is a bad token on the other two.
pub new_api_keys-levels :
    {R : Type 0} (digest : String → String) (m : String) (service : Outcome ResponseError R)
    → let private_key = digest (m ++ "-private") in
      let public_key = digest (m ++ "-public") in
      let ask : Authentication → String → Outcome ResponseError R =
        λ acl k. call acl (some (new_api_keys digest (some m))) (readable k) service in
      private_key ≢ public_key
      → m ≢ private_key
      → m ≢ public_key
      → ((ask admin_acl m ≡ service) × (ask private_acl m ≡ service) × (ask public_acl m ≡ service))
        × (ask admin_acl private_key ≡ err (of_error (invalid_token private_key)))
        × (ask private_acl private_key ≡ service)
        × (ask public_acl private_key ≡ service)
        × (ask admin_acl public_key ≡ err (of_error (invalid_token public_key)))
        × (ask private_acl public_key ≡ err (of_error (invalid_token public_key)))
        × (ask public_acl public_key ≡ service)
unfolding call is_authenticated new_api_keys generate_missing_api_keys
new_api_keys-levels digest m service apart other_private other_public =
    let private_key = digest (m ++ "-private") in
    let public_key = digest (m ++ "-public") in
    let mm = (eq_iff m m).1 refl in
    let pp = (eq_iff private_key private_key).1 refl in
    let uu = (eq_iff public_key public_key).1 refl in
    let mp = differ m private_key other_private in
    let mu = differ m public_key other_public in
    let pu = differ private_key public_key apart in
    (
      (rw mm refl, rw mm refl, rw mm refl),
      rw mp refl,
      rw (mp, pp) refl,
      rw (mp, pp) refl,
      rw mu refl,
      rw (mu, pu) refl,
      rw (mu, pu, uu) refl,
    )
