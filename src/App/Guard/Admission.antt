-- ===== src/App/Guard/Admission.antt =====
-- Which requests the middleware of src/formshift_server/app.py lets through.
use formshift_server.Prelude.{
  String, true, false, none, some, ◌==◌, ◌≡◌, ◌↔◌, ◌⊎◌, inl, inr, refl, string_eq, eq_iff, elem,
  Bool-cases, Option-cases, arith,
}
use formshift_server.Text.{strip, before, after, is_ascii}
use formshift_server.Config.{ServerConfig}
use formshift_server.App.Guard.{
  Request, admitted, or_empty, hostname_of, origin_hostname, lower_is, check_token, check_bearer,
  check_auth, origin_allowed, guard,
}

-- The request carries the server's token.
pub record HasToken (config : ServerConfig) (request : Request) : Type 0 where
  pub header : String
  pub sent : request.authorization ≡ some header
  pub scheme : lower_is (before 32 header) "bearer" ≡ true
  pub credential : strip (after 32 header) ≡ config.token
  pub ascii : is_ascii config.token ≡ true

-- The request comes from no page, or from a page of an allowed host.
pub data FromAllowed (config : ServerConfig) (request : Request) : Type 0 where
  no_page : request.origin ≡ none → FromAllowed config request
  page :
      (origin host : String)
      → request.origin ≡ some origin
      → origin_hostname origin ≡ some host
      → elem host config.allowed_hosts ≡ true
      → FromAllowed config request

pub record IsAdmitted (config : ServerConfig) (request : Request) : Type 0 where
  pub host : elem (hostname_of (or_empty request.host)) config.allowed_hosts ≡ true
  pub origin : FromAllowed config request
  pub token : (request.path ≡ "/health") ⊎ HasToken config request

module _ (config : ServerConfig) (request : Request) where
  origin_of : origin_allowed config request.origin ≡ true → FromAllowed config request
  unfolding origin_allowed
  origin_of h = elim (Option-cases request.origin) [
    | inl e ↦ no_page e
    | inr (origin, e) ↦ elim (Option-cases (origin_hostname origin)) [
      | inl f ↦ absurd (ground (arith, e, f))
      | inr (host, f) ↦ page origin host e f (ground (arith, e, f))
    ]
  ]

  origin_back : FromAllowed config request → origin_allowed config request.origin ≡ true
  unfolding origin_allowed
  origin_back (no_page e) = ground (arith, e)
  origin_back (page origin host e f m) = ground (arith, e, f, m)

  token_of :
      check_auth config request ≡ admitted → (request.path ≡ "/health") ⊎ HasToken config request
  unfolding check_auth check_bearer check_token
  token_of h = elim (Bool-cases (request.path == "/health")) [
    | inl e ↦ inl (ground (arith, e, eq_iff request.path "/health"))
    | inr e ↦ elim (Option-cases request.authorization) [
      | inl f ↦ absurd (no_header (ground (arith, e, f)))
      | inr (header, f) ↦
          let given : check_bearer config header ≡ admitted = ground (arith, e, f) in
          let equal : strip (after 32 header) ≡ config.token =
            ground (arith, given, eq_iff (strip (after 32 header)) config.token) in
          inr (record {
            header = header;
            sent = f;
            scheme = ground (arith, given);
            credential = equal;
            ascii = ground (arith, given);
          })
    ]
  ]
    where
      no_header : check_bearer config "" ≡ admitted → ⊥
      no_header h = ground (arith, h, blank)
        where
          blank : lower_is (before 32 "") "bearer" ≡ false
          blank = unfold lower_is before in refl

  token_back :
      (request.path ≡ "/health") ⊎ HasToken config request → check_auth config request ≡ admitted
  unfolding check_auth check_bearer check_token
  token_back (inl e) = ground (arith, e, eq_iff request.path "/health")
  token_back (inr has) = ground (
    arith,
    has.sent,
    has.scheme,
    has.credential,
    has.ascii,
    eq_iff (strip (after 32 has.header)) config.token,
  )

  -- `guard` lets a request through exactly where its host is allowed, it comes from no page or
  -- from one of an allowed host, and it asks for "/health" or carries the server's token.
  pub guard_iff : (guard config request ≡ admitted) ↔ IsAdmitted config request
  unfolding guard
  guard_iff = (
    λ h. record {
      host = ground (arith, h);
      origin = origin_of (ground (arith, h));
      token = token_of (ground (arith, h));
    },
    λ a. ground (arith, a.host, origin_back a.origin, token_back a.token),
  )
