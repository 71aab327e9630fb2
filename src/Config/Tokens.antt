-- ===== src/Config/Tokens.antt =====
-- Which token guards a server that `_build_config` (src/formshift_server/cli.py) lets bind beyond
-- the loopback interface.
use formshift_server.Prelude.{
  String, true, false, Option, none, some, ◌==◌, ◌≡◌, ◌≢◌, ◌⊎◌, inl, inr, refl, string_eq, eq_iff,
  elem, ok, Bool-cases, arith,
}
use formshift_server.Config.{
  default_allowed_hosts, Arguments, ServerConfig, loopback_hosts, build_config,
}

-- A token that someone chose: the argument, or else the environment's, and not empty.
pub data IsChosen (arguments : Arguments) (environment : Option String) (token : String)
    : Type 0 where
  argument : arguments.token ≡ some token → token ≢ "" → IsChosen arguments environment token
  variable :
      (arguments.token ≡ none) ⊎ (arguments.token ≡ some "")
      → environment ≡ some token
      → token ≢ ""
      → IsChosen arguments environment token

-- No token was chosen, but the environment has the variable, with an empty text.
pub record IsEmptyToken (arguments : Arguments) (environment : Option String) : Type 0 where
  pub no_argument : (arguments.token ≡ none) ⊎ (arguments.token ≡ some "")
  pub empty : environment ≡ some ""

no_text :
    (o : Option String) → ((o ≡ none) ⊎ (o ≡ some "")) ⊎ ((s : String) × (o ≡ some s) × (s ≢ ""))
no_text none = inl (inl refl)
no_text (some s) = elim (Bool-cases (s == "")) [
  | inl e ↦ inl (inr (ground (arith, eq_iff s "")))
  | inr e ↦ inr (s, refl, λ same. ground (arith, eq_iff s ""))
]

-- A server that `_build_config` lets bind an interface beyond loopback has a token that someone
-- chose, or a generated one in the one case that the environment holds an empty FORMSHIFT_TOKEN
-- and no token is given as an argument.
pub build_config-IsChosen :
    (arguments : Arguments) (environment : Option String) (generated : String)
    (config : ServerConfig)
    → build_config arguments environment generated ≡ ok config
    → elem config.host loopback_hosts ≡ false
    → IsChosen arguments environment config.token
      ⊎ (IsEmptyToken arguments environment × (config.token ≡ generated))
unfolding build_config
build_config-IsChosen arguments environment generated config h beyond =
    elim (no_text arguments.token) [
      | inr (s, given, some_text) ↦
          let token : s ≡ config.token = ground (arith, given, some_text, eq_iff s "") in
          inl (argument (rw (← token) given) (rw (← token) some_text))
      | inl absent ↦ elim (no_text environment) [
        | inr (s, given, some_text) ↦
            let token : s ≡ config.token = ground (arith, absent, given, some_text, eq_iff s "") in
            inl (variable absent (rw (← token) given) (rw (← token) some_text))
        | inl (inr empty) ↦
            inr (record { no_argument = absent; empty = empty }, ground (arith, absent, empty))
        | inl (inl unset) ↦ absurd (ground (arith, absent, unset))
      ]
    ]

-- A configuration for the given host with a generated token, counted as explicit.
abbrev pub open_config : Arguments → (generated : String) → ServerConfig
open_config arguments generated = record {
  host = arguments.host;
  port = arguments.port;
  token = generated;
  token_explicit = true;
  allowed_hosts = default_allowed_hosts;
  cors_origins = arguments.cors_origin;
  workers = arguments.workers;
  extensions_dir = arguments.extensions_dir;
}

-- With an empty FORMSHIFT_TOKEN and no token as an argument, `_build_config` accepts every host,
-- under a generated token that counts as explicit.
pub build_config-of_empty :
    (arguments : Arguments) (environment : Option String) (generated : String)
    → IsEmptyToken arguments environment
    → build_config arguments environment generated ≡ ok (open_config arguments generated)
unfolding build_config
build_config-of_empty arguments environment generated e = elim e.no_argument [
  | inl absent ↦ ground (arith, absent, e.empty)
  | inr blank ↦ ground (arith, blank, e.empty)
]
