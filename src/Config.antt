-- ===== src/Config.antt =====
-- src/formshift_server/config.py, and `_build_config` of src/formshift_server/cli.py. Arguments are
-- what `argparse` returns; the environment's FORMSHIFT_TOKEN and the token that `secrets` draws are
-- arguments.
pub mod Tokens
use formshift_server.Prelude.{
  ℕ, ℤ, pos, String, Bool, true, false, not, ◌&&◌, Option, none, some, List, [], ◌∷◌, ◌==◌,
  string_eq, elem, is_some, Result, ok, err, ◌>>=◌, ◌>>◌, raise_if, if◌then◌else◌,
}

-- `LOOPBACK_HOSTS`
abbrev pub loopback_hosts : List String
loopback_hosts = "127.0.0.1" ∷ "localhost" ∷ "::1" ∷ []

-- `DEFAULT_ALLOWED_HOSTS`
abbrev pub default_allowed_hosts : List String
default_allowed_hosts = "127.0.0.1" ∷ "localhost" ∷ "[::1]" ∷ "::1" ∷ []

pub record ServerConfig : Type 0 where
  pub host : String
  pub port : ℤ
  pub token : String
  pub token_explicit : Bool
  pub allowed_hosts : List String
  pub cors_origins : List String
  pub workers : Option ℤ
  pub extensions_dir : Option String

-- The `ValueError` of `validate`.
pub data ConfigError : Type 0 where
  non_loopback : (host : String) → ConfigError

-- `ServerConfig.validate`
unfoldable pub validate : ServerConfig → Result ConfigError (Unit {0})
validate config =
    raise_if (not (elem config.host loopback_hosts) && not config.token_explicit)
      (non_loopback config.host)

-- The namespace that `parse_args` returns.
pub record Arguments : Type 0 where
  pub host : String
  pub port : ℤ
  pub token : Option String
  pub cors_origin : List String
  pub workers : Option ℤ
  pub extensions_dir : Option String

-- `token or other`, where an empty text counts as none.
unfoldable pub or_text {ℓ} : {A : Type ℓ} → Option String → (String → A) → A → A
or_text none keep other = other
or_text (some s) keep other = if s == "" then other else keep s

-- `_build_config`
unfoldable pub build_config :
    Arguments
    → (environment : Option String) → (generated : String) → Result ConfigError ServerConfig
unfolding or_text validate
build_config arguments environment generated = do
  let token = or_text arguments.token some environment
  let config : ServerConfig = record {
    host = arguments.host;
    port = arguments.port;
    token = or_text token (λ s. s) generated;
    token_explicit = is_some token;
    allowed_hosts = default_allowed_hosts;
    cors_origins = arguments.cors_origin;
    workers = arguments.workers;
    extensions_dir = arguments.extensions_dir;
  }
  validate config
  ok config
