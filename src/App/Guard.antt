-- ===== src/App/Guard.antt =====
-- The middleware of src/formshift_server/app.py that lets a request through: `_hostname_of`,
-- `_origin_hostname` and `guard`. Headers are texts, `none` where they are absent.
pub mod Admission
use Prim.Native.String.{◌∷◌, ◌++◌}
use Prim.Native.Char.{Char, code}
use formshift_server.Prelude.{
  ℕ, ◌+◌, String, Bool, true, false, not, ◌&&◌, ◌||◌, Option, none, some, List, ◌==◌, leb, nat_eq,
  string_eq, elem, is_some, if◌then◌else◌,
}
use formshift_server.Text.{strip, has_char, before, after, before_last, behind, is_ascii}
use formshift_server.Config.{ServerConfig}

-- `_hostname_of`; 91 is `[`, 93 is `]` and 58 is `:`.
unfoldable pub hostname_of_value : String → String
hostname_of_value String.[] = String.[]
hostname_of_value (c ∷ s) =
    if code c == 91
    then before 93 (c ∷ s) ++ "]"
    else (if has_char 58 (c ∷ s) then before_last 58 (c ∷ s) else c ∷ s)

unfoldable pub hostname_of : String → String
unfolding hostname_of_value
hostname_of header_value = hostname_of_value (strip header_value)

-- `_origin_hostname`
unfoldable pub origin_hostname : String → Option String
unfolding hostname_of
origin_hostname origin = elim (behind "http://" origin) [
  | some rest ↦ some (hostname_of rest)
  | none ↦ elim (behind "https://" origin) [ some rest ↦ some (hostname_of rest) | none ↦ none ]
]

unfoldable pub lower : ℕ → ℕ
lower n = if leb 65 n && leb n 90 then n + 32 else n

-- `s.lower() == t`, for a `t` of small letters whose capitals are ASCII.
unfoldable pub lower_is : String → String → Bool
unfolding lower
lower_is String.[] String.[] = true
lower_is (c ∷ s) (d ∷ t) = (lower (code c) == code d) && lower_is s t
lower_is _ _ = false

pub record Request : Type 0 where
  pub host : Option String
  pub origin : Option String
  pub authorization : Option String
  pub path : String

-- `type_error` is the exception of `secrets.compare_digest` on texts that are not ASCII.
pub data Verdict : Type 0 where
  admitted host_not_allowed origin_not_allowed unauthorized type_error : Verdict

abbrev pub or_empty : Option String → String
or_empty none = ""
or_empty (some s) = s

-- `secrets.compare_digest`, on texts.
unfoldable pub check_token : String → String → Verdict
check_token credential token =
    if is_ascii credential && is_ascii token
    then (if credential == token then admitted else unauthorized)
    else type_error

-- The token check.
unfoldable pub check_bearer : ServerConfig → String → Verdict
unfolding check_token lower_is
check_bearer config auth =
    if lower_is (before 32 auth) "bearer"
    then check_token (strip (after 32 auth)) config.token
    else unauthorized

unfoldable pub check_auth : ServerConfig → Request → Verdict
unfolding check_bearer
check_auth config request =
    if request.path == "/health"
    then admitted
    else check_bearer config (or_empty request.authorization)

-- The origin check, where the header is present.
unfoldable pub origin_allowed : ServerConfig → Option String → Bool
unfolding origin_hostname
origin_allowed config none = true
origin_allowed config (some origin) = elim (origin_hostname origin) [
  | none ↦ false
  | some host ↦ elem host config.allowed_hosts
]

-- `guard`, up to the call of the endpoint.
unfoldable pub guard : ServerConfig → Request → Verdict
unfolding hostname_of origin_allowed check_auth
guard config request =
    if not (elem (hostname_of (or_empty request.host)) config.allowed_hosts)
    then host_not_allowed
    else (if not (origin_allowed config request.origin)
        then origin_not_allowed
        else check_auth config request)
