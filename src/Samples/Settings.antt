-- ===== src/Samples/Settings.antt =====
-- Command lines, and requests before the middleware, as concrete values.
use formshift_server.Prelude.{pos, String, Option, none, some, [], ◌≡◌, ◌↔◌, ◌⊎◌, inl, refl, ok}
use formshift_server.Config.{Arguments, ServerConfig, build_config}
use formshift_server.Config.Tokens.{
  IsChosen, IsEmptyToken, open_config, build_config-IsChosen, build_config-of_empty,
}
use formshift_server.App.Guard.{Request, admitted, guard}
use formshift_server.Text.{strip, is_space, has_char, before_last, behind, before, is_ascii, after}
use formshift_server.App.Guard.Admission.{IsAdmitted, guard_iff}

abbrev on_all : Option String → Arguments
on_all token = record {
  host = "0.0.0.0";
  port = pos 7457;
  token = token;
  cors_origin = [];
  workers = none;
  extensions_dir = none;
}

abbrev pub guarded : ServerConfig
guarded = open_config (on_all (some "secret")) "secret"

builds : build_config (on_all (some "secret")) (some "other") "drawn" ≡ ok guarded
unfolding build_config
builds = refl

build_config-IsChosen_example :
    IsChosen (on_all (some "secret")) (some "other") "secret"
    ⊎ (IsEmptyToken (on_all (some "secret")) (some "other") × (guarded.token ≡ "drawn"))
build_config-IsChosen_example =
    build_config-IsChosen (on_all (some "secret")) (some "other") "drawn" guarded builds refl

build_config-of_empty_example :
    build_config (on_all none) (some "") "drawn" ≡ ok (open_config (on_all none) "drawn")
build_config-of_empty_example =
    build_config-of_empty (on_all none) (some "") "drawn"
      (record { no_argument = inl refl; empty = refl })

abbrev from_page : Request
from_page = record {
  host = some "localhost:7457";
  origin = some "http://localhost:5173";
  authorization = some "Bearer secret";
  path = "/v1/sessions";
}

-- The middleware lets the request of a local page with the server's token through.
admits_page : guard guarded from_page ≡ admitted
unfolding guard strip is_space has_char before_last behind before is_ascii after
admits_page = refl

guard_iff_example : (guard guarded from_page ≡ admitted) ↔ IsAdmitted guarded from_page
guard_iff_example = guard_iff guarded from_page
