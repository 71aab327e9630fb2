-- ===== src/Extensions/Runner.antt =====
-- src/formshift_server/extension_runner.py: the process that runs the code of an extension, one line
-- of JSON for a request and one for its response.
use Prim.Native.String.{◌++◌}
use formshift_server.Prelude.{
  String, Bool, true, false, Option, none, some, [], ◌∷◌, Result, ok, err, ◌>>=◌, if◌then◌else◌,
  ◌==◌, string_eq,
}
use formshift_server.Prelude.Dict.{Dict}
use formshift_server.Text.{before, after, strip}
use formshift_server.Json.{Json, bool, str, obj, Fields, end, field, field?, is_truthy, Bytes}

-- `base64` and `json`, with `none` where a text is not in the form; `repr` and `str` of a value; and
-- the texts of the exceptions that Python raises, with the name of the class, where a value is not of
-- the kind that an operation needs, or a text not in the form.
pub record Codec : Type 0 where
  pub encode64 : Bytes → String
  pub decode64 : String → Option Bytes
  pub dumps : Json → String
  pub loads : String → Option Json
  pub repr : String → String
  pub show : Json → String
  pub misused : (operation : String) → Json → String
  pub not_base64 : String → String
  pub not_json : String → String

-- What the code of an extension returns for a port.
pub data Produced : Type 0 where
  content : Bytes → Produced
  no_bytes : (type_name : String) → Produced

-- The callable of an extension, which may raise.
abbrev pub Entry : Type 0
Entry = Dict String Bytes → Json → Bool → Result String (Dict String (String × Produced))

module _ (codec : Codec) where
  -- `request[name]`
  abbrev pub member : String → Fields → Result String Json
  member name request = elim (field? name request) [
    | none ↦ err ("KeyError: " ++ codec.repr name)
    | some value ↦ ok value
  ]

  abbrev pub as_text : (operation : String) → Json → Result String String
  as_text operation (str text) = ok text
  as_text operation value = err (codec.misused operation value)

  abbrev pub as_fields : (operation : String) → Json → Result String Fields
  as_fields operation (obj fields) = ok fields
  as_fields operation value = err (codec.misused operation value)

-- The exception at a port whose value is no bytes.
abbrev pub no_bytes_error : Codec → (port type_name : String) → String
no_bytes_error codec port type_name =
    "TypeError: output port " ++ codec.repr port ++ " produced " ++ type_name ++ ", expected bytes"

-- `load` is the import of a module from a path and the lookup of an attribute of it, with the text of
-- the exception that it raises.
module _ (codec : Codec)
    (load : (src : Json) → (module_name attr : String) → Result String Entry) where
  abbrev pub decode_bytes : String → Result String Bytes
  decode_bytes text = elim (codec.decode64 text) [
    | none ↦ err (codec.not_base64 text)
    | some bytes ↦ ok bytes
  ]

  -- `{port: base64.b64decode(b64) for port, b64 in request["inputs"].items()}`
  unfoldable pub decode_inputs : Fields → Result String (Dict String Bytes)
  decode_inputs end = ok []
  decode_inputs (field port value fields) = do
    text ← as_text codec "b64decode" value
    bytes ← decode_bytes text
    rest ← decode_inputs fields
    ok ((port, bytes) ∷ rest)

  -- The loop over what the callable produced.
  unfoldable pub encode_outputs : Dict String (String × Produced) → Result String Fields
  encode_outputs [] = ok end
  encode_outputs ((port, (type, no_bytes name)) ∷ produced) = err (no_bytes_error codec port name)
  encode_outputs ((port, (type, content bytes)) ∷ produced) = do
    rest ← encode_outputs produced
    ok (
        field port (obj (field "type" (str type) (field "data" (str (codec.encode64 bytes)) end)))
          rest)

  -- `getattr(importlib.import_module(module_name), attr)`, of `entry.partition(":")`
  abbrev pub find_entry : (src : Json) → (entry : String) → Result String Entry
  find_entry src entry = load src (before 58 entry) (after 58 entry)

  -- `_run`
  unfoldable pub run_request : Json → Result String Fields
  unfolding decode_inputs encode_outputs
  run_request document = do
    request ← as_fields codec "[]" document
    src ← member codec "src" request
    entry_value ← member codec "entry" request
    entry_text ← as_text codec "partition" entry_value
    entry ← find_entry src entry_text
    inputs_value ← member codec "inputs" request
    encoded ← as_fields codec "items" inputs_value
    inputs ← decode_inputs encoded
    params ← member codec "params" request
    draft ← member codec "draft" request
    produced ← entry inputs params (is_truthy draft)
    outputs ← encode_outputs produced
    ok (field "ok" (bool true) (field "outputs" (obj outputs) end))

  abbrev pub response_of : Result String Fields → Json
  response_of (ok response) = obj response
  response_of (err error) = obj (field "ok" (bool false) (field "error" (str error) end))

  abbrev pub loaded : String → Result String Json
  loaded line = elim (codec.loads line) [
    | none ↦ err (codec.not_json line)
    | some document ↦ ok document
  ]

  -- One turn of `serve`: the line that answers a line, and none for a blank one.
  unfoldable pub serve_line : String → Option String
  unfolding run_request
  serve_line line =
      if strip line == ""
      then none
      else some (codec.dumps (response_of (loaded line >>= run_request)) ++ "\n")
