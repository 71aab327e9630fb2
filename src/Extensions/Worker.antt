-- ===== src/Extensions/Worker.antt =====
-- `ExtensionWorker` and `IsolatedModule` of src/formshift_server/extensions.py. The lock makes a
-- request one step; what the process does in it is given as its `Conditions`.
pub mod Direct
pub mod Restart
use Prim.Native.String.{◌++◌}
use formshift_server.Prelude.{
  ℕ, String, Bool, true, false, not, ◌&&◌, Option, none, some, List, [], ◌∷◌, ◌==◌, string_eq,
  Result, ok, err, ◌>>=◌, if◌then◌else◌,
}
use formshift_server.Prelude.Dict.{Dict}
use formshift_server.Json.{Json, bool, str, obj, Fields, end, field, field?, is_truthy, Bytes}
use formshift_server.Modules.{ModuleResult, RunError, module_error, other_error}
use formshift_server.Extensions.Manifest.{ExtensionModuleSpec}
use formshift_server.Extensions.Runner.{Codec, as_text, as_fields, member}

-- `self._process`, by a number.
pub record ExtensionWorker : Type 0 where
  pub process : Option ℕ

-- What the pipe gives: an `OSError` or `ValueError`, or a line, which is empty at its end.
pub data Reply : Type 0 where
  pipe_failed : Reply
  line : String → Reply

-- What a request meets: the processes that run, the one that `Popen` would start (none where it
-- raises `OSError`), what the pipe of a process gives for a line that is written to it, and whether
-- the watchdog fired.
pub record Conditions : Type 0 where
  pub is_running : ℕ → Bool
  pub started : Option ℕ
  pub reply : ℕ → String → Reply
  pub timed_out : Bool

-- `_ensure_started`
unfoldable pub ensure_started : Conditions → ExtensionWorker → ExtensionWorker × Option ℕ
ensure_started world worker = elim worker.process [
  | none ↦ start
  | some process ↦ if world.is_running process then (worker, some process) else start
]
  where
    start : ExtensionWorker × Option ℕ
    start = elim world.started [
      | none ↦ (worker, none)
      | some process ↦ (record { process = some process }, some process)
    ]

-- `stop`
abbrev pub stop : ExtensionWorker → ExtensionWorker
stop worker = record { process = none }

module _ (codec : Codec) where
  -- `request`, from the reply on.
  unfoldable pub read_reply :
      ExtensionWorker → (timed_out : Bool) → Reply → ExtensionWorker × Result RunError Json
  read_reply worker timed_out pipe_failed = (stop worker, err (module_error "worker pipe failed"))
  read_reply worker timed_out (line text) =
      if text == ""
      then (stop worker, err (module_error (if timed_out then "timed out" else "worker exited")))
      else (elim (codec.loads text) [
        | none ↦ (stop worker, err (module_error "worker returned invalid output"))
        | some response ↦ (worker, ok response)
      ])

  -- `request`, from the process on.
  unfoldable pub write_request :
      Conditions → Json → ExtensionWorker × Option ℕ → ExtensionWorker × Result RunError Json
  unfolding read_reply
  write_request world payload (ready, none) = (ready, err (module_error "failed to start worker"))
  write_request world payload (ready, some process) =
      read_reply ready world.timed_out (world.reply process (codec.dumps payload ++ "\n"))

  -- `request`
  unfoldable pub request :
      Conditions → ExtensionWorker → Json → ExtensionWorker × Result RunError Json
  unfolding ensure_started write_request
  request world worker payload = write_request world payload (ensure_started world worker)

  unfoldable pub encode_inputs : Dict String Bytes → Fields
  encode_inputs [] = end
  encode_inputs ((port, bytes) ∷ inputs) =
      field port (str (codec.encode64 bytes)) (encode_inputs inputs)

  -- The request of `IsolatedModule.run`.
  unfoldable pub request_document : (src entry : String) → Dict String Bytes → Fields → Bool → Json
  unfolding encode_inputs
  request_document src entry inputs params draft = obj (
      field "src" (str src) (
        field "entry" (str entry) (
          field "inputs" (obj (encode_inputs inputs))
            (field "params" (obj params) (field "draft" (bool draft) end)))))

  -- An exception that is no `ModuleError`.
  abbrev pub or_other {ℓ} : {A : Type ℓ} → Result String A → Result RunError A
  or_other (ok value) = ok value
  or_other (err name) = err (other_error name)

  abbrev pub decode_output : Json → Result String ModuleResult
  decode_output value = do
    out ← as_fields codec "[]" value
    type_value ← member codec "type" out
    type ← as_text codec "type" type_value
    data_value ← member codec "data" out
    text ← as_text codec "b64decode" data_value
    bytes ← elim (codec.decode64 text) [ none ↦ err (codec.not_base64 text) | some b ↦ ok b ]
    ok (record { type = type; content = bytes })

  -- The results in `response["outputs"]`.
  unfoldable pub decode_outputs : Fields → Result String (Dict String ModuleResult)
  decode_outputs end = ok []
  decode_outputs (field port value outputs) = do
    result ← decode_output value
    rest ← decode_outputs outputs
    ok ((port, result) ∷ rest)

  abbrev pub is_ok : Fields → Bool
  is_ok response = elim (field? "ok" response) [ none ↦ false | some value ↦ is_truthy value ]

  -- The text of a value that `get` returned.
  abbrev pub text_of : Option Json → String
  text_of none = "None"
  text_of (some (str text)) = text
  text_of (some value) = codec.show value

  -- The `ModuleError` of a module whose code failed, where `context` is the module's.
  abbrev pub failure : (context error : String) → RunError
  failure context error = module_error (context ++ " failed: " ++ error)

  -- `IsolatedModule.run`, from the response on.
  unfoldable pub results_of : (context : String) → Json → Result RunError (Dict String ModuleResult)
  unfolding decode_outputs
  results_of context document = do
    response ← or_other (as_fields codec "get" document)
    if not (is_ok response)
        then err (failure context (text_of (field? "error" response)))
        else or_other (do
          outputs_value ← member codec "outputs" response
          outputs ← as_fields codec "items" outputs_value
          decode_outputs outputs)

  -- `IsolatedModule.run`: the worker that is left, and the results or what is raised.
  unfoldable pub isolated_run :
      Conditions
      → ExtensionWorker
      → (context src entry : String) → Dict String Bytes
      → Fields
      → Bool
      → ExtensionWorker × Result RunError (Dict String ModuleResult)
  unfolding request request_document results_of
  isolated_run world worker context src entry inputs params draft =
      let (left, response) =
        request world worker (request_document src entry inputs params draft) in
      (left, response >>= results_of context)
