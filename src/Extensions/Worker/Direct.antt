-- ===== src/Extensions/Worker/Direct.antt =====
-- A module in a worker process: `IsolatedModule.run` (src/formshift_server/extensions.py) over the
-- pipe to src/formshift_server/extension_runner.py, against a direct call of the extension's code.
use Prim.Native.String.{◌++◌}
use formshift_server.Prelude.{
  ℕ, String, Bool, true, some, [], ◌∷◌, ◌==◌, ◌≡◌, ◌≢◌, refl, ap, ◌∙◌, string_eq, eq_iff, arith,
  Result, ok, err, ◌>>=◌, Result-cases, Bool-cases, ◌⊎◌, inl, inr,
}
use formshift_server.Prelude.Dict.{Dict}
use formshift_server.Text.{before, after, strip, trim_start, trim_end}
use formshift_server.Json.{Json, bool, str, obj, Fields, end, field, field?, is_truthy, Bytes}
use formshift_server.Modules.{ModuleResult, RunError}
use formshift_server.Extensions.Runner.{
  no_bytes_error, Codec, Entry, Produced, content, no_bytes, decode_inputs, encode_outputs,
  run_request, loaded, response_of, serve_line,
}
use formshift_server.Extensions.Worker.{
  ExtensionWorker, Conditions, Reply, line, ensure_started, read_reply, write_request, request,
  encode_inputs, request_document, decode_outputs, failure, results_of, isolated_run,
}

-- The results of what a callable produced, where every port has bytes, and else the exception
-- at the first that has none.
unfoldable pub plain :
    Codec → Dict String (String × Produced) → Result String (Dict String ModuleResult)
plain codec [] = ok []
plain codec ((port, (type, no_bytes name)) ∷ produced) = err (no_bytes_error codec port name)
plain codec ((port, (type, content bytes)) ∷ produced) = do
  results ← plain codec produced
  ok ((port, record { type = type; content = bytes }) ∷ results)

-- What a direct call of the code gives: its results, or a `ModuleError` with the module and the
-- exception in its text, where it raises or where a port has no bytes.
unfoldable pub direct :
    Codec
    → (context : String) → Result String (Dict String (String × Produced))
    → Result RunError (Dict String ModuleResult)
unfolding plain
direct codec context (err raised) = err (failure codec context raised)
direct codec context (ok produced) = elim (plain codec produced) [
  | err raised ↦ err (failure codec context raised)
  | ok results ↦ ok results
]

-- A document that comes back from its line, and whose line is not blank.
pub record IsCarried (codec : Codec) (document : Json) : Type 0 where
  pub back : codec.loads (codec.dumps document ++ "\n") ≡ some document
  pub some_text : strip (codec.dumps document ++ "\n") ≢ ""

strip_empty : strip "" ≡ ""
unfolding strip trim_start trim_end
strip_empty = refl

request-replied :
    (codec : Codec) (world : Conditions) (worker ready : ExtensionWorker) (process : ℕ)
    (document response : Json) (reply : Reply)
    → ensure_started world worker ≡ (ready, some process)
    → world.reply process (codec.dumps document ++ "\n") ≡ reply
    → read_reply codec ready world.timed_out reply ≡ (ready, ok response)
    → request codec world worker document ≡ (ready, ok response)
unfolding request write_request
request-replied codec world worker ready process document response reply started replied read =
    rw started (rw replied read)

module _ (codec : Codec) (load : (src : Json) → (module_name attr : String) → Result String Entry)
    (decode-encode : (bytes : Bytes) → codec.decode64 (codec.encode64 bytes) ≡ some bytes) where
  decode-encode_inputs :
      (inputs : Dict String Bytes)
      → decode_inputs codec load (encode_inputs codec inputs) ≡ ok inputs
  unfolding decode_inputs encode_inputs
  decode-encode_inputs [] = refl
  decode-encode_inputs ((port, bytes) ∷ inputs) =
      ground (arith, decode-encode bytes, decode-encode_inputs inputs)

  -- The outputs cross the pipe, or the runner refuses to encode them.
  Crosses : Dict String (String × Produced) → Type 0
  Crosses produced =
      ((fields : Fields) × (results : Dict String ModuleResult) × (encode_outputs codec load
            produced
          ≡ ok fields)
        × (plain codec produced ≡ ok results)
        × (decode_outputs codec fields ≡ ok results))
      ⊎ ((error : String) × (encode_outputs codec load produced ≡ err error)
          × (plain codec produced ≡ err error))

  output_back :
      (port type : String) (bytes : Bytes) (fields : Fields) (results : Dict String ModuleResult)
      → decode_outputs codec fields ≡ ok results
      → decode_outputs codec (
          field port
            (obj (field "type" (str type) (field "data" (str (codec.encode64 bytes)) end)))
            fields)
        ≡ ok ((port, record { type = type; content = bytes }) ∷ results)
  unfolding decode_outputs field?
  output_back port type bytes fields results decoded = ground (arith, decode-encode bytes, decoded)

  crosses : (produced : Dict String (String × Produced)) → Crosses produced
  unfolding Crosses encode_outputs decode_outputs plain
  crosses [] = inl (end, [], refl, refl, refl)
  crosses ((port, (type, no_bytes name)) ∷ produced) =
      inr (no_bytes_error codec port name, refl, refl)
  crosses ((port, (type, content bytes)) ∷ produced) = elim (crosses produced) [
    | inl (fields, results, encoded, is_plain, decoded) ↦ inl (
      field port (obj (field "type" (str type) (field "data" (str (codec.encode64 bytes)) end)))
          fields,
      (port, record { type = type; content = bytes }) ∷ results,
      ground (arith, encoded),
      ground (arith, is_plain),
      output_back port type bytes fields results decoded,
    )
    | inr (error, failed, not_plain) ↦
        inr (error, ground (arith, failed), ground (arith, not_plain))
  ]

  module _ (context src entry : String) (callable : Entry)
      (found : load (str src) (before 58 entry) (after 58 entry) ≡ ok callable)
      (inputs : Dict String Bytes) (params : Fields) (draft : Bool) where
    -- What the runner answers, before it is written.
    unfoldable pub answer : Json
    answer = response_of codec load (
        callable inputs (obj params) draft >>= λ produced.
        encode_outputs codec load produced >>= λ outputs.
        ok (field "ok" (bool true) (field "outputs" (obj outputs) end)))

    unfoldable pub asked : Json
    asked = request_document codec src entry inputs params draft

    run_request-answer : response_of codec load (run_request codec load asked) ≡ answer
    unfolding run_request request_document field? is_truthy answer asked
    run_request-answer =
        rw (decode-encode_inputs inputs) ground (arith, found, decode-encode_inputs inputs)

    results_of-answer :
        results_of codec context answer ≡ direct codec context (callable inputs (obj params) draft)
    unfolding results_of direct answer field? is_truthy Crosses
    results_of-answer = elim (Result-cases (callable inputs (obj params) draft)) [
      | inr (error, e) ↦ ground (arith, e)
      | inl (produced, e) ↦ elim (crosses produced) [
        | inl (fields, results, encoded, is_plain, decoded) ↦
            ground (arith, e, encoded, is_plain, decoded)
        | inr (error, failed, not_plain) ↦ ground (arith, e, failed, not_plain)
      ]
    ]

    -- A process that answers a line as the runner does, with the code that it finds.
    unfoldable pub IsServing : (String → Reply) → Type 0
    IsServing reply =
        (request text : String)
        → serve_line codec load request ≡ some text
        → reply request ≡ line text

    loaded_lem : IsCarried codec asked → loaded codec load (codec.dumps asked ++ "\n") ≡ ok asked
    loaded_lem carried = rw (carried.back, loaded) refl

    served :
        IsCarried codec asked
        → serve_line codec load (codec.dumps asked ++ "\n") ≡ some (codec.dumps answer ++ "\n")
    unfolding serve_line
    served carried = elim (Bool-cases (strip (codec.dumps asked ++ "\n") == "")) [
      | inl e ↦ absurd (carried.some_text ((eq_iff (strip (codec.dumps asked ++ "\n")) "").0 e))
      | inr e ↦
          rw (e, loaded_lem carried) (ap (λ d. some (codec.dumps d ++ "\n")) run_request-answer)
    ]

    read_reply-carried :
        (worker : ExtensionWorker) (timed_out : Bool)
        → IsCarried codec answer
        → read_reply codec worker timed_out (line (codec.dumps answer ++ "\n"))
          ≡ (worker, ok answer)
    unfolding read_reply
    read_reply-carried worker timed_out carried =
        elim (Bool-cases ((codec.dumps answer ++ "\n") == "")) [
          | inl e ↦ absurd (
              carried.some_text
                (ap strip ((eq_iff (codec.dumps answer ++ "\n") "").0 e) ∙ strip_empty))
          | inr e ↦ rw (e, carried.back) refl
        ]

    -- Where the runner serves the worker's process with the code that it finds, and the request
    -- and the answer come back from their lines, a module in a worker process returns what a direct
    -- call of its code gives: the same results, and where the code raises or leaves a port without
    -- bytes, a `ModuleError` with the module and the exception in its text. The worker keeps its process.
    pub isolated_run-direct :
        (world : Conditions) (worker ready : ExtensionWorker) (process : ℕ)
        → ensure_started world worker ≡ (ready, some process)
        → IsServing (world.reply process)
        → IsCarried codec asked
        → IsCarried codec answer
        → isolated_run codec world worker context src entry inputs params draft
          ≡ (ready, direct codec context (callable inputs (obj params) draft))
    unfolding isolated_run IsServing asked
    isolated_run-direct world worker ready process started serving is_asked is_answered =
        let replied : world.reply process (codec.dumps asked ++ "\n")
            ≡ line (codec.dumps answer ++ "\n") =
          serving (codec.dumps asked ++ "\n") (codec.dumps answer ++ "\n") (served is_asked) in
        rw
          (request-replied codec world worker ready process asked answer
            (line (codec.dumps answer ++ "\n")) started replied
            (read_reply-carried ready world.timed_out is_answered))
          (ap (λ r. (ready, r)) results_of-answer)
