-- ===== src/Samples/Workers.antt =====
-- An extension in a worker process, with a codec that writes a number as so many `x` and a `y`.
use Prim.Native.String.{◌∷◌}
use Prim.Native.Char.{Char, code}
use formshift_server.Prelude.{
  ℕ, zero, suc, String, false, Option, none, some, List, ◌==◌, nat_eq, string_eq, ◌≡◌, refl, ap,
  eq_iff, arith, Result, ok, err, elem, if◌then◌else◌,
}
use formshift_server.Prelude.Dict.{Dict}
use formshift_server.Text.{before, after, strip, trim_start, trim_end, is_space, is_blank}
use formshift_server.Json.{Json, str, null, end, field, Bytes, obj}
use formshift_server.Extensions.Runner.{Codec, Entry, content, serve_line, encode_outputs}
use formshift_server.Extensions.Worker.{
  encode_inputs, read_reply, write_request, ExtensionWorker, Conditions, Reply, pipe_failed, line,
  ensure_started, isolated_run, request, request_document,
}
use formshift_server.Extensions.Worker.Direct.{
  IsCarried, direct, asked, answer, IsServing, isolated_run-direct,
}
use formshift_server.Extensions.Worker.Restart.{
  History, begins, requested, ensure_started-IsUnfailed,
}

abbrev tick : Char
tick = "x"

abbrev done : Char
done = "y"

abbrev write_number : ℕ → String → String
write_number zero rest = done ∷ rest
write_number (suc n) rest = tick ∷ write_number n rest

abbrev write_bytes : Bytes → String
write_bytes List.[] = String.[]
write_bytes (List.◌∷◌ n ns) = write_number n (write_bytes ns)

abbrev one_more : Option Bytes → Option Bytes
one_more (some (List.◌∷◌ n ns)) = some (List.◌∷◌ (suc n) ns)
one_more _ = none

abbrev with_zero : Option Bytes → Option Bytes
with_zero none = none
with_zero (some ns) = some (List.◌∷◌ 0 ns)

abbrev read_bytes : String → Option Bytes
read_bytes String.[] = some List.[]
read_bytes (c ∷ s) =
    let rest = read_bytes s in if code c == 121 then with_zero rest else one_more rest

read-write_number :
    (n : ℕ) (ns : Bytes) (rest : String)
    → read_bytes rest ≡ some ns
    → read_bytes (write_number n rest) ≡ some (List.◌∷◌ n ns)
read-write_number zero ns rest h = rw h refl
read-write_number (suc n) ns rest h = rw (read-write_number n ns rest h) refl

read-write_bytes : (ns : Bytes) → read_bytes (write_bytes ns) ≡ some ns
read-write_bytes List.[] = refl
read-write_bytes (List.◌∷◌ n ns) = read-write_number n ns (write_bytes ns) (read-write_bytes ns)

-- A codec for the bytes alone.
abbrev bare : Codec
bare = record {
  encode64 = write_bytes;
  decode64 = read_bytes;
  dumps = λ document. "";
  loads = λ text. none;
  repr = λ name. name;
  show = λ value. "{}";
  misused = λ operation value. "TypeError";
  not_base64 = λ text. "binascii.Error";
  not_json = λ text. "JSONDecodeError";
}

abbrev cut : Entry
cut inputs params draft =
    ok (List.◌∷◌ ("image", ("raster/png", content (List.◌∷◌ 2 List.[]))) List.[])

abbrev code_of : Json → String → String → Result String Entry
code_of src name attr = if name == "removebg" then ok cut else err "ModuleNotFoundError"

abbrev given : Dict String Bytes
given = List.◌∷◌ ("image", List.◌∷◌ 3 List.[]) List.[]

found : code_of (str "src") (before 58 "removebg:run") (after 58 "removebg:run") ≡ ok cut
unfolding before after
found = refl

abbrev question : Json
question =
    asked bare code_of read-write_bytes "module cut" "src" "removebg:run" cut found given end false

abbrev reply : Json
reply =
    answer bare code_of read-write_bytes "module cut" "src" "removebg:run" cut found given end false

-- The codec, with a line for each of the two documents.
abbrev sample_codec : Codec
sample_codec = record bare { dumps = write_document; loads = read_document }
  where
    write_document : Json → String
    write_document (obj (field name value fields)) = if name == "src" then "question" else "reply"
    write_document _ = "null"

    read_document : String → Option Json
    read_document text =
        if strip text == "question"
        then some question
        else (if strip text == "reply" then some reply else none)

abbrev answered : Option String → Reply
answered none = pipe_failed
answered (some response) = line response

-- One process, which answers as the runner does.
abbrev calm : Conditions
calm = record {
  is_running = λ process. process == 1;
  started = some 1;
  reply = λ process text. answered (serve_line sample_codec code_of text);
  timed_out = false;
}

abbrev idle : ExtensionWorker
idle = record { process = none }

abbrev busy : ExtensionWorker
busy = record { process = some 1 }

question-IsCarried : IsCarried sample_codec question
unfolding strip trim_start trim_end is_space is_blank asked request_document encode_inputs
question-IsCarried = record {
  back = refl;
  some_text = λ e. ground (arith, (eq_iff "question" "").1 e);
}

reply-IsCarried : IsCarried sample_codec reply
unfolding strip trim_start trim_end is_space is_blank answer encode_outputs
reply-IsCarried = record { back = refl; some_text = λ e. ground (arith, (eq_iff "reply" "").1 e) }

calm-IsServing :
    IsServing sample_codec code_of read-write_bytes "module cut" "src" "removebg:run" cut found
      given end false
      (calm.reply 1)
unfolding IsServing
calm-IsServing written text h = ap answered h

isolated_run-direct_example :
    isolated_run sample_codec calm idle "module cut" "src" "removebg:run" given end false
    ≡ (busy, direct sample_codec "module cut" (cut given (obj end) false))
unfolding ensure_started asked answer request_document encode_inputs encode_outputs
isolated_run-direct_example =
    isolated_run-direct sample_codec code_of read-write_bytes "module cut" "src" "removebg:run" cut
      found given end false calm idle busy 1 refl calm-IsServing question-IsCarried reply-IsCarried

-- The first process fails, and the second request starts another.
abbrev broken : Conditions
broken = record calm { reply = λ process text. pipe_failed }

abbrev later : Conditions
later = record calm { started = some 2 }

one_failure : History sample_codec idle (List.◌∷◌ 1 List.[]) (List.◌∷◌ 1 List.[])
unfolding request ensure_started write_request read_reply
one_failure = requested begins broken null (λ process h. refl)

ensure_started-IsUnfailed_example : elem {A = ℕ} 2 (List.◌∷◌ 1 List.[]) ≡ false
unfolding ensure_started
ensure_started-IsUnfailed_example =
    ensure_started-IsUnfailed sample_codec idle (List.◌∷◌ 1 List.[]) (List.◌∷◌ 1 List.[]) later 2
      one_failure (λ process h. ground (arith, h)) refl
