-- ===== src/Core/Potrace.antt =====
-- src/formshift_server/core/potrace.py. The environment, the search for the program and the run of
-- its process are the parameter `Host`.
use formshift_server.Prelude.{
  zero, ℤ, pos, ltb_ℤ, String, Bool, not, ◌&&◌, Option, none, some, List, [], ◌∷◌, ◌==◌, string_eq,
  Result, ok, err, ◌>>=◌, ◌>>◌, raise_if, if◌then◌else◌,
}
use formshift_server.Prelude.Dict.{Dict}
use formshift_server.Json.{Fields, Bytes}
use formshift_server.Modules.{Module, RunError, module_error}
use formshift_server.Core.{Platform, Results, raster_png, input, flatten, int_param, float_param}

-- How `subprocess.run` ends: a code and what was written, or an exception.
pub data Completed : Type 0 where
  completed : (returncode : ℤ) (stdout : Bytes) → Completed
  timeout_expired os_error : Completed

pub record Host (py : Platform) : Type 0 where
  pub env : Option String
  pub on_path : Option String
  pub is_file : String → Bool
  pub dev_path : String
  pub show_float : py.Float → String
  pub show_int : ℤ → String
  pub run_process : (command : List String) (stdin : Bytes) → Completed

module _ (py : Platform) (host : Host py) where
  -- `find_potrace`, from the path on: PATH, and then the development convention.
  abbrev pub elsewhere : Option String
  elsewhere = elim host.on_path [
    | some found ↦ if found == "" then dev else some found
    | none ↦ dev
  ]
    where
      dev : Option String
      dev = if host.is_file host.dev_path then some host.dev_path else none

  -- `find_potrace`
  unfoldable pub find_potrace : Option String
  find_potrace = elim host.env [
    | none ↦ elsewhere
    | some path ↦ if not (path == "") && host.is_file path then some path else elsewhere
  ]

  -- `except Exception`
  abbrev pub or_undecoded {ℓ} : {A : Type ℓ} → Result RunError A → Result RunError A
  or_undecoded (ok value) = ok value
  or_undecoded (err raised) = err (module_error "could not decode PNG input")

  -- The `try` of `_png_to_pgm`.
  abbrev pub to_gray : Bytes → Result RunError py.Image
  to_gray content = elim (py.open_image content) [
    | none ↦ err (module_error "could not decode PNG input")
    | some image ↦ or_undecoded (flatten py image >>= λ flat. py.convert flat "L")
  ]

  -- `_png_to_pgm`
  unfoldable pub png_to_pgm : Bytes → Result RunError Bytes
  unfolding flatten
  png_to_pgm content = do gray ← to_gray content; py.save gray "PPM"

  unfoldable pub command : String → py.Float → ℤ → List String
  command binary blacklevel turdsize =
      binary
      ∷ "--svg"
      ∷ "--blacklevel"
      ∷ host.show_float blacklevel
      ∷ "--turdsize"
      ∷ host.show_int turdsize
      ∷ "--output"
      ∷ "-"
      ∷ []

  -- What becomes of the process.
  abbrev pub traced : Completed → Result RunError Results
  traced timeout_expired = err (module_error "potrace timed out after 300s")
  traced os_error = err (module_error "failed to run potrace")
  traced (completed (pos zero) stdout) =
      ok (("svg", record { type = "vector/svg"; content = stdout }) ∷ [])
  traced (completed _ stdout) = err (module_error "potrace failed")

  abbrev pub in_unit : py.Float → Bool
  in_unit x = py.at_most (py.literal "0.0") x && py.at_most x (py.literal "1.0")

  -- `PotraceModule.run`, with the program that was found.
  unfoldable pub trace_with : String → Dict String Bytes → Fields → Result RunError Results
  unfolding float_param int_param png_to_pgm command
  trace_with binary inputs params = do
    blacklevel ← float_param py params "blacklevel" (py.literal "0.5")
    turdsize ← int_param py params "turdsize" (pos 2)
    raise_if (not (in_unit blacklevel)) (module_error "blacklevel must be in [0, 1]")
    raise_if (ltb_ℤ turdsize (pos 0)) (module_error "turdsize must be >= 0")
    content ← input inputs "image"
    pgm ← png_to_pgm content
    traced (host.run_process (command binary blacklevel turdsize) pgm)

  -- `PotraceModule.run`
  unfoldable pub trace_run : Dict String Bytes → Fields → Bool → Result RunError Results
  unfolding find_potrace trace_with
  trace_run inputs params draft = elim find_potrace [
    | none ↦ err (module_error "potrace binary not found")
    | some binary ↦ trace_with binary inputs params
  ]

  abbrev pub potrace_module : Module
  potrace_module = record {
    manifest = record {
      name = "potrace.trace";
      version = "1.16";
      description = "Trace a raster image to SVG with potrace (subprocess, GPL boundary)";
      inputs = record { name = "image"; type = raster_png } ∷ [];
      outputs = record { name = "svg"; type = "vector/svg" } ∷ [];
      isolation = "core";
    };
    run = trace_run;
  }
