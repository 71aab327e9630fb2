-- ===== src/Extensions/Worker/Restart.antt =====
-- Sequences of requests to one `ExtensionWorker` (src/formshift_server/extensions.py): which process
-- a request is written to.
use Prim.Native.String.{◌++◌}
use formshift_server.Prelude.{
  ℕ, Bool, true, false, Option, none, some, List, [], ◌∷◌, ◌==◌, ◌≡◌, refl, elem, nat_eq, eqb_iff,
  string_eq, arith, Result, ok, err, Bool-cases, Option-cases, ◌⊎◌, inl, inr, if◌then◌else◌,
}
use formshift_server.Json.{Json}
use formshift_server.Modules.{RunError, module_error}
use formshift_server.Extensions.Runner.{Codec}
use formshift_server.Extensions.Worker.{
  ExtensionWorker, Conditions, Reply, pipe_failed, line, ensure_started, read_reply, write_request,
  request,
}

abbrev failed_with {ℓ} : {A : Type ℓ} → Result RunError A → Option ℕ → List ℕ → List ℕ
failed_with (ok a) process failed = failed
failed_with (err e) none failed = failed
failed_with (err e) (some process) failed = process ∷ failed

abbrev with_process : Option ℕ → List ℕ → List ℕ
with_process none known = known
with_process (some process) known = process ∷ known

-- `Popen` starts a process that was not there before.
abbrev pub IsFresh : Conditions → List ℕ → Type 0
IsFresh world known = (process : ℕ) → world.started ≡ some process → elem process known ≡ false

-- The worker after some requests, with the processes that a request failed on, and all the
-- processes that requests were written to.
pub data History (codec : Codec) : ExtensionWorker → List ℕ → List ℕ → Type 0 where
  begins : History codec (record { process = none }) [] []
  requested :
      {worker : ExtensionWorker} {failed known : List ℕ}
      → History codec worker failed known
      → (world : Conditions) (payload : Json) → IsFresh world known
      → History codec
          (request codec world worker payload).0
          (failed_with
            (request codec world worker payload).1
            (ensure_started world worker).1
            failed)
          (with_process (ensure_started world worker).1 known)

started-process :
    (world : Conditions) (worker : ExtensionWorker)
    → (((ensure_started world worker).1 ≡ none) × ((ensure_started world worker).0 ≡ worker))
      ⊎ ((process : ℕ) × ((ensure_started world worker).1 ≡ some process)
          × ((ensure_started world worker).0.process ≡ some process)
          × ((worker.process ≡ some process) ⊎ (world.started ≡ some process)))
unfolding ensure_started
started-process world worker = elim (Option-cases worker.process) [
  | inl e ↦ elim (Option-cases world.started) [
    | inl f ↦ inl (rw (e, f) refl, rw (e, f) refl)
    | inr (p, f) ↦ inr (p, rw (e, f) refl, rw (e, f) refl, inr f)
  ]
  | inr (q, e) ↦ elim (Bool-cases (world.is_running q)) [
    | inl r ↦ inr (q, rw (e, r) refl, rw (e, r) refl, inl e)
    | inr r ↦ elim (Option-cases world.started) [
      | inl f ↦ inl (rw (e, r, f) refl, rw (e, r, f) refl)
      | inr (p, f) ↦ inr (p, rw (e, r, f) refl, rw (e, r, f) refl, inr f)
    ]
  ]
]

read_reply-cases :
    (codec : Codec) (worker : ExtensionWorker) (timed_out : Bool) (reply : Reply)
    → ((response : Json) × ((read_reply codec worker timed_out reply).1 ≡ ok response)
        × ((read_reply codec worker timed_out reply).0 ≡ worker))
      ⊎ ((error : RunError) × ((read_reply codec worker timed_out reply).1 ≡ err error)
          × ((read_reply codec worker timed_out reply).0.process ≡ none))
unfolding read_reply
read_reply-cases codec worker timed_out pipe_failed =
    inr (module_error "worker pipe failed", refl, refl)
read_reply-cases codec worker timed_out (line text) = elim (Bool-cases (text == "")) [
  | inl e ↦
      inr (module_error (if timed_out then "timed out" else "worker exited"), rw e refl, rw e refl)
  | inr e ↦ elim (Option-cases (codec.loads text)) [
    | inl f ↦ inr (module_error "worker returned invalid output", rw (e, f) refl, rw (e, f) refl)
    | inr (response, f) ↦ inl (response, rw (e, f) refl, rw (e, f) refl)
  ]
]

-- What the requests keep: the worker's process is one that no request failed on.
record IsClean (worker : ExtensionWorker) (failed known : List ℕ) : Type 0 where
  current : (process : ℕ) → worker.process ≡ some process → elem process failed ≡ false
  listed : (process : ℕ) → worker.process ≡ some process → elem process known ≡ true
  within : (process : ℕ) → elem process failed ≡ true → elem process known ≡ true

target-clean :
    (world : Conditions) (worker : ExtensionWorker) (failed known : List ℕ) (process : ℕ)
    → IsClean worker failed known
    → IsFresh world known
    → (worker.process ≡ some process) ⊎ (world.started ≡ some process)
    → elem process failed ≡ false
target-clean world worker failed known process clean fresh (inl e) = clean.current process e
target-clean world worker failed known process clean fresh (inr e) =
    elim (Bool-cases (elem process failed)) [
      | inl m ↦ absurd (ground (arith, clean.within process m, fresh process e))
      | inr m ↦ m
    ]

write-none :
    (codec : Codec) (world : Conditions) (payload : Json) (start : ExtensionWorker × Option ℕ)
    → start.1 ≡ none
    → write_request codec world payload start
      ≡ (start.0, err (module_error "failed to start worker"))
unfolding write_request
write-none codec world payload (ready, none) e = refl
write-none codec world payload (ready, some p) e = absurd (ground arith)

write-some :
    (codec : Codec) (world : Conditions) (payload : Json) (start : ExtensionWorker × Option ℕ)
    (process : ℕ)
    → start.1 ≡ some process
    → write_request codec world payload start
      ≡ read_reply codec start.0 world.timed_out (world.reply process (codec.dumps payload ++ "\n"))
unfolding write_request
write-some codec world payload (ready, none) process e = absurd (ground arith)
write-some codec world payload (ready, some p) process e =
    let same : p ≡ process = ground (arith, e) in rw same refl

module _ (codec : Codec) (world : Conditions) (payload : Json) (worker : ExtensionWorker)
    (failed known : List ℕ) where
  -- The worker and the two lists after a request that starts from `start`.
  After : ExtensionWorker × Option ℕ → Type 0
  After start =
      IsClean (write_request codec world payload start).0
        (failed_with (write_request codec world payload start).1 start.1 failed)
        (with_process start.1 known)

  none-After :
      (start : ExtensionWorker × Option ℕ)
      → start.1 ≡ none
      → start.0 ≡ worker
      → IsClean worker failed known
      → After start
  unfolding After
  none-After start e same clean = rw (write-none codec world payload start e, e, same) clean

  some-After :
      (start : ExtensionWorker × Option ℕ) (process : ℕ)
      → start.1 ≡ some process
      → start.0.process ≡ some process
      → elem process failed ≡ false
      → IsClean worker failed known
      → After start
  unfolding After
  some-After start process e has_process unfailed clean =
      elim (read_reply-cases codec start.0 world.timed_out
        (world.reply process (codec.dumps payload ++ "\n"))) [
          | inl (response, is_ok, left) ↦
              rw (write-some codec world payload start process e, e, is_ok, left)
                (record {
                  current = λ q h.
                      let same : process ≡ q = ground (arith, has_process, h) in
                      rw (← same) unfailed;
                  listed = λ q h. ground (arith, has_process, h, eqb_iff process q);
                  within = λ q h. ground (arith, clean.within q h);
                })
          | inr (error, is_err, gone) ↦
              rw (write-some codec world payload start process e, e, is_err)
                (record {
                  current = λ q h. absurd (ground (arith, gone, h));
                  listed = λ q h. absurd (ground (arith, gone, h));
                  within = λ q h. ground (arith, clean.within q);
                })
        ]

  request-After :
      IsFresh world known → IsClean worker failed known → After (ensure_started world worker)
  request-After fresh clean = elim (started-process world worker) [
    | inl (e, same) ↦ none-After (ensure_started world worker) e same clean
    | inr (process, e, has_process, origin) ↦
        some-After (ensure_started world worker) process e has_process
          (target-clean world worker failed known process clean fresh origin) clean
  ]

History-IsClean :
    (codec : Codec) (worker : ExtensionWorker) (failed known : List ℕ)
    → History codec worker failed known
    → IsClean worker failed known
unfolding request After
History-IsClean codec worker failed known begins = record {
  current = λ q h. absurd (ground (arith, h));
  listed = λ q h. absurd (ground (arith, h));
  within = λ q h. absurd (ground (arith, h));
}
History-IsClean codec worker failed known
      (requested {worker = w} {failed = f} {known = k} history world payload fresh) =
    request-After codec world payload w f k fresh (History-IsClean codec w f k history)

-- After any requests to a worker, with `Popen` starting only processes that were not there before:
-- the process that the next request is written to, where there is one, is none that a request has
-- failed on.
pub ensure_started-IsUnfailed :
    (codec : Codec) (worker : ExtensionWorker) (failed known : List ℕ) (world : Conditions)
    (process : ℕ)
    → History codec worker failed known
    → IsFresh world known
    → (ensure_started world worker).1 ≡ some process
    → elem process failed ≡ false
ensure_started-IsUnfailed codec worker failed known world process history fresh e =
    elim (started-process world worker) [
      | inl (absent, _) ↦ absurd (ground (arith, absent, e))
      | inr (p, found, _, origin) ↦
          let same : p ≡ process = ground (arith, found, e) in
          rw (← same) (
            target-clean world worker failed known p
              (History-IsClean codec worker failed known history) fresh origin)
    ]
